-- ===== src/Vm/Engine/ItemCount.antt =====
-- neo/VM/ExecutionEngine.py: the loop of GetItemCount ends, since it expands a collection once.
pub mod Unseen
use neo_python.Prelude.{
  Bool, List, Option, [], arith, false, length, length-append, length-reverse, none, refl, some,
  subst, suc, true, zero, ℕ, ◌++◌, ◌+◌, ◌∷◌, ◌≡◌, ◌≤◌,
}
use neo_python.Vm.Engine.ItemCount.Unseen.{
  IsClosed, IsReflexive, contained-was_seen, left_below, left_below-cells, left_below-taken,
  taken_below, taken_below-held,
}
use neo_python.Vm.Engine.Limits.{
  children, contained, count_raised, get_item_count, held, item_count_loop, stuck,
}
use neo_python.Vm.StackItem.{Heap, StackItem, array, map, struct}
use neo_python.Vm.StackItem.Equality.{item_eq}
use neo_python.Vm.State.{Host}
use mathlib.Core.List.{reverse}

-- The loop ends from here on with so much fuel.
EndsWith : (StackItem → StackItem → Option Bool) → Heap → ℕ → Type 0
EndsWith eq heap fuel =
    (items counted : List StackItem) (count : ℕ)
    → length items + left_below heap counted heap.next ≤ fuel
    → ¬ (item_count_loop eq heap fuel items counted count ≡ stuck)

module _ (eq : StackItem → StackItem → Option Bool) (heap : Heap) (is : IsReflexive eq)
    (closed : IsClosed heap) (x : StackItem) (items counted : List StackItem) where
  held-taken :
      (xs : List StackItem) → children heap x ≡ some xs → length xs ≤ taken_below heap x heap.next
  unfolding held
  held-taken xs p =
      subst (λ o. elim o [ none ↦ 0 | some xs ↦ length xs ] ≤ taken_below heap x heap.next) p
        (taken_below-held heap x closed)

  expanded :
      (fuel : ℕ) (xs : List StackItem)
      → length (x ∷ items) + left_below heap counted heap.next ≤ suc fuel
      → children heap x ≡ some xs
      → contained eq x counted ≡ some false
      → length (reverse xs ++ items) + left_below heap (counted ++ (x ∷ [])) heap.next ≤ fuel
  expanded fuel xs enough p q = omega (
    arith,
    left_below-taken heap x counted heap.next (contained-was_seen eq x counted is q),
    held-taken xs p,
    length-append (reverse xs) items,
    length-reverse xs,
    enough,
  )

  collection-ends :
      (fuel count : ℕ) (xs : List StackItem)
      → EndsWith eq heap fuel
      → length (x ∷ items) + left_below heap counted heap.next ≤ suc fuel
      → children heap x ≡ some xs
      → (o : Option Bool) → contained eq x counted ≡ o
      → ¬ (
          elim o [
            | none ↦ count_raised
            | some true ↦ item_count_loop eq heap fuel items counted count
            | some false ↦
                item_count_loop eq heap fuel (reverse xs ++ items) (counted ++ (x ∷ [])) count
          ]
          ≡ stuck)
  unfolding EndsWith
  collection-ends fuel count xs ends enough p none q = λ h. ground (arith, h)
  collection-ends fuel count xs ends enough p (some true) q =
      ends items counted count (omega (arith, enough))
  collection-ends fuel count xs ends enough p (some false) q =
      ends (reverse xs ++ items) (counted ++ (x ∷ [])) count (expanded fuel xs enough p q)

  item-ends :
      (fuel count : ℕ)
      → EndsWith eq heap fuel
      → length (x ∷ items) + left_below heap counted heap.next ≤ suc fuel
      → (o : Option (List StackItem)) → children heap x ≡ o
      → ¬ (
          elim o [
            | none ↦ item_count_loop eq heap fuel items counted (count + 1)
            | some xs ↦ elim (contained eq x counted) [
              | none ↦ count_raised
              | some true ↦ item_count_loop eq heap fuel items counted count
              | some false ↦
                  item_count_loop eq heap fuel (reverse xs ++ items) (counted ++ (x ∷ [])) count
            ]
          ]
          ≡ stuck)
  unfolding EndsWith
  item-ends fuel count ends enough none p = ends items counted (count + 1) (omega (arith, enough))
  item-ends fuel count ends enough (some xs) p =
      collection-ends fuel count xs ends enough p (contained eq x counted) refl

-- The loop ends within the items that are waiting and what was not seen yet.
item_count_loop-ends :
    (eq : StackItem → StackItem → Option Bool) (heap : Heap) (fuel : ℕ)
    → IsReflexive eq
    → IsClosed heap
    → EndsWith eq heap fuel
unfolding item_count_loop EndsWith
item_count_loop-ends eq heap fuel is closed [] counted count enough = λ h. ground (arith, h)
item_count_loop-ends eq heap zero is closed (x ∷ items) counted count enough =
    absurd (omega (arith, enough))
item_count_loop-ends eq heap (suc fuel) is closed (x ∷ items) counted count enough =
    item-ends eq heap is closed x items counted fuel count
      (item_count_loop-ends eq heap fuel is closed) enough (children heap x) refl

item_eq-IsReflexive :
    (objects : ℕ → ℕ → Bool) (depth : ℕ) (heap : Heap) → IsReflexive (item_eq objects depth heap)
unfolding IsReflexive item_eq
item_eq-IsReflexive objects zero heap x y same h = ground (arith, h)
item_eq-IsReflexive objects (suc depth) heap (array r) (array q) same h = ground (arith, h)
item_eq-IsReflexive objects (suc depth) heap (struct r) (struct q) same h = ground (arith, h)
item_eq-IsReflexive objects (suc depth) heap (map r) (map q) same h = ground (arith, h)
item_eq-IsReflexive objects (suc depth) heap x y same h = absurd (ground (arith, same))

-- GetItemCount ends, however the collections hold each other or themselves: the fuel that it is
-- given, one unit for each item on the stacks and for each one that a collection of the heap
-- holds, is enough. Condition: no collection of the heap that was not given out yet holds an
-- item.
pub get_item_count-ends :
    (h : Host) (heap : Heap) (items : List StackItem)
    → IsClosed heap
    → ¬ (get_item_count h heap items ≡ stuck)
unfolding get_item_count EndsWith
get_item_count-ends h heap items closed =
    item_count_loop-ends (item_eq h.object_eq h.recursion_limit heap) heap _
      (item_eq-IsReflexive h.object_eq h.recursion_limit heap) closed (reverse items) [] 0
      (omega (arith, length-reverse items, left_below-cells heap heap.next))
