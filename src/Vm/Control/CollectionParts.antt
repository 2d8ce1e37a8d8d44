-- ===== src/Vm/Control/CollectionParts.antt =====
-- The parts of the instructions on collections leave the control state alone.
use neo_python.Prelude.{List, Option, [], none, refl, some, suc, zero, ℕ, ◌∷◌}
use neo_python.Vm.Control.{
  IsLocal, IsLocal-bind, IsLocal-pure, IsLocal-still, Quiet-commit, Same, Same-refl,
}
use neo_python.Vm.Control.Primitives.{
  IsLocal-new_identity, IsLocal-pop_from, IsLocal-push_on, Quiet-data, Same-data, op_rules,
}
use neo_python.Vm.Engine.Monad.{commit}
use neo_python.Vm.Engine.Stacks.{evaluation}
use neo_python.Vm.Instruction.{Instruction}
use neo_python.Vm.Ops.Collections.{
  array_or_fail, clone_all, clone_struct, cloned, count_item, has_index, has_key, index_or_fail,
  keys_of, new_collection, new_falses, pick_from, pop_times, push_all, remove_key, store_into,
  value_or_fail, values_of,
}
use neo_python.Vm.StackItem.{
  Heap, StackItem, array, boolean, byte_array, integer, interop, map, struct,
}
use neo_python.Vm.StackItem.Equality.{clone}
use neo_python.Vm.State.{Engine, Host, VmFault}
use neo_python.Vm.Ops.Collections

pub IsLocal-clone_struct : (h : Host) (item : StackItem) → IsLocal (Collections.clone_struct h item)
unfolding Collections.clone_struct
IsLocal-clone_struct h (struct r) = record {
  at = λ e. go e (Collections.cloned (clone h.recursion_limit r e.heap));
  quiet = record {
    calm = λ e.
        Quiet-commit (Collections.cloned (clone h.recursion_limit r e.heap))
          (λ heap e. record e { heap = heap }) e (λ s. Quiet-data e _ refl refl refl);
  };
}
  where
    go :
        (e : Engine) (o : Option (StackItem × Heap))
        → Same e (commit o (λ heap e. record e { heap = heap }) e).1
    go e none = Same-refl e
    go e (some (x, heap)) = Same-data e _ refl refl refl
IsLocal-clone_struct h (byte_array bs) = IsLocal-still _ (λ e. refl)
IsLocal-clone_struct h (boolean i b) = IsLocal-still _ (λ e. refl)
IsLocal-clone_struct h (integer x) = IsLocal-still _ (λ e. refl)
IsLocal-clone_struct h (interop i o) = IsLocal-still _ (λ e. refl)
IsLocal-clone_struct h (array r) = IsLocal-still _ (λ e. refl)
IsLocal-clone_struct h (map r) = IsLocal-still _ (λ e. refl)

pub IsLocal-array_or_fail : (o : Option ℕ) (id : VmFault) → IsLocal (Collections.array_or_fail o id)
unfolding Collections.array_or_fail
IsLocal-array_or_fail none id = search op_rules
IsLocal-array_or_fail (some r) id = search op_rules

pub IsLocal-index_or_fail :
    (key : StackItem) (n : ℕ) (id : VmFault) → IsLocal (Collections.index_or_fail key n id)
unfolding Collections.index_or_fail
IsLocal-index_or_fail key n id = search op_rules depth 20

pub IsLocal-pop_times : (n c : ℕ) → IsLocal (Collections.pop_times n c)
unfolding Collections.pop_times
IsLocal-pop_times zero c = search op_rules
IsLocal-pop_times (suc n) c =
    IsLocal-bind _ _ (IsLocal-pop_from c evaluation)
      (λ x. IsLocal-bind _ _ (IsLocal-pop_times n c) (λ xs. IsLocal-pure _))

pub IsLocal-push_all : (c : ℕ) (xs : List StackItem) → IsLocal (Collections.push_all c xs)
unfolding Collections.push_all
IsLocal-push_all c [] = search op_rules
IsLocal-push_all c (x ∷ xs) =
    IsLocal-bind _ _ (IsLocal-push_on c evaluation x) (λ _. IsLocal-push_all c xs)

pub IsLocal-new_falses : (n : ℕ) → IsLocal (Collections.new_falses n)
unfolding Collections.new_falses
IsLocal-new_falses zero = search op_rules
IsLocal-new_falses (suc n) =
    IsLocal-bind _ _ IsLocal-new_identity
      (λ i. IsLocal-bind _ _ (IsLocal-new_falses n) (λ xs. IsLocal-pure _))

pub IsLocal-clone_all : (h : Host) (xs : List StackItem) → IsLocal (Collections.clone_all h xs)
unfolding Collections.clone_all
IsLocal-clone_all h [] = search op_rules
IsLocal-clone_all h (x ∷ xs) =
    IsLocal-bind _ _ (IsLocal-clone_struct h x)
      (λ y. IsLocal-bind _ _ (IsLocal-clone_all h xs) (λ ys. IsLocal-pure _))

pub IsLocal-value_or_fail :
    (h : Host) (c : ℕ) (o : Option StackItem) → IsLocal (Collections.value_or_fail h c o)
unfolding Collections.value_or_fail
IsLocal-value_or_fail h c none = search op_rules
IsLocal-value_or_fail h c (some x) = search op_rules depth 20

pub ruleset part_rules = (
  op_rules, IsLocal-clone_struct, IsLocal-array_or_fail, IsLocal-index_or_fail, IsLocal-pop_times,
  IsLocal-push_all, IsLocal-new_falses, IsLocal-clone_all, IsLocal-value_or_fail,
)

pub IsLocal-count_item :
    (h : Host) (c : ℕ) (item : StackItem) → IsLocal (Collections.count_item h c item)
unfolding Collections.count_item
IsLocal-count_item h c (byte_array bs) = search part_rules depth 20
IsLocal-count_item h c (boolean i b) = search part_rules depth 20
IsLocal-count_item h c (integer x) = search part_rules depth 20
IsLocal-count_item h c (interop i o) = search part_rules depth 20
IsLocal-count_item h c (array r) = search part_rules depth 20
IsLocal-count_item h c (struct r) = search part_rules depth 20
IsLocal-count_item h c (map r) = search part_rules depth 20

pub IsLocal-pick_from :
    (h : Host) (c : ℕ) (key item : StackItem) → IsLocal (Collections.pick_from h c key item)
unfolding Collections.pick_from
IsLocal-pick_from h c key (byte_array bs) = search part_rules depth 20
IsLocal-pick_from h c key (boolean i b) = search part_rules depth 20
IsLocal-pick_from h c key (integer x) = search part_rules depth 20
IsLocal-pick_from h c key (interop i o) = search part_rules depth 20
IsLocal-pick_from h c key (array r) = search part_rules depth 20
IsLocal-pick_from h c key (struct r) = search part_rules depth 20
IsLocal-pick_from h c key (map r) = search part_rules depth 20

pub IsLocal-store_into :
    (h : Host) (key value item : StackItem) → IsLocal (Collections.store_into h key value item)
unfolding Collections.store_into
IsLocal-store_into h key value (byte_array bs) = search part_rules depth 20
IsLocal-store_into h key value (boolean i b) = search part_rules depth 20
IsLocal-store_into h key value (integer x) = search part_rules depth 20
IsLocal-store_into h key value (interop i o) = search part_rules depth 20
IsLocal-store_into h key value (array r) = search part_rules depth 20
IsLocal-store_into h key value (struct r) = search part_rules depth 20
IsLocal-store_into h key value (map r) = search part_rules depth 20

pub IsLocal-remove_key : (key item : StackItem) → IsLocal (Collections.remove_key key item)
unfolding Collections.remove_key
IsLocal-remove_key key (byte_array bs) = search part_rules depth 20
IsLocal-remove_key key (boolean i b) = search part_rules depth 20
IsLocal-remove_key key (integer x) = search part_rules depth 20
IsLocal-remove_key key (interop i o) = search part_rules depth 20
IsLocal-remove_key key (array r) = search part_rules depth 20
IsLocal-remove_key key (struct r) = search part_rules depth 20
IsLocal-remove_key key (map r) = search part_rules depth 20

pub IsLocal-has_index : (key : StackItem) (r : ℕ) → IsLocal (Collections.has_index key r)
unfolding Collections.has_index
IsLocal-has_index key r = search part_rules depth 20

pub IsLocal-has_key : (key item : StackItem) → IsLocal (Collections.has_key key item)
unfolding Collections.has_key
IsLocal-has_key key (byte_array bs) = search part_rules depth 20
IsLocal-has_key key (boolean i b) = search part_rules depth 20
IsLocal-has_key key (integer x) = search part_rules depth 20
IsLocal-has_key key (interop i o) = search part_rules depth 20
IsLocal-has_key key (array r) = search (part_rules, IsLocal-has_index) depth 20
IsLocal-has_key key (struct r) = search (part_rules, IsLocal-has_index) depth 20
IsLocal-has_key key (map r) = search part_rules depth 20

pub IsLocal-keys_of : (h : Host) (c : ℕ) (item : StackItem) → IsLocal (Collections.keys_of h c item)
unfolding Collections.keys_of
IsLocal-keys_of h c (byte_array bs) = search part_rules depth 20
IsLocal-keys_of h c (boolean i b) = search part_rules depth 20
IsLocal-keys_of h c (integer x) = search part_rules depth 20
IsLocal-keys_of h c (interop i o) = search part_rules depth 20
IsLocal-keys_of h c (array r) = search part_rules depth 20
IsLocal-keys_of h c (struct r) = search part_rules depth 20
IsLocal-keys_of h c (map r) = search part_rules depth 20

pub IsLocal-values_of :
    (h : Host) (c : ℕ) (item : StackItem) → IsLocal (Collections.values_of h c item)
unfolding Collections.values_of
IsLocal-values_of h c (byte_array bs) = search part_rules depth 20
IsLocal-values_of h c (boolean i b) = search part_rules depth 20
IsLocal-values_of h c (integer x) = search part_rules depth 20
IsLocal-values_of h c (interop i o) = search part_rules depth 20
IsLocal-values_of h c (array r) = search part_rules depth 20
IsLocal-values_of h c (struct r) = search part_rules depth 20
IsLocal-values_of h c (map r) = search part_rules depth 20

pub IsLocal-new_collection :
    (h : Host) (c : ℕ) (ins : Instruction) (item : StackItem) (o : Option ℕ)
    → IsLocal (Collections.new_collection h c ins item o)
unfolding Collections.new_collection
IsLocal-new_collection h c ins item none = search part_rules depth 20
IsLocal-new_collection h c ins item (some r) = search part_rules depth 20

pub ruleset collection_rules = (
  part_rules, IsLocal-count_item, IsLocal-pick_from, IsLocal-store_into, IsLocal-remove_key,
  IsLocal-has_key, IsLocal-keys_of, IsLocal-values_of, IsLocal-new_collection,
)
