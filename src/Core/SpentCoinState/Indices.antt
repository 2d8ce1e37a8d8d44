-- ===== src/Core/SpentCoinState/Indices.antt =====
-- neo/Core/State/SpentCoinState.py: the indices that are left after DeleteIndex.
use neo_python.Core.SpentCoinState.{
  SpentCoinItem, SpentCoinState, coin_has_index, delete_index, delete_last,
}
use neo_python.Prelude.{
  List, [], arith, if◌then◌else◌, ltb, not, refl, ℕ, ◌&&◌, ◌+◌, ◌-◌, ◌==◌, ◌∷◌, ◌≡◌, ◌≤◌,
}

-- How many items have an index.
unfoldable pub count_index : ℕ → List SpentCoinItem → ℕ
count_index index [] = 0
count_index index (i ∷ items) = (if i.index == index then 1 else 0) + count_index index items

coin_has_index-count :
    (index : ℕ) (items : List SpentCoinItem)
    → coin_has_index index items ≡ ltb 0 (count_index index items)
unfolding coin_has_index count_index
coin_has_index-count index [] = refl
coin_has_index-count index (i ∷ items) = ground (arith, coin_has_index-count index items)

-- DeleteIndex takes one item of the index away, where there is one, and leaves those of the other indices.
pub count_index-delete_last :
    (index j : ℕ) (items : List SpentCoinItem)
    → count_index j (delete_last index items)
      ≡ (if index == j then count_index j items - 1 else count_index j items)
unfolding delete_last count_index
count_index-delete_last index j [] = ground arith
count_index-delete_last index j (i ∷ items) =
    let rest = count_index-delete_last index j items in
    let some_index = coin_has_index-count index items in ground (arith, rest, some_index)

-- An index of which there was one item is gone after DeleteIndex, and every other index is there if it was.
pub coin_has_index-delete_index :
    (index j : ℕ) (state : SpentCoinState)
    → count_index index state.coin_items ≤ 1
    → coin_has_index j (delete_index index state).coin_items
      ≡ (not (index == j) && coin_has_index j state.coin_items)
unfolding delete_index
coin_has_index-delete_index index j state one =
    let left = count_index-delete_last index j state.coin_items in
    let before = coin_has_index-count j state.coin_items in
    let after = coin_has_index-count j (delete_last index state.coin_items) in
    ground (arith, one, left, before, after)
