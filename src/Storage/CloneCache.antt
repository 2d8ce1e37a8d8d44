-- ===== src/Storage/CloneCache.antt =====
-- neo/Storage/Common/CloneCache.py: a cache over a cache.
use mathlib.Core.Option
use neo_python.Prelude.{List, Option, ap, none, refl, some, ℕ, ◌∙◌, ◌≡◌}
use neo_python.Storage.DataCache.{
  DataCache, Internals, add, commit_cache, delete, get_and_change, get_item, new_cache, try_get,
  write_item,
}
use neo_python.Storage.DataCache.Changes.{get_and_change-view}
use neo_python.Storage.DataCache.Commit.{commit_cache-view}
use neo_python.Storage.DataCache.Operations.{add-view, delete-view, try_get-view}
use neo_python.Storage.DataCache.Views.{IsGoodCache, IsInternals, view_of, with_key}

-- CloneCache. `copy` and `from_replica` are the methods of the items: what Clone gives, and what an
-- item is after FromReplica.
unfoldable pub clone_internals :
    {S V : Type 0} → (V → V) → (V → V → V) → Internals S V → Internals (DataCache S V) V
clone_internals copy from_replica i = record {
  try_get_internal = λ k c. let (o, c') = try_get i k c in (Option.map copy o, c');
  get_internal = λ k c. let (o, c') = get_item i k c in (Option.map copy o, c');
  add_internal = λ k v c. add i k v c;
  update_internal = λ k v c.
      let (o, c') = get_and_change i k none c in
      elim o [ none ↦ none | some old ↦ some (write_item i k (from_replica old v) c') ];
  delete_internal = λ k c. delete i k c;
}

-- CreateSnapshot
abbrev pub create_snapshot : {S V : Type 0} → DataCache S V → DataCache (DataCache S V) V
create_snapshot c = new_cache c

module _ {S V : Type 0} (i : Internals S V) (n : IsInternals i) (copy : V → V)
    (from_replica : V → V → V) (same_copy : (v : V) → copy v ≡ v)
    (same_replica : (old v : V) → from_replica old v ≡ v) where
  pub map_clone : (o : Option V) → Option.map copy o ≡ o
  map_clone none = refl
  map_clone (some v) = ap (λ x. some x) (same_copy v)

  -- A cache serves as the store of another one: its methods keep to what a store is relied on for.
  unfoldable pub IsInternals-clone : IsInternals (clone_internals copy from_replica i)
  unfolding clone_internals
  IsInternals-clone = record {
    view = view_of i n;
    IsGood = IsGoodCache i n;
    try_get_law = λ k c g. let (p, (h, f)) = try_get-view i n k c g in (map_clone _ ∙ p, h, f);
    add_law = λ k v c g absent. let (c', p, (h, f)) = add-view i n k v c g absent in (c', p, h, f);
    update_law = λ k v w c g shown.
        let (p, (h, f)) = get_and_change-view i n k (from_replica w v) w none c g shown in
        (
          write_item i k (from_replica w v) (get_and_change i k none c).1,
          ap
              (λ o. elim o [
                | none ↦ none
                | some old ↦
                    some (write_item i k (from_replica old v) (get_and_change i k none c).1)
              ])
              p,
          h,
          λ j. f j ∙ ap (λ x. with_key (view_of i n c) k (some x) j) (same_replica w v),
        );
    delete_law = λ k c g. delete-view i n k c g;
  }

  -- Commit of a good CloneCache succeeds, and after it the cache below shows what the clone
  -- showed before, at every key. Condition: the store below keeps to its laws, Clone gives an
  -- equal item, and FromReplica makes an item equal to its replica.
  pub commit_clone-view :
      (c : DataCache (DataCache S V) V)
      → IsGoodCache (clone_internals copy from_replica i) IsInternals-clone c
      → (c' : DataCache (DataCache S V) V) × (commit_cache (clone_internals copy from_replica i) c
          ≡ some c')
        × IsGoodCache i n c'.store
        × ((k : List ℕ)
            → view_of i n c'.store k
              ≡ view_of (clone_internals copy from_replica i) IsInternals-clone c k)
  unfolding IsInternals-clone view_of
  commit_clone-view c g =
      commit_cache-view (clone_internals copy from_replica i) IsInternals-clone c g
