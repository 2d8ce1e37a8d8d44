-- ===== src/Storage/Tests.antt =====
-- The theorems on caches at concrete inputs: over a dict, and over a cache over a dict.
use neo_python.Prelude.{List, [], arith, none, refl, some, ℕ, ◌∷◌, ◌≡◌}
use neo_python.Prelude.Dict.{
  HasUniqueKeys, insert_key, insert_key-HasUniqueKeys, lookup, lookup-insert_key, lookup-remove_key,
  remove_key, remove_key-HasUniqueKeys,
}
use neo_python.Storage.CloneCache.{
  IsInternals-clone, clone_internals, commit_clone-view, create_snapshot,
}
use neo_python.Storage.DataCache.{
  DataCache, Internals, add, commit_cache, delete, get_and_change, get_or_add, new_cache,
  state_added, state_changed, track, try_get, write_item,
}
use neo_python.Storage.DataCache.Changes.{get_and_change-view, get_or_add-absent, get_or_add-shown}
use neo_python.Storage.DataCache.Commit.{commit_cache-view}
use neo_python.Storage.DataCache.Operations.{ShowsView, add-view, delete-view, try_get-view}
use neo_python.Storage.DataCache.Views.{
  IsGoodCache, IsInternals, track-IsGoodCache, view_of, with_key,
}

abbrev Db : Type 0
Db = List (List ℕ × ℕ)

-- A dict as the store of a cache.
abbrev db_internals : Internals Db ℕ
db_internals = record {
  try_get_internal = λ k s. (lookup k s, s);
  get_internal = λ k s. (lookup k s, s);
  add_internal = λ k v s. some (insert_key k v s);
  update_internal = λ k v s. some (insert_key k v s);
  delete_internal = λ k s. remove_key k s;
}

abbrev db_internals-IsInternals : IsInternals db_internals
db_internals-IsInternals = record {
  view = λ s k. lookup k s;
  IsGood = HasUniqueKeys;
  try_get_law = λ k s u. (refl, u, λ j. refl);
  add_law = λ k v s u absent.
      (insert_key k v s, refl, insert_key-HasUniqueKeys k v s u, λ j. lookup-insert_key j k v s);
  update_law = λ k v w s u shown.
      (insert_key k v s, refl, insert_key-HasUniqueKeys k v s u, λ j. lookup-insert_key j k v s);
  delete_law = λ k s u. (remove_key-HasUniqueKeys k s u, λ j. lookup-remove_key j k s u);
}

abbrev one_item : Db
one_item = (1 ∷ [], 10) ∷ []

abbrev base : DataCache Db ℕ
base = new_cache one_item

base-IsGoodCache : IsGoodCache db_internals db_internals-IsInternals base
unfolding lookup HasUniqueKeys
base-IsGoodCache = record {
  store_good = (refl, tt);
  unique = tt;
  related = λ k t p. absurd (ground (arith, p));
}

base-one : view_of db_internals db_internals-IsInternals base (1 ∷ []) ≡ some 10
unfolding view_of lookup
base-one = refl

base-two : view_of db_internals db_internals-IsInternals base (2 ∷ []) ≡ none
unfolding view_of lookup
base-two = refl

try_get-view_example :
    ((try_get db_internals (1 ∷ []) base).0
      ≡ view_of db_internals db_internals-IsInternals base (1 ∷ []))
    × ShowsView db_internals db_internals-IsInternals
        (try_get db_internals (1 ∷ []) base).1
        (view_of db_internals db_internals-IsInternals base)
try_get-view_example =
    try_get-view db_internals db_internals-IsInternals (1 ∷ []) base base-IsGoodCache

add-view_example :
    (c' : DataCache Db ℕ) × (add db_internals (2 ∷ []) 20 base ≡ some c')
    × ShowsView db_internals db_internals-IsInternals c'
        (with_key (view_of db_internals db_internals-IsInternals base) (2 ∷ []) (some 20))
add-view_example =
    add-view db_internals db_internals-IsInternals (2 ∷ []) 20 base base-IsGoodCache base-two

delete-view_example :
    ShowsView db_internals db_internals-IsInternals
      (delete db_internals (1 ∷ []) base)
      (with_key (view_of db_internals db_internals-IsInternals base) (1 ∷ []) none)
delete-view_example =
    delete-view db_internals db_internals-IsInternals (1 ∷ []) base base-IsGoodCache

get_and_change-view_example :
    ((get_and_change db_internals (1 ∷ []) none base).0 ≡ some 10)
    × ShowsView db_internals db_internals-IsInternals
        (write_item db_internals (1 ∷ []) 11 (get_and_change db_internals (1 ∷ []) none base).1)
        (with_key (view_of db_internals db_internals-IsInternals base) (1 ∷ []) (some 11))
get_and_change-view_example =
    get_and_change-view db_internals db_internals-IsInternals (1 ∷ []) 11 10 none base
      base-IsGoodCache base-one

get_or_add-absent_example :
    ((get_or_add db_internals (2 ∷ []) 20 base).0 ≡ 20)
    × ShowsView db_internals db_internals-IsInternals
        (get_or_add db_internals (2 ∷ []) 20 base).1
        (with_key (view_of db_internals db_internals-IsInternals base) (2 ∷ []) (some 20))
get_or_add-absent_example =
    get_or_add-absent db_internals db_internals-IsInternals (2 ∷ []) 20 base base-IsGoodCache
      base-two

get_or_add-shown_example :
    ((get_or_add db_internals (1 ∷ []) 20 base).0 ≡ 10)
    × ShowsView db_internals db_internals-IsInternals
        (get_or_add db_internals (1 ∷ []) 20 base).1
        (view_of db_internals db_internals-IsInternals base)
get_or_add-shown_example =
    get_or_add-shown db_internals db_internals-IsInternals (1 ∷ []) 20 10 base base-IsGoodCache
      base-one

-- A key that is changed and one that is new.
abbrev busy : DataCache Db ℕ
busy = track (2 ∷ []) 20 state_added (track (1 ∷ []) 12 state_changed base)

one_item_lem : lookup (1 ∷ []) one_item ≡ some 10
unfolding lookup
one_item_lem = refl

one_item-absent : lookup (2 ∷ []) one_item ≡ none
unfolding lookup
one_item-absent = refl

busy-IsGoodCache : IsGoodCache db_internals db_internals-IsInternals busy
busy-IsGoodCache =
    track-IsGoodCache db_internals db_internals-IsInternals (2 ∷ []) 20 state_added
      (track (1 ∷ []) 12 state_changed base)
      (track-IsGoodCache db_internals db_internals-IsInternals (1 ∷ []) 12 state_changed base
        base-IsGoodCache (10, one_item_lem))
      one_item-absent

commit_cache-view_example :
    (c' : DataCache Db ℕ) × (commit_cache db_internals busy ≡ some c')
    × HasUniqueKeys c'.store
    × ((k : List ℕ) → lookup k c'.store ≡ view_of db_internals db_internals-IsInternals busy k)
commit_cache-view_example =
    commit_cache-view db_internals db_internals-IsInternals busy busy-IsGoodCache

abbrev clone_db : Internals (DataCache Db ℕ) ℕ
clone_db = clone_internals (λ v. v) (λ old v. v) db_internals

abbrev clone_db-IsInternals : IsInternals clone_db
clone_db-IsInternals =
    IsInternals-clone db_internals db_internals-IsInternals (λ v. v) (λ old v. v) (λ v. refl)
      (λ old v. refl)

-- A clone of the cache with a key that is new.
abbrev clone : DataCache (DataCache Db ℕ) ℕ
clone = track (2 ∷ []) 20 state_added (create_snapshot base)

clone-IsGoodCache : IsGoodCache clone_db clone_db-IsInternals clone
unfolding IsInternals-clone lookup HasUniqueKeys
clone-IsGoodCache =
    track-IsGoodCache clone_db clone_db-IsInternals (2 ∷ []) 20 state_added (create_snapshot base)
      (record {
        store_good = base-IsGoodCache;
        unique = tt;
        related = λ k t p. absurd (ground (arith, p));
      })
      base-two

commit_clone-view_example :
    (c' : DataCache (DataCache Db ℕ) ℕ) × (commit_cache clone_db clone ≡ some c')
    × IsGoodCache db_internals db_internals-IsInternals c'.store
    × ((k : List ℕ)
        → view_of db_internals db_internals-IsInternals c'.store k
          ≡ view_of clone_db clone_db-IsInternals clone k)
commit_clone-view_example =
    commit_clone-view db_internals db_internals-IsInternals (λ v. v) (λ old v. v) (λ v. refl)
      (λ old v. refl) clone clone-IsGoodCache
