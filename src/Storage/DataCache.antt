-- ===== src/Storage/DataCache.antt =====
-- neo/Storage/Common/DataCache.py.
pub mod Views
pub mod Commit
pub mod Operations
pub mod Changes
use neo_python.Prelude.{
  Bool, List, Option, [], false, if◌then◌else◌, none, not, some, true, ℕ, ◌&&◌, ◌∷◌,
}
use neo_python.Prelude.Dict.{insert_key, lookup, remove_key}

-- TrackState
pub data TrackState : Type 0 where
  state_none state_added state_changed state_deleted : TrackState

-- Trackable. Its key is that of its entry in the dictionary.
pub record Trackable (V : Type 0) : Type 0 where
  pub item : V
  pub state : TrackState

-- What a subclass defines over a store of its own: a lookup may change the store, `none` from
-- `get_internal`, `add_internal` and `update_internal` is an exception.
pub record Internals (S V : Type 0) : Type 0 where
  pub try_get_internal : List ℕ → S → Option V × S
  pub get_internal : List ℕ → S → Option V × S
  pub add_internal : List ℕ → V → S → Option S
  pub update_internal : List ℕ → V → S → Option S
  pub delete_internal : List ℕ → S → S

-- DataCache, with the store that its subclass works on.
pub record DataCache (S V : Type 0) : Type 0 where
  pub dictionary : List (List ℕ × Trackable V)
  pub store : S

abbrev pub is_deleted : TrackState → Bool
is_deleted state_deleted = true
is_deleted _ = false

module _ {S V : Type 0} where
  -- DataCache.__init__
  abbrev pub new_cache : S → DataCache S V
  new_cache s = record { dictionary = []; store = s }

  -- `self.dictionary.update({key: Trackable(key, item, state)})`
  abbrev pub track : List ℕ → V → TrackState → DataCache S V → DataCache S V
  track key item state c = record c {
    dictionary = insert_key key (record { item = item; state = state }) c.dictionary;
  }

  module _ (i : Internals S V) where
    -- An item that was fetched is tracked; None is not.
    abbrev pub track_fetched : List ℕ → Option V × S → DataCache S V → Option V × DataCache S V
    track_fetched key (none, s) c = (none, record c { store = s })
    track_fetched key (some item, s) c =
        (some item, track key item state_none (record c { store = s }))

    -- The item of a tracked key, unless it is deleted.
    abbrev pub tracked_item : Trackable V → Option V
    tracked_item t = if is_deleted t.state then none else some t.item

    -- __getitem__: `none` is KeyError, or what GetInternal raises.
    unfoldable pub get_item : List ℕ → DataCache S V → Option V × DataCache S V
    get_item key c = elim (lookup key c.dictionary) [
      | none ↦ track_fetched key (i.get_internal key c.store) c
      | some t ↦ (tracked_item t, c)
    ]

    -- TryGet
    unfoldable pub try_get : List ℕ → DataCache S V → Option V × DataCache S V
    try_get key c = elim (lookup key c.dictionary) [
      | none ↦ track_fetched key (i.try_get_internal key c.store) c
      | some t ↦ (tracked_item t, c)
    ]

    -- Add: `none` is the exception for a key that exists.
    unfoldable pub add : List ℕ → V → DataCache S V → Option (DataCache S V)
    add key value c = elim (lookup key c.dictionary) [
      | none ↦ some (track key value state_added c)
      | some t ↦ if is_deleted t.state then some (track key value state_changed c) else none
    ]

    abbrev pub delete_fetched : List ℕ → Option V × S → DataCache S V → DataCache S V
    delete_fetched key (none, s) c = record c { store = s }
    delete_fetched key (some item, s) c = track key item state_deleted (record c { store = s })

    -- A key that was added is forgotten; another is kept as deleted.
    abbrev pub delete_tracked : List ℕ → Trackable V → DataCache S V → DataCache S V
    delete_tracked key t c = elim t.state [
      | state_added ↦ record c { dictionary = remove_key key c.dictionary }
      | _ ↦ track key t.item state_deleted c
    ]

    -- Delete
    unfoldable pub delete : List ℕ → DataCache S V → DataCache S V
    delete key c = elim (lookup key c.dictionary) [
      | none ↦ delete_fetched key (i.try_get_internal key c.store) c
      | some t ↦ delete_tracked key t c
    ]

    -- DeleteWhere
    abbrev pub delete_entries :
        (List ℕ → V → Bool) → List (List ℕ × Trackable V) → List (List ℕ × Trackable V)
    delete_entries f [] = []
    delete_entries f ((k, t) ∷ d) =
        let rest = delete_entries f d in
        if not (is_deleted t.state) && f k t.item
        then (k, record t { state = state_deleted }) ∷ rest
        else (k, t) ∷ rest

    unfoldable pub delete_where : (List ℕ → V → Bool) → DataCache S V → DataCache S V
    delete_where f c = record c { dictionary = delete_entries f c.dictionary }

    -- The item that a factory makes, tracked; `none` is KeyError without a factory.
    abbrev pub make : List ℕ → Option V → TrackState → DataCache S V → Option V × DataCache S V
    make key none state c = (none, c)
    make key (some item) state c = (some item, track key item state c)

    abbrev pub change_fetched :
        List ℕ → Option V → Option V × S → DataCache S V → Option V × DataCache S V
    change_fetched key factory (none, s) c = make key factory state_added (record c { store = s })
    change_fetched key factory (some item, s) c =
        (some item, track key item state_changed (record c { store = s }))

    abbrev pub change_tracked :
        List ℕ → Option V → Trackable V → DataCache S V → Option V × DataCache S V
    change_tracked key factory t c = elim t.state [
      | state_deleted ↦ make key factory state_changed c
      | state_none ↦ (some t.item, track key t.item state_changed c)
      | _ ↦ (some t.item, c)
    ]

    -- GetAndChange, with the item that its factory makes.
    unfoldable pub get_and_change : List ℕ → Option V → DataCache S V → Option V × DataCache S V
    get_and_change key factory c = elim (lookup key c.dictionary) [
      | none ↦ change_fetched key factory (i.try_get_internal key c.store) c
      | some t ↦ change_tracked key factory t c
    ]

    abbrev pub add_fetched : List ℕ → V → Option V × S → DataCache S V → V × DataCache S V
    add_fetched key item (none, s) c = (item, track key item state_added (record c { store = s }))
    add_fetched key item (some found, s) c =
        (found, track key found state_none (record c { store = s }))

    -- GetOrAdd
    unfoldable pub get_or_add : List ℕ → V → DataCache S V → V × DataCache S V
    get_or_add key item c = elim (lookup key c.dictionary) [
      | none ↦ add_fetched key item (i.try_get_internal key c.store) c
      | some t ↦ if is_deleted t.state then (item, track key item state_changed c) else (t.item, c)
    ]

    -- The caller changes the object that GetAndChange or GetOrAdd gave it: the tracked one.
    unfoldable pub write_item : List ℕ → V → DataCache S V → DataCache S V
    write_item key item c = elim (lookup key c.dictionary) [
      | none ↦ c
      | some t ↦ track key item t.state c
    ]

    -- Commit of one entry.
    abbrev pub commit_entry : List ℕ → Trackable V → S → Option S
    commit_entry key t s = elim t.state [
      | state_none ↦ some s
      | state_added ↦ i.add_internal key t.item s
      | state_changed ↦ i.update_internal key t.item s
      | state_deleted ↦ some (i.delete_internal key s)
    ]

    abbrev pub commit_entries : List (List ℕ × Trackable V) → S → Option S
    commit_entries [] s = some s
    commit_entries ((key, t) ∷ d) s = elim (commit_entry key t s) [
      | none ↦ none
      | some s' ↦ commit_entries d s'
    ]

    -- Commit. It leaves the dictionary as it is.
    unfoldable pub commit_cache : DataCache S V → Option (DataCache S V)
    commit_cache c = elim (commit_entries c.dictionary c.store) [
      | none ↦ none
      | some s ↦ some (record c { store = s })
    ]

-- GetChangeSet
unfoldable pub get_change_set :
    {V : Type 0} → List (List ℕ × Trackable V) → List (List ℕ × Trackable V)
get_change_set [] = []
get_change_set ((key, t) ∷ d) =
    let rest = get_change_set d in elim t.state [ state_none ↦ rest | _ ↦ (key, t) ∷ rest ]
