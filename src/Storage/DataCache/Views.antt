-- ===== src/Storage/DataCache/Views.antt =====
-- neo/Storage/Common/DataCache.py: what a cache shows of its keys, and the laws of its store.
use neo_python.Prelude.{
  Bool, List, Option, ap, arith, bytes_eq, false, if◌then◌else◌, none, refl, some, subst, sym, true,
  ℕ, ◌∙◌, ◌≡◌,
}
use neo_python.Prelude.Dict.{
  HasUniqueKeys, bytes_eq_same, insert_key-HasUniqueKeys, lookup, lookup-insert_key,
  lookup-remove_key, remove_key, remove_key-HasUniqueKeys,
}
use neo_python.Storage.DataCache.{
  DataCache, Internals, TrackState, Trackable, state_added, state_changed, state_deleted,
  state_none, track, tracked_item,
}

-- The dictionary with one key set, or removed, as its reader sees it.
abbrev pub with_key : {V : Type 0} → (List ℕ → Option V) → List ℕ → Option V → List ℕ → Option V
with_key view key o k = if bytes_eq key k then o else view k

-- What a subclass keeps to: its store shows a view of its keys, which lookups leave as it is, and which
-- the other methods change at their key. An addition is made of a key that is not there, an update
-- of one that is.
pub record IsInternals {S V : Type 0} (i : Internals S V) : Type 1 where
  pub view : S → List ℕ → Option V
  pub IsGood : S → Type 0
  pub try_get_law :
      (k : List ℕ) (s : S)
      → IsGood s
      → ((i.try_get_internal k s).0 ≡ view s k)
        × IsGood (i.try_get_internal k s).1
        × ((j : List ℕ) → view (i.try_get_internal k s).1 j ≡ view s j)
  pub add_law :
      (k : List ℕ) (v : V) (s : S)
      → IsGood s
      → view s k ≡ none
      → (s' : S) × (i.add_internal k v s ≡ some s')
        × IsGood s'
        × ((j : List ℕ) → view s' j ≡ with_key (view s) k (some v) j)
  pub update_law :
      (k : List ℕ) (v w : V) (s : S)
      → IsGood s
      → view s k ≡ some w
      → (s' : S) × (i.update_internal k v s ≡ some s')
        × IsGood s'
        × ((j : List ℕ) → view s' j ≡ with_key (view s) k (some v) j)
  pub delete_law :
      (k : List ℕ) (s : S)
      → IsGood s
      → IsGood (i.delete_internal k s)
        × ((j : List ℕ) → view (i.delete_internal k s) j ≡ with_key (view s) k none j)

module _ {S V : Type 0} (i : Internals S V) (n : IsInternals i) where
  -- What a reader of the cache sees at a key.
  abbrev pub view_entry : Option (Trackable V) → Option V → Option V
  view_entry none o = o
  view_entry (some t) o = tracked_item i t

  unfoldable pub view_of : DataCache S V → List ℕ → Option V
  view_of c k = view_entry (lookup k c.dictionary) (n.view c.store k)

  -- How the state of an entry relates to the store.
  abbrev pub Relates : TrackState → V → Option V → Type 0
  Relates state_none v o = o ≡ some v
  Relates state_added v o = o ≡ none
  Relates state_changed v o = (w : V) × (o ≡ some w)
  Relates state_deleted v o = (w : V) × (o ≡ some w)

  pub record IsGoodCache (c : DataCache S V) : Type 0 where
    pub store_good : n.IsGood c.store
    pub unique : HasUniqueKeys c.dictionary
    pub related :
        (k : List ℕ) (t : Trackable V)
        → lookup k c.dictionary ≡ some t
        → Relates t.state t.item (n.view c.store k)

  -- What a reader sees of an entry, in a state that relates to a store.
  pub tracked-view :
      (c : DataCache S V) (k : List ℕ) (t : Trackable V)
      → lookup k c.dictionary ≡ some t
      → view_of c k ≡ tracked_item i t
  unfolding view_of
  tracked-view c k t p = ap (λ o. view_entry o (n.view c.store k)) p

  pub untracked-view :
      (c : DataCache S V) (k : List ℕ)
      → lookup k c.dictionary ≡ none
      → view_of c k ≡ n.view c.store k
  unfolding view_of
  untracked-view c k p = ap (λ o. view_entry o (n.view c.store k)) p

  pub track-IsGoodCache :
      (k : List ℕ) (v : V) (st : TrackState) (c : DataCache S V)
      → IsGoodCache c
      → Relates st v (n.view c.store k)
      → IsGoodCache (track k v st c)
  track-IsGoodCache k v st c g r = record {
    store_good = g.store_good;
    unique = insert_key-HasUniqueKeys k _ c.dictionary g.unique;
    related = λ j t p. go j t (bytes_eq k j) refl (sym (lookup-insert_key j k _ c.dictionary) ∙ p);
  }
    where
      go :
          (j : List ℕ) (t : Trackable V) (b : Bool)
          → bytes_eq k j ≡ b
          → (if b then some (record { item = v; state = st }) else lookup j c.dictionary) ≡ some t
          → Relates t.state t.item (n.view c.store j)
      go j t true same q =
          let e : record { item = v; state = st } ≡ t = ground (arith, q) in
          subst (λ (u : Trackable V). Relates u.state u.item (n.view c.store j)) e
            (subst (λ x. Relates st v (n.view c.store x)) (bytes_eq_same k j same) r)
      go j t false other q = g.related j t q

  pub track-view :
      (k : List ℕ) (v : V) (st : TrackState) (c : DataCache S V) (j : List ℕ)
      → view_of (track k v st c) j
        ≡ with_key (view_of c) k (tracked_item i (record { item = v; state = st })) j
  unfolding view_of
  track-view k v st c j =
      ap (λ o. view_entry o (n.view c.store j))
        (lookup-insert_key j k (record { item = v; state = st }) c.dictionary)
      ∙ go (bytes_eq k j)
    where
      go :
          (b : Bool)
          → view_entry
              (if b then some (record { item = v; state = st }) else lookup j c.dictionary)
              (n.view c.store j)
            ≡ (if b
                then tracked_item i (record { item = v; state = st })
                else view_entry (lookup j c.dictionary) (n.view c.store j))
      go true = refl
      go false = refl

  -- A store that shows the same.
  pub store-IsGoodCache :
      (s : S) (c : DataCache S V)
      → IsGoodCache c
      → n.IsGood s
      → ((j : List ℕ) → n.view s j ≡ n.view c.store j)
      → IsGoodCache (record c { store = s })
  store-IsGoodCache s c g gs same = record {
    store_good = gs;
    unique = g.unique;
    related = λ k t p. rw (same k) (g.related k t p);
  }

  pub store-view :
      (s : S) (c : DataCache S V)
      → ((j : List ℕ) → n.view s j ≡ n.view c.store j)
      → (j : List ℕ) → view_of (record c { store = s }) j ≡ view_of c j
  unfolding view_of
  store-view s c same j = ap (λ o. view_entry (lookup j c.dictionary) o) (same j)

  -- A key that was added and is forgotten again.
  pub forget-IsGoodCache :
      (k : List ℕ) (c : DataCache S V)
      → IsGoodCache c
      → IsGoodCache (record c { dictionary = remove_key k c.dictionary })
  forget-IsGoodCache k c g = record {
    store_good = g.store_good;
    unique = remove_key-HasUniqueKeys k c.dictionary g.unique;
    related =
        λ j t p. go j t (bytes_eq k j) (sym (lookup-remove_key j k c.dictionary g.unique) ∙ p);
  }
    where
      go :
          (j : List ℕ) (t : Trackable V) (b : Bool)
          → (if b then none else lookup j c.dictionary) ≡ some t
          → Relates t.state t.item (n.view c.store j)
      go j t true q = absurd (ground (arith, q))
      go j t false q = g.related j t q

  pub forget-view :
      (k : List ℕ) (c : DataCache S V) (j : List ℕ)
      → IsGoodCache c
      → n.view c.store k ≡ none
      → view_of (record c { dictionary = remove_key k c.dictionary }) j
        ≡ with_key (view_of c) k none j
  unfolding view_of
  forget-view k c j g p =
      ap (λ o. view_entry o (n.view c.store j)) (lookup-remove_key j k c.dictionary g.unique)
      ∙ go (bytes_eq k j) refl
    where
      go :
          (b : Bool)
          → bytes_eq k j ≡ b
          → view_entry (if b then none else lookup j c.dictionary) (n.view c.store j)
            ≡ (if b then none else view_entry (lookup j c.dictionary) (n.view c.store j))
      go true h = ap (λ x. n.view c.store x) (sym (bytes_eq_same k j h)) ∙ p
      go false h = refl
