-- ===== src/Storage/DataCache/Operations.antt =====
-- neo/Storage/Common/DataCache.py: each operation of a cache, by the view that it leaves.
use neo_python.Prelude.{
  Bool, Bool-cases, List, Option, ap, arith, bytes_eq, false, if◌then◌else◌, inl, inr, none, refl,
  some, subst, sym, true, ℕ, ◌∙◌, ◌≡◌, ◌⊎◌,
}
use neo_python.Prelude.Dict.{bytes_eq_same, lookup}
use neo_python.Storage.DataCache.{
  DataCache, Internals, TrackState, Trackable, add, delete, delete_fetched, delete_tracked,
  is_deleted, state_added, state_changed, state_deleted, state_none, track, track_fetched,
  tracked_item, try_get, write_item,
}
use neo_python.Storage.DataCache.Views.{
  IsGoodCache, IsInternals, Relates, forget-IsGoodCache, forget-view, store-IsGoodCache, store-view,
  track-IsGoodCache, track-view, tracked-view, untracked-view, view_of, with_key,
}

module _ {S V : Type 0} (i : Internals S V) (n : IsInternals i) where
  -- A good cache that shows a view.
  abbrev pub ShowsView : DataCache S V → (List ℕ → Option V) → Type 0
  ShowsView c f = IsGoodCache i n c × ((j : List ℕ) → view_of i n c j ≡ f j)

  -- A tracked item with the view of its key unchanged.
  pub kept_key :
      (c : DataCache S V) (k j : List ℕ) (o : Option V)
      → view_of i n c k ≡ o
      → with_key (view_of i n c) k o j ≡ view_of i n c j
  kept_key c k j o p = elim (Bool-cases (bytes_eq k j)) [
    | inl same ↦ rw same (sym p ∙ ap (λ x. view_of i n c x) (bytes_eq_same k j same))
    | inr other ↦ rw other refl
  ]

  -- What fetching an item into the dictionary gives.
  pub fetched :
      (k : List ℕ) (v : V) (st : TrackState) (s : S) (c : DataCache S V)
      → IsGoodCache i n c
      → n.IsGood s
      → ((j : List ℕ) → n.view s j ≡ n.view c.store j)
      → Relates i n st v (n.view c.store k)
      → ShowsView
          (track k v st (record c { store = s }))
          (with_key (view_of i n c) k (tracked_item i (record { item = v; state = st })))
  fetched k v st s c g gs same r = (
    track-IsGoodCache i n k v st _ (store-IsGoodCache i n s c g gs same) (rw (same k) r),
    λ j. track-view i n k v st (record c { store = s }) j ∙ go j (bytes_eq k j),
  )
    where
      go :
          (j : List ℕ) (b : Bool)
          → (if b
              then tracked_item i (record { item = v; state = st })
              else view_of i n (record c { store = s }) j)
            ≡ (if b then tracked_item i (record { item = v; state = st }) else view_of i n c j)
      go j true = refl
      go j false = store-view i n s c same j

  pub stored :
      (s : S) (c : DataCache S V)
      → IsGoodCache i n c
      → n.IsGood s
      → ((j : List ℕ) → n.view s j ≡ n.view c.store j)
      → ShowsView (record c { store = s }) (view_of i n c)
  stored s c g gs same = (store-IsGoodCache i n s c g gs same, store-view i n s c same)

  -- TryGet gives what the cache shows, and leaves what it shows as it is.
  pub try_get-view :
      (k : List ℕ) (c : DataCache S V)
      → IsGoodCache i n c
      → ((try_get i k c).0 ≡ view_of i n c k) × ShowsView (try_get i k c).1 (view_of i n c)
  unfolding try_get
  try_get-view k c g = go (lookup k c.dictionary) refl
    where
      fetch :
          (x : Option V × S)
          → lookup k c.dictionary ≡ none
          → x.0 ≡ n.view c.store k
          → n.IsGood x.1
          → ((j : List ℕ) → n.view x.1 j ≡ n.view c.store j)
          → ((track_fetched i k x c).0 ≡ view_of i n c k)
            × ShowsView (track_fetched i k x c).1 (view_of i n c)
      fetch (none, s) p q gs same = (q ∙ sym (untracked-view i n c k p), stored s c g gs same)
      fetch (some v, s) p q gs same =
          let here = q ∙ sym (untracked-view i n c k p) in
          let (gc, f) = fetched k v state_none s c g gs same (sym q) in
          (here, (gc, λ j. f j ∙ kept_key c k j (some v) (sym here)))

      answer : Option (Trackable V) → Option V × DataCache S V
      answer o = elim o [
        | none ↦ track_fetched i k (i.try_get_internal k c.store) c
        | some t ↦ (tracked_item i t, c)
      ]

      go :
          (o : Option (Trackable V))
          → lookup k c.dictionary ≡ o
          → ((answer o).0 ≡ view_of i n c k) × ShowsView (answer o).1 (view_of i n c)
      go none p = let (q, gs, same) = n.try_get_law k c.store g.store_good in fetch _ p q gs same
      go (some t) p = (sym (tracked-view i n c k t p), (g, λ j. refl))

  -- Add of a key that a good cache does not show succeeds and adds it; the other keys are as
  -- before. Condition: the store keeps to its laws.
  pub add-view :
      (k : List ℕ) (v : V) (c : DataCache S V)
      → IsGoodCache i n c
      → view_of i n c k ≡ none
      → (c' : DataCache S V) × (add i k v c ≡ some c')
        × ShowsView c' (with_key (view_of i n c) k (some v))
  unfolding add
  add-view k v c g absent = go (lookup k c.dictionary) refl
    where
      answer : Option (Trackable V) → Option (DataCache S V)
      answer o = elim o [
        | none ↦ some (track k v state_added c)
        | some t ↦ if is_deleted t.state then some (track k v state_changed c) else none
      ]

      tracked :
          (t : Trackable V) (st : TrackState)
          → t.state ≡ st
          → lookup k c.dictionary ≡ some t
          → Relates i n st t.item (n.view c.store k)
          → (if is_deleted st then none else some t.item) ≡ none
          → (c' : DataCache S V) × ((if is_deleted st
                then some (track k v state_changed c)
                else none)
              ≡ some c')
            × ShowsView c' (with_key (view_of i n c) k (some v))
      tracked t state_deleted e p r q = (
        _,
        refl,
        (track-IsGoodCache i n k v state_changed c g r, track-view i n k v state_changed c),
      )
      tracked t state_none e p r q = absurd (ground (arith, q))
      tracked t state_added e p r q = absurd (ground (arith, q))
      tracked t state_changed e p r q = absurd (ground (arith, q))

      go :
          (o : Option (Trackable V))
          → lookup k c.dictionary ≡ o
          → (c' : DataCache S V) × (answer o ≡ some c')
            × ShowsView c' (with_key (view_of i n c) k (some v))
      go none p =
          let gone = sym (untracked-view i n c k p) ∙ absent in
          (
            _,
            refl,
            (track-IsGoodCache i n k v state_added c g gone, track-view i n k v state_added c),
          )
      go (some t) p =
          tracked t t.state refl p (g.related k t p) (sym (tracked-view i n c k t p) ∙ absent)

  -- Delete takes a key out of what a good cache shows, whether it was fetched, changed, added,
  -- deleted or not tracked; the other keys are as before. Condition: the store keeps to its
  -- laws.
  pub delete-view :
      (k : List ℕ) (c : DataCache S V)
      → IsGoodCache i n c
      → ShowsView (delete i k c) (with_key (view_of i n c) k none)
  unfolding delete
  delete-view k c g = go (lookup k c.dictionary) refl
    where
      fetch :
          (x : Option V × S)
          → lookup k c.dictionary ≡ none
          → x.0 ≡ n.view c.store k
          → n.IsGood x.1
          → ((j : List ℕ) → n.view x.1 j ≡ n.view c.store j)
          → ShowsView (delete_fetched i k x c) (with_key (view_of i n c) k none)
      fetch (none, s) p q gs same =
          let (gc, f) = stored s c g gs same in
          (gc, λ j. f j ∙ sym (kept_key c k j none (untracked-view i n c k p ∙ sym q)))
      fetch (some v, s) p q gs same = fetched k v state_deleted s c g gs same (v, sym q)

      tracked :
          (t : Trackable V) (st : TrackState)
          → Relates i n st t.item (n.view c.store k)
          → ShowsView
              (delete_tracked i k (record { item = t.item; state = st }) c)
              (with_key (view_of i n c) k none)
      tracked t state_added r = (forget-IsGoodCache i n k c g, λ j. forget-view i n k c j g r)
      tracked t state_none r = (
        track-IsGoodCache i n k t.item state_deleted c g (t.item, r),
        track-view i n k t.item state_deleted c,
      )
      tracked t state_changed r = (
        track-IsGoodCache i n k t.item state_deleted c g r,
        track-view i n k t.item state_deleted c,
      )
      tracked t state_deleted r = (
        track-IsGoodCache i n k t.item state_deleted c g r,
        track-view i n k t.item state_deleted c,
      )

      go :
          (o : Option (Trackable V))
          → lookup k c.dictionary ≡ o
          → ShowsView
              (elim o [
                | none ↦ delete_fetched i k (i.try_get_internal k c.store) c
                | some t ↦ delete_tracked i k t c
              ])
              (with_key (view_of i n c) k none)
      go none p = let (q, gs, same) = n.try_get_law k c.store g.store_good in fetch _ p q gs same
      go (some t) p = tracked t t.state (g.related k t p)

  -- A tracked item that will be written by Commit.
  unfoldable pub IsWritten : TrackState → Type 0
  IsWritten st = (st ≡ state_added) ⊎ (st ≡ state_changed)

  write_item-track :
      (k : List ℕ) (v : V) (t : Trackable V) (c : DataCache S V)
      → lookup k c.dictionary ≡ some t
      → write_item i k v c ≡ track k v t.state c
  unfolding write_item
  write_item-track k v t c p = ap (λ o. elim o [ none ↦ c | some u ↦ track k v u.state c ]) p

  pub write-view :
      (k : List ℕ) (v w : V) (st : TrackState) (c : DataCache S V)
      → IsGoodCache i n c
      → IsWritten st
      → lookup k c.dictionary ≡ some (record { item = w; state = st })
      → ShowsView (write_item i k v c) (with_key (view_of i n c) k (some v))
  unfolding IsWritten
  write-view k v w st c g (inl e) p =
      let q = subst (λ s. lookup k c.dictionary ≡ some (record { item = w; state = s })) e p in
      rw (write_item-track k v _ c q) (
        track-IsGoodCache i n k v state_added c g (g.related k _ q),
        track-view i n k v state_added c,
      )
  write-view k v w st c g (inr e) p =
      let q = subst (λ s. lookup k c.dictionary ≡ some (record { item = w; state = s })) e p in
      rw (write_item-track k v _ c q) (
        track-IsGoodCache i n k v state_changed c g (g.related k _ q),
        track-view i n k v state_changed c,
      )
