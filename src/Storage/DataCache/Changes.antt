-- ===== src/Storage/DataCache/Changes.antt =====
-- neo/Storage/Common/DataCache.py: GetAndChange and GetOrAdd.
use neo_python.Prelude.{
  Bool, List, Option, ap, arith, bytes_eq, false, if◌then◌else◌, inl, inr, none, refl, some, sym,
  true, ℕ, ◌∙◌, ◌≡◌,
}
use neo_python.Prelude.Dict.{bytes_eq_refl, lookup, lookup-insert_key}
use neo_python.Storage.DataCache.{
  DataCache, Internals, TrackState, Trackable, add_fetched, change_fetched, change_tracked,
  get_and_change, get_or_add, is_deleted, state_added, state_changed, state_deleted, state_none,
  track, tracked_item, write_item,
}
use neo_python.Storage.DataCache.Operations.{IsWritten, ShowsView, fetched, kept_key, write-view}
use neo_python.Storage.DataCache.Views.{
  IsGoodCache, IsInternals, Relates, track-IsGoodCache, track-view, tracked-view, untracked-view,
  view_of, with_key,
}

module _ {S V : Type 0} (i : Internals S V) (n : IsInternals i) where
  -- A cache that shows the same, in which an item is tracked and will be written.
  Changing : List ℕ → DataCache S V → DataCache S V → Type 0
  Changing k c c1 =
      (w : V) × (st : TrackState) × IsWritten i n st
      × (lookup k c1.dictionary ≡ some (record { item = w; state = st }))
      × ShowsView i n c1 (view_of i n c)

  Changing-write :
      (k : List ℕ) (v : V) (c c1 : DataCache S V)
      → Changing k c c1
      → ShowsView i n (write_item i k v c1) (with_key (view_of i n c) k (some v))
  unfolding Changing
  Changing-write k v c c1 (w, st, h, p, (g, f)) =
      let (g2, f2) = write-view i n k v w st c1 g h p in (g2, λ j. f2 j ∙ go j (bytes_eq k j) (f j))
    where
      go :
          (j : List ℕ) (b : Bool)
          → view_of i n c1 j ≡ view_of i n c j
          → (if b then some v else view_of i n c1 j) ≡ (if b then some v else view_of i n c j)
      go j true q = refl
      go j false q = q

  tracked_now :
      (k : List ℕ) (v : V) (st : TrackState) (c : DataCache S V)
      → lookup k (track k v st c).dictionary ≡ some (record { item = v; state = st })
  tracked_now k v st c =
      lookup-insert_key k k (record { item = v; state = st }) c.dictionary
      ∙ ap (λ b. if b then some (record { item = v; state = st }) else lookup k c.dictionary)
          (bytes_eq_refl k)

  -- GetAndChange of a key that a good cache shows gives its item, and what the caller then
  -- makes of that item is what the cache shows at the key; the other keys are as before.
  -- Condition: the store keeps to its laws.
  pub get_and_change-view :
      (k : List ℕ) (v w : V) (factory : Option V) (c : DataCache S V)
      → IsGoodCache i n c
      → view_of i n c k ≡ some w
      → ((get_and_change i k factory c).0 ≡ some w)
        × ShowsView i n
            (write_item i k v (get_and_change i k factory c).1)
            (with_key (view_of i n c) k (some v))
  unfolding get_and_change Changing IsWritten
  get_and_change-view k v w factory c g shown =
      let (p, q) = go (lookup k c.dictionary) refl in
      (p, Changing-write k v c (get_and_change i k factory c).1 q)
    where
      Good : Option V × DataCache S V → Type 0
      Good x = (x.0 ≡ some w) × Changing k c x.1

      fetch :
          (x : Option V × S)
          → x.0 ≡ some w
          → lookup k c.dictionary ≡ none
          → n.IsGood x.1
          → ((j : List ℕ) → n.view x.1 j ≡ n.view c.store j)
          → Good (change_fetched i k factory x c)
      fetch (none, s) e p gs same = absurd (ground (arith, e))
      fetch (some u, s) e p gs same =
          let here : n.view c.store k ≡ some u = sym (untracked-view i n c k p) ∙ shown ∙ sym e in
          let (gc, f) = fetched i n k u state_changed s c g gs same (u, here) in
          (
            e,
            (
              u,
              state_changed,
              inr refl,
              tracked_now k u state_changed (record c { store = s }),
              (gc, λ j. f j ∙ kept_key i n c k j (some u) (untracked-view i n c k p ∙ here)),
            ),
          )

      answer : Option (Trackable V) → Option V × DataCache S V
      answer o = elim o [
        | none ↦ change_fetched i k factory (i.try_get_internal k c.store) c
        | some t ↦ change_tracked i k factory t c
      ]

      tracked :
          (u : V) (st : TrackState)
          → lookup k c.dictionary ≡ some (record { item = u; state = st })
          → Relates i n st u (n.view c.store k)
          → tracked_item i (record { item = u; state = st }) ≡ some w
          → Good (change_tracked i k factory (record { item = u; state = st }) c)
      tracked u state_deleted p r q = absurd (ground (arith, q))
      tracked u state_none p r q =
          let here = tracked-view i n c k _ p in
          (
            q,
            (
              u,
              state_changed,
              inr refl,
              tracked_now k u state_changed c,
              (
                track-IsGoodCache i n k u state_changed c g (u, r),
                λ j. track-view i n k u state_changed c j ∙ kept_key i n c k j (some u) here,
              ),
            ),
          )
      tracked u state_added p r q = (q, (u, state_added, inl refl, p, (g, λ j. refl)))
      tracked u state_changed p r q = (q, (u, state_changed, inr refl, p, (g, λ j. refl)))

      go : (o : Option (Trackable V)) → lookup k c.dictionary ≡ o → Good (answer o)
      go none p =
          let (q, gs, same) = n.try_get_law k c.store g.store_good in
          fetch _ (q ∙ sym (untracked-view i n c k p) ∙ shown) p gs same
      go (some t) p =
          tracked t.item t.state p (g.related k t p) (sym (tracked-view i n c k t p) ∙ shown)

  -- GetOrAdd of a key that the cache shows gives its item and changes nothing that it shows.
  pub get_or_add-shown :
      (k : List ℕ) (v w : V) (c : DataCache S V)
      → IsGoodCache i n c
      → view_of i n c k ≡ some w
      → ((get_or_add i k v c).0 ≡ w) × ShowsView i n (get_or_add i k v c).1 (view_of i n c)
  unfolding get_or_add
  get_or_add-shown k v w c g shown = go (lookup k c.dictionary) refl
    where
      Good : V × DataCache S V → Type 0
      Good x = (x.0 ≡ w) × ShowsView i n x.1 (view_of i n c)

      fetch :
          (x : Option V × S)
          → x.0 ≡ some w
          → lookup k c.dictionary ≡ none
          → n.IsGood x.1
          → ((j : List ℕ) → n.view x.1 j ≡ n.view c.store j)
          → Good (add_fetched i k v x c)
      fetch (none, s) e p gs same = absurd (ground (arith, e))
      fetch (some u, s) e p gs same =
          let here : n.view c.store k ≡ some u = sym (untracked-view i n c k p) ∙ shown ∙ sym e in
          let (gc, f) = fetched i n k u state_none s c g gs same here in
          (
            ground (arith, e),
            (gc, λ j. f j ∙ kept_key i n c k j (some u) (untracked-view i n c k p ∙ here)),
          )

      answer : Option (Trackable V) → V × DataCache S V
      answer o = elim o [
        | none ↦ add_fetched i k v (i.try_get_internal k c.store) c
        | some t ↦ if is_deleted t.state then (v, track k v state_changed c) else (t.item, c)
      ]

      tracked :
          (u : V) (b : Bool)
          → (if b then none else some u) ≡ some w
          → Good (if b then (v, track k v state_changed c) else (u, c))
      tracked u true q = absurd (ground (arith, q))
      tracked u false q = (ground (arith, q), (g, λ j. refl))

      go : (o : Option (Trackable V)) → lookup k c.dictionary ≡ o → Good (answer o)
      go none p =
          let (q, gs, same) = n.try_get_law k c.store g.store_good in
          fetch _ (q ∙ sym (untracked-view i n c k p) ∙ shown) p gs same
      go (some t) p = tracked t.item (is_deleted t.state) (sym (tracked-view i n c k t p) ∙ shown)

  -- GetOrAdd of a key that a good cache does not show gives what the factory makes and adds it;
  -- the other keys are as before. Condition: the store keeps to its laws.
  pub get_or_add-absent :
      (k : List ℕ) (v : V) (c : DataCache S V)
      → IsGoodCache i n c
      → view_of i n c k ≡ none
      → ((get_or_add i k v c).0 ≡ v)
        × ShowsView i n (get_or_add i k v c).1 (with_key (view_of i n c) k (some v))
  unfolding get_or_add
  get_or_add-absent k v c g absent = go (lookup k c.dictionary) refl
    where
      Good : V × DataCache S V → Type 0
      Good x = (x.0 ≡ v) × ShowsView i n x.1 (with_key (view_of i n c) k (some v))

      fetch :
          (x : Option V × S)
          → x.0 ≡ none
          → lookup k c.dictionary ≡ none
          → n.IsGood x.1
          → ((j : List ℕ) → n.view x.1 j ≡ n.view c.store j)
          → Good (add_fetched i k v x c)
      fetch (none, s) e p gs same = (
        refl,
        fetched i n k v state_added s c g gs same (sym (untracked-view i n c k p) ∙ absent),
      )
      fetch (some u, s) e p gs same = absurd (ground (arith, e))

      answer : Option (Trackable V) → V × DataCache S V
      answer o = elim o [
        | none ↦ add_fetched i k v (i.try_get_internal k c.store) c
        | some t ↦ if is_deleted t.state then (v, track k v state_changed c) else (t.item, c)
      ]

      tracked :
          (u : V) (st : TrackState)
          → Relates i n st u (n.view c.store k)
          → tracked_item i (record { item = u; state = st }) ≡ none
          → Good (if is_deleted st then (v, track k v state_changed c) else (u, c))
      tracked u state_deleted r q = (
        refl,
        (track-IsGoodCache i n k v state_changed c g r, track-view i n k v state_changed c),
      )
      tracked u state_none r q = absurd (ground (arith, q))
      tracked u state_added r q = absurd (ground (arith, q))
      tracked u state_changed r q = absurd (ground (arith, q))

      go : (o : Option (Trackable V)) → lookup k c.dictionary ≡ o → Good (answer o)
      go none p =
          let (q, gs, same) = n.try_get_law k c.store g.store_good in
          fetch _ (q ∙ sym (untracked-view i n c k p) ∙ absent) p gs same
      go (some t) p =
          tracked t.item t.state (g.related k t p) (sym (tracked-view i n c k t p) ∙ absent)
