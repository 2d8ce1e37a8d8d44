-- ===== src/Storage/DataCache/Commit.antt =====
-- neo/Storage/Common/DataCache.py: Commit writes what the cache shows.
use neo_python.Prelude.{
  Bool, Bool-cases, List, Option, [], ap, arith, bytes_eq, false, if◌then◌else◌, inl, inr, none,
  refl, some, subst, sym, true, ℕ, ◌∙◌, ◌∷◌, ◌≡◌,
}
use neo_python.Prelude.Dict.{HasUniqueKeys, bytes_eq_refl, bytes_eq_same, lookup, lookup-same_key}
use neo_python.Storage.DataCache.{
  DataCache, Internals, TrackState, Trackable, commit_cache, commit_entries, commit_entry,
  state_added, state_changed, state_deleted, state_none, tracked_item,
}
use neo_python.Storage.DataCache.Views.{
  IsGoodCache, IsInternals, Relates, view_entry, view_of, with_key,
}

module _ {S V : Type 0} (i : Internals S V) (n : IsInternals i) where
  -- A store after one entry or several.
  abbrev Becomes : Option S → (List ℕ → Option V) → Type 0
  Becomes o f = (s : S) × (o ≡ some s) × n.IsGood s × ((j : List ℕ) → n.view s j ≡ f j)

  commit_entry_lem :
      (k : List ℕ) (t : Trackable V) (s : S)
      → n.IsGood s
      → Relates i n t.state t.item (n.view s k)
      → Becomes (commit_entry i k t s) (with_key (n.view s) k (tracked_item i t))
  commit_entry_lem k t s g r = go t.state r
    where
      kept :
          (v : V) (j : List ℕ) (b : Bool)
          → n.view s k ≡ some v
          → bytes_eq k j ≡ b
          → n.view s j ≡ (if b then some v else n.view s j)
      kept v j true p same = ap (λ x. n.view s x) (sym (bytes_eq_same k j same)) ∙ p
      kept v j false p other = refl

      go :
          (st : TrackState)
          → Relates i n st t.item (n.view s k)
          → Becomes
              (commit_entry i k (record { item = t.item; state = st }) s)
              (with_key (n.view s) k (tracked_item i (record { item = t.item; state = st })))
      go state_none p = (s, refl, g, λ j. kept t.item j (bytes_eq k j) p refl)
      go state_added p = n.add_law k t.item s g p
      go state_changed (w, p) = n.update_law k t.item w s g p
      go state_deleted (w, p) =
          let (h, f) = n.delete_law k s g in (i.delete_internal k s, refl, h, f)

  later_key :
      (k j : List ℕ) (t : Trackable V) (d : List (List ℕ × Trackable V))
      → lookup k d ≡ none
      → lookup j d ≡ some t
      → bytes_eq k j ≡ false
  later_key k j t d p q = elim (Bool-cases (bytes_eq k j)) [
    | inl same ↦ absurd (ground (arith, p, q, lookup-same_key k j d same))
    | inr other ↦ other
  ]

  with_other :
      (f : List ℕ → Option V) (k j : List ℕ) (o : Option V)
      → bytes_eq k j ≡ false
      → with_key f k o j ≡ f j
  with_other f k j o other = rw other refl

  -- The first entry and then the others.
  both :
      (k j : List ℕ) (t : Trackable V) (d : List (List ℕ × Trackable V)) (s s1 : S) (b : Bool)
      → bytes_eq k j ≡ b
      → lookup k d ≡ none
      → n.view s1 j ≡ (if b then tracked_item i t else n.view s j)
      → view_entry i n (lookup j d) (n.view s1 j)
        ≡ view_entry i n (if b then some t else lookup j d) (n.view s j)
  both k j t d s s1 true same nk f =
      let gone : lookup j d ≡ none = sym (lookup-same_key k j d same) ∙ nk in
      ap (λ o. view_entry i n o (n.view s1 j)) gone ∙ f
  both k j t d s s1 false other nk f = ap (λ o. view_entry i n (lookup j d) o) f

  commit_entries_lem :
      (d : List (List ℕ × Trackable V)) (s : S)
      → n.IsGood s
      → HasUniqueKeys d
      → ((k : List ℕ) (t : Trackable V)
          → lookup k d ≡ some t
          → Relates i n t.state t.item (n.view s k))
      → Becomes (commit_entries i d s) (λ j. view_entry i n (lookup j d) (n.view s j))
  unfolding lookup HasUniqueKeys
  commit_entries_lem [] s g u r = (s, refl, g, λ j. refl)
  commit_entries_lem ((k, t) ∷ d) s g (nk, u) r =
      let (s1, p, g1, f) = commit_entry_lem k t s g (r k t (rw (bytes_eq_refl k) refl)) in
      let (s2, q, g2, f2) = commit_entries_lem d s1 g1 u (λ j t' l.
        let other = later_key k j t' d nk l in
        subst (λ o. Relates i n t'.state t'.item o) (sym (f j ∙ with_other (n.view s) k j _ other))
          (r j t' (rw other l))) in
      (
        s2,
        ap (λ o. elim o [ none ↦ none | some s' ↦ commit_entries i d s' ]) p ∙ q,
        g2,
        λ j. f2 j ∙ both k j t d s s1 (bytes_eq k j) refl nk (f j),
      )

  -- Commit of a good cache (its keys are unique, and each entry stands to the store as its
  -- state says) succeeds, and after it the store shows what the cache showed before, at every
  -- key. Condition: the store keeps to the laws of its methods.
  pub commit_cache-view :
      (c : DataCache S V)
      → IsGoodCache i n c
      → (c' : DataCache S V) × (commit_cache i c ≡ some c')
        × n.IsGood c'.store
        × ((k : List ℕ) → n.view c'.store k ≡ view_of i n c k)
  unfolding commit_cache view_of
  commit_cache-view c g =
      let (s, p, gs, f) = commit_entries_lem c.dictionary c.store g.store_good g.unique g.related in
      (
        record c { store = s },
        ap (λ o. elim o [ none ↦ none | some s' ↦ some (record c { store = s' }) ]) p,
        gs,
        f,
      )
