-- ===== src/Vm/Ops/Multisig.antt =====
-- The loop of CHECKMULTISIG against what it is meant to decide.
-- The signatures verify, in order, against a part of the keys.
use neo_python.Prelude.{
  Bool, List, Option, [], arith, false, inl, inr, length, none, refl, some, true, ℕ, ◌↔◌, ◌∷◌, ◌≡◌,
  ◌≢◌, ◌≤◌, ◌⊎◌,
}
use neo_python.Vm.Ops.Crypto.{multisig_loop}

pub data Matches (verify : List ℕ → List ℕ → Option Bool)
    : List (List ℕ) → List (List ℕ) → Type 0 where
  matches_all : (pubkeys : List (List ℕ)) → Matches verify [] pubkeys
  matches_next :
      (s p : List ℕ) (sigs pubkeys : List (List ℕ))
      → verify s p ≡ some true
      → Matches verify sigs pubkeys
      → Matches verify (s ∷ sigs) (p ∷ pubkeys)
  matches_skip :
      (p : List ℕ) (sigs pubkeys : List (List ℕ))
      → Matches verify sigs pubkeys
      → Matches verify sigs (p ∷ pubkeys)

Answer-cases : (o : Option Bool) → (o ≡ none) ⊎ ((o ≡ some true) ⊎ (o ≡ some false))
Answer-cases none = inl refl
Answer-cases (some true) = inr (inl refl)
Answer-cases (some false) = inr (inr refl)

module _ (verify : List ℕ → List ℕ → Option Bool) where
  -- No pair that the loop may compare raises.
  unfoldable pub NeverRaises : List (List ℕ) → List (List ℕ) → Type 0
  NeverRaises [] pubkeys = Unit
  NeverRaises (s ∷ sigs) [] = Unit
  NeverRaises (s ∷ sigs) (p ∷ pubkeys) =
      (verify s p ≢ none) × NeverRaises (s ∷ sigs) pubkeys × NeverRaises sigs pubkeys

  Matches-length :
      (sigs pubkeys : List (List ℕ)) → Matches verify sigs pubkeys → length sigs ≤ length pubkeys
  Matches-length _ _ (matches_all pubkeys) = omega arith
  Matches-length _ _ (matches_next s p sigs pubkeys v m) =
      omega (arith, Matches-length sigs pubkeys m)
  Matches-length _ _ (matches_skip p sigs pubkeys m) = omega (arith, Matches-length sigs pubkeys m)

  -- The signatures but the first match where all of them do.
  Matches-tail :
      (s : List ℕ) (sigs pubkeys : List (List ℕ))
      → Matches verify (s ∷ sigs) pubkeys
      → Matches verify sigs pubkeys
  Matches-tail _ _ _ (matches_next s p sigs pubkeys v m) = matches_skip p sigs pubkeys m
  Matches-tail s sigs _ (matches_skip p _ pubkeys m) =
      matches_skip p sigs pubkeys (Matches-tail s sigs pubkeys m)

  -- A first key that verifies the first signature may as well be used for it.
  Matches-used :
      (s p : List ℕ) (sigs pubkeys : List (List ℕ))
      → Matches verify (s ∷ sigs) (p ∷ pubkeys)
      → Matches verify sigs pubkeys
  Matches-used _ _ _ _ (matches_next s p sigs pubkeys v m) = m
  Matches-used s _ sigs _ (matches_skip p _ pubkeys m) = Matches-tail s sigs pubkeys m

  -- A first key that does not verify it is of no use.
  Matches-skipped :
      (s p : List ℕ) (sigs pubkeys : List (List ℕ))
      → verify s p ≡ some false
      → Matches verify (s ∷ sigs) (p ∷ pubkeys)
      → Matches verify (s ∷ sigs) pubkeys
  Matches-skipped _ _ _ _ e (matches_next s p sigs pubkeys v m) = absurd (ground (arith, e, v))
  Matches-skipped s _ sigs _ e (matches_skip p _ pubkeys m) = m

  loop_sound :
      (sigs pubkeys : List (List ℕ))
      → length sigs ≤ length pubkeys
      → multisig_loop verify sigs pubkeys ≡ true
      → Matches verify sigs pubkeys
  unfolding multisig_loop
  loop_sound [] pubkeys le h = matches_all pubkeys
  loop_sound (s ∷ sigs) [] le h = elim le [ ]
  loop_sound (s ∷ sigs) (p ∷ pubkeys) le h = elim (Answer-cases (verify s p)) [
    | inl e ↦ absurd (ground (arith, h, e))
    | inr (inl e) ↦
        matches_next s p sigs pubkeys e
          (loop_sound sigs pubkeys (ground (arith, h, e)) (ground (arith, h, e)))
    | inr (inr e) ↦
        matches_skip p (s ∷ sigs) pubkeys
          (loop_sound (s ∷ sigs) pubkeys (ground (arith, h, e)) (ground (arith, h, e)))
  ]

  loop_complete :
      (sigs pubkeys : List (List ℕ))
      → NeverRaises sigs pubkeys
      → Matches verify sigs pubkeys
      → multisig_loop verify sigs pubkeys ≡ true
  unfolding multisig_loop NeverRaises
  loop_complete [] pubkeys r m = refl
  loop_complete (s ∷ sigs) [] r m = refl
  loop_complete (s ∷ sigs) (p ∷ pubkeys) (here, later, rest) m = elim (Answer-cases (verify s p)) [
    | inl e ↦ absurd (here e)
    | inr (inl e) ↦
        let m' = Matches-used s p sigs pubkeys m in
        ground (arith, e, Matches-length sigs pubkeys m', loop_complete sigs pubkeys rest m')
    | inr (inr e) ↦
        let m' = Matches-skipped s p sigs pubkeys e m in
        ground (
          arith,
          e,
          Matches-length (s ∷ sigs) pubkeys m',
          loop_complete (s ∷ sigs) pubkeys later m',
        )
  ]

  -- CHECKMULTISIG with no more signatures than keys, none of which raises with a key that it
  -- can meet: the loop succeeds exactly if the signatures verify, in their order, against a
  -- part of the keys in the order of the keys. The early exits lose no such match.
  pub multisig_loop_iff :
      (sigs pubkeys : List (List ℕ))
      → length sigs ≤ length pubkeys
      → NeverRaises sigs pubkeys
      → (multisig_loop verify sigs pubkeys ≡ true) ↔ Matches verify sigs pubkeys
  multisig_loop_iff sigs pubkeys le r = (loop_sound sigs pubkeys le, loop_complete sigs pubkeys r)
