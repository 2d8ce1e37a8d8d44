-- ===== src/SmartContract/InteropService/Services.antt =====
-- neo/VM/InteropService.py, neo/SmartContract/StateReader.py: services by their names and hashes, and
-- their prices.
use neo_python.Prelude.{
  Bool, Bool-cases, List, String, [], ap, arith, false, inl, inr, length, length-take, none, refl,
  some, subst, take, true, ℕ, ◌==◌, ◌∷◌, ◌≡◌, ◌≤◌,
}
use neo_python.SmartContract.InteropService.{
  InteropService, apply_all, base_service, find, interop_hash, invoke, method_hash, state_machine,
  state_reader, token,
}
use neo_python.SmartContract.Registrations.{
  Registration, base_registrations, machine_registrations, reader_registrations, register,
  register_with_price,
}
use neo_python.Vm.Engine.Monad.{pure}
use neo_python.Vm.State.{Action, Host}

-- Every method of a dictionary satisfies a predicate.
AllMethods : (Action Bool → Type 0) → List (ℕ × Action Bool) → Type 0
AllMethods P [] = Unit
AllMethods P ((k, m) ∷ d) = P m × AllMethods P d

module _ (P : Action Bool → Type 0) where
  find-AllMethods :
      (k : ℕ) (m : Action Bool) (d : List (ℕ × Action Bool))
      → AllMethods P d
      → find k d ≡ some m
      → P m
  unfolding AllMethods
  find-AllMethods k m [] a f = absurd (ground (arith, f))
  find-AllMethods k m ((j, m') ∷ d) (p, a) f = elim (Bool-cases (j == k)) [
    | inl here ↦ subst P (ground (arith, here, f)) p
    | inr there ↦ find-AllMethods k m d a (ground (arith, there, f))
  ]

  apply_all-AllMethods :
      (h : Host) (methods : String → Action Bool) (rs : List Registration) (s : InteropService)
      → ((name : String) → P (methods name))
      → AllMethods P s.dictionary
      → AllMethods P (apply_all h methods rs s).dictionary
  unfolding AllMethods
  apply_all-AllMethods h methods [] s p a = a
  apply_all-AllMethods h methods (register name method ∷ rs) s p a =
      apply_all-AllMethods h methods rs _ p (p method, a)
  apply_all-AllMethods h methods (register_with_price name method price ∷ rs) s p a =
      apply_all-AllMethods h methods rs _ p (p method, a)

  -- What holds of every method holds of what the state machine has registered.
  pub state_machine-methods :
      (h : Host) (methods : String → Action Bool) (k : ℕ) (m : Action Bool)
      → ((name : String) → P (methods name))
      → find k (state_machine h methods).dictionary ≡ some m
      → P m
  unfolding state_machine state_reader base_service AllMethods
  state_machine-methods h methods k m p f =
      find-AllMethods k m (state_machine h methods).dictionary
        (apply_all-AllMethods h methods machine_registrations (state_reader h methods) p (
          apply_all-AllMethods h methods reader_registrations (base_service h methods) p (
            apply_all-AllMethods h methods base_registrations
              (record { dictionary = []; prices = [] }) p tt)))
        f

-- A service that is called by the first four bytes of the SHA256 of its name is the one that is
-- called by the name. Condition: the name is not of four bytes itself, and the hash has at least
-- four.
pub invoke-hash :
    (h : Host) (s : InteropService) (name : List ℕ)
    → (length name == 4) ≡ false
    → 4 ≤ length (h.sha256 name)
    → invoke h s (take 4 (h.sha256 name)) ≡ invoke h s name
unfolding invoke method_hash interop_hash token
invoke-hash h s name not_four long =
    let four : (length (take 4 (h.sha256 name)) == 4) ≡ true =
      ground (arith, length-take 4 (h.sha256 name), long) in
    let same : method_hash h (take 4 (h.sha256 name)) ≡ method_hash h name =
      rw (four, not_four) refl in
    ap (λ k. elim (find k s.dictionary) [ none ↦ pure false | some func ↦ func ]) same
