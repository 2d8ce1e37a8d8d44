-- ===== src/SmartContract/InteropService.antt =====
-- neo/VM/InteropService.py: InteropService, with the prices of neo/SmartContract/StateReader.py.
pub mod Services
use neo_python.Core.BigInteger.{from_le}
use neo_python.Prelude.{
  Bool, List, Option, String, [], false, if◌then◌else◌, length, none, some, take, ℕ, ◌==◌, ◌∷◌,
}
use neo_python.Prelude.Text.{encode}
use neo_python.SmartContract.Registrations.{
  Registration, base_registrations, machine_registrations, reader_registrations, register,
  register_with_price,
}
use neo_python.Vm.Engine.Monad.{pure}
use neo_python.Vm.StackItem.Equality.{hash}
use neo_python.Vm.State.{Action, Host}

-- The number of the first four bytes, little-endian.
unfoldable pub token : List ℕ → ℕ
token bytes = from_le (take 4 bytes)

-- interop_hash, and what Register makes of a name.
unfoldable pub interop_hash : Host → List ℕ → ℕ
interop_hash h method = token (h.sha256 method)

-- `_dictionary` and `prices`, the newest entry first: an older one of the same hash is not found.
pub record InteropService : Type 0 where
  pub dictionary : List (ℕ × Action Bool)
  pub prices : List (ℕ × ℕ)

-- InteropService.Register and StateReader.RegisterWithPrice. The methods are given by their names.
abbrev pub apply_registration :
    Host → (String → Action Bool) → Registration → InteropService → InteropService
apply_registration h methods (register name method) s = record s {
  dictionary = (interop_hash h (encode name), methods method) ∷ s.dictionary;
}
apply_registration h methods (register_with_price name method price) s = record {
  dictionary = (interop_hash h (encode name), methods method) ∷ s.dictionary;
  prices = (interop_hash h (encode name), price) ∷ s.prices;
}

abbrev pub apply_all :
    Host → (String → Action Bool) → List Registration → InteropService → InteropService
apply_all h methods [] s = s
apply_all h methods (r ∷ rs) s = apply_all h methods rs (apply_registration h methods r s)

-- InteropService.__init__, StateReader.__init__ and StateMachine.__init__.
unfoldable pub base_service : Host → (String → Action Bool) → InteropService
base_service h methods =
    apply_all h methods base_registrations (record { dictionary = []; prices = [] })

unfoldable pub state_reader : Host → (String → Action Bool) → InteropService
state_reader h methods = apply_all h methods reader_registrations (base_service h methods)

unfoldable pub state_machine : Host → (String → Action Bool) → InteropService
state_machine h methods = apply_all h methods machine_registrations (state_reader h methods)

abbrev pub find : {A : Type 0} → ℕ → List (ℕ × A) → Option A
find k [] = none
find k ((j, a) ∷ m) = if j == k then some a else find k m

-- StateReader.GetPrice
unfoldable pub service_price : InteropService → ℕ → ℕ
service_price s hash = elim (find hash s.prices) [ none ↦ 0 | some price ↦ price ]

-- The hash that Invoke looks up.
unfoldable pub method_hash : Host → List ℕ → ℕ
method_hash h method = if length method == 4 then from_le method else interop_hash h method

-- InteropService.Invoke
unfoldable pub invoke : Host → InteropService → List ℕ → Action Bool
invoke h s method = elim (find (method_hash h method) s.dictionary) [
  | none ↦ pure false
  | some func ↦ func
]
