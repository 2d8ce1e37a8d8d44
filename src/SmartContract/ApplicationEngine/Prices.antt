-- ===== src/SmartContract/ApplicationEngine/Prices.antt =====
-- neo/SmartContract/ApplicationEngine.py: the prices of instructions.
use neo_python.Vm.OpCode
use neo_python.Prelude.{
  Bool, Bool-cases, Option, String, ap, arith, false, if◌then◌else◌, inl, inr, leb, ltb, none, refl,
  some, subst, true, ℕ, ◌%◌, ◌*◌, ◌+◌, ◌-◌, ◌/◌, ◌<◌, ◌==◌, ◌∙◌, ◌≡◌, ◌≤◌, ◌⊎◌,
}
use neo_python.Prelude.Int.{negsuc, pos, ℤ, ◌*ℤ◌, ◌<ℤ◌, ◌≤ℤ◌}
use neo_python.Prelude.Text.{encode}
use neo_python.SmartContract.ApplicationEngine.{
  api_hash_of, contract_fee, get_price, get_price_for_sys_call, is_asset_create, is_asset_renew,
  is_contract_create, key_count, multisig_price, peek_as, price_for_multisig, price_of_count,
  properties_fee, storage_fee, unpriced,
}
use neo_python.SmartContract.InteropService.{InteropService, interop_hash, service_price}
use neo_python.Vm.Instruction.{Instruction}
use neo_python.Vm.RandomAccessStack.{peek}
use neo_python.Vm.StackItem.{Heap, StackItem, get_big_integer}
use neo_python.Vm.State.{ExecutionContext, Host}

-- A storage of a key and a value costs 1000 for each kilobyte that their lengths come to, the
-- last one rounded up, and 1000 at least.
pub storage_fee-covers :
    (l1 l2 : ℕ)
    → (n : ℕ) × (storage_fee l1 l2 ≡ 1000 * n)
      × (1 ≤ n)
      × (l1 + l2 ≤ 1024 * n)
      × ((n ≡ 1) ⊎ (1024 * (n - 1) < l1 + l2))
unfolding storage_fee
storage_fee-covers l1 l2 =
    ((l1 + l2 - 1) / 1024 + 1, omega arith, omega arith, omega arith, rounded)
  where
    rounded : ((l1 + l2 - 1) / 1024 + 1 ≡ 1) ⊎ (1024 * ((l1 + l2 - 1) / 1024 + 1 - 1) < l1 + l2)
    rounded = ground arith

properties_fee-sum : (p : ℕ) → properties_fee p ≡ 100000 + 400000 * (p % 2) + 500000 * (p / 2 % 2)
unfolding properties_fee
properties_fee-sum p = ground arith

-- The methods that create or migrate a contract.
pub data ContractMethod : Type 0 where
  neo_create neo_migrate ant_create ant_migrate : ContractMethod

abbrev pub method_name : ContractMethod → String
method_name neo_create = "Neo.Contract.Create"
method_name neo_migrate = "Neo.Contract.Migrate"
method_name ant_create = "AntShares.Contract.Create"
method_name ant_migrate = "AntShares.Contract.Migrate"

-- The hash of a name is registered without a price, and is none of the methods on assets that are asked for
-- first.
pub record IsUnpriced (h : Host) (s : InteropService) (api_hash : ℕ) : Type 0 where
  pub free : service_price s api_hash ≡ 0
  pub no_asset_create : is_asset_create h api_hash ≡ false
  pub no_asset_renew : is_asset_renew h api_hash ≡ false

api_hash_of-method_name :
    (h : Host) (m : ContractMethod) (op : ℕ)
    → api_hash_of h (record { op_code = op; operand = encode (method_name m) })
      ≡ some (interop_hash h (encode (method_name m)))
unfolding api_hash_of
api_hash_of-method_name h neo_create op = refl
api_hash_of-method_name h neo_migrate op = refl
api_hash_of-method_name h ant_create op = refl
api_hash_of-method_name h ant_migrate op = refl

is_contract_create-method_name :
    (h : Host) (m : ContractMethod)
    → is_contract_create h (interop_hash h (encode (method_name m))) ≡ true
is_contract_create-method_name h neo_create = ground arith
is_contract_create-method_name h neo_migrate = ground arith
is_contract_create-method_name h ant_create = ground arith
is_contract_create-method_name h ant_migrate = ground arith

contract_fee_lem :
    (z : ℤ)
    → ((contract_fee z ≡ none) × ((z <ℤ pos 0) ⊎ (pos 255 <ℤ z)))
      ⊎ ((p : ℕ) × (z ≡ pos p)
          × (p ≤ 255)
          × (contract_fee z ≡ some (pos (100000 + 400000 * (p % 2) + 500000 * (p / 2 % 2)))))
unfolding contract_fee
contract_fee_lem (negsuc n) = inl (refl, inl (omega arith))
contract_fee_lem (pos p) = elim (Bool-cases (ltb 255 p)) [
  | inl above ↦ inl (rw above refl, inr (ground (arith, above)))
  | inr byte ↦
      inr (p, refl, ground (arith, byte), rw byte (ap (λ n. some (pos n)) (properties_fee-sum p)))
]

unpriced-contract :
    (h : Host) (s : InteropService) (m : ContractMethod) (cx : ExecutionContext) (item : StackItem)
    (z : ℤ)
    → IsUnpriced h s (interop_hash h (encode (method_name m)))
    → peek (pos 3) cx.evaluation_stack ≡ some item
    → get_big_integer item ≡ some z
    → unpriced h cx (interop_hash h (encode (method_name m))) ≡ contract_fee z
unfolding unpriced
unpriced-contract h s m cx item z u at_three number =
    rw (u.no_asset_create, u.no_asset_renew, is_contract_create-method_name h m, at_three, number)
      refl

get_price_for_sys_call-hash :
    (h : Host) (s : InteropService) (cx : ExecutionContext) (ins : Instruction) (api_hash : ℕ)
    → api_hash_of h ins ≡ some api_hash
    → service_price s api_hash ≡ 0
    → get_price_for_sys_call h s cx ins ≡ unpriced h cx api_hash
unfolding get_price_for_sys_call
get_price_for_sys_call-hash h s cx ins api_hash named free_name =
    ap
      (λ o. elim o [
        | none ↦ none
        | some k ↦
            if ltb 0 (service_price s k) then some (pos (service_price s k)) else unpriced h cx k
      ])
      named
    ∙ ap (λ n. if ltb 0 n then some (pos n) else unpriced h cx api_hash) free_name

get_price-contract_fee :
    (h : Host) (s : InteropService) (heap : Heap) (m : ContractMethod) (cx : ExecutionContext)
    (item : StackItem) (z : ℤ)
    → IsUnpriced h s (interop_hash h (encode (method_name m)))
    → peek (pos 3) cx.evaluation_stack ≡ some item
    → get_big_integer item ≡ some z
    → get_price h s heap cx (record { op_code = OpCode.syscall; operand = encode (method_name m) })
      ≡ contract_fee z
unfolding get_price
get_price-contract_fee h s heap m cx item z u at_three number =
    get_price_for_sys_call-hash h s cx _ _ (api_hash_of-method_name h m OpCode.syscall) u.free
    ∙ unpriced-contract h s m cx item z u at_three number

-- GetPrice of a SYSCALL that creates or migrates a contract, by any of the four names, is 100000,
-- 400000 more with storage (the first bit of the properties, the number at index 3 from the top)
-- and 500000 more with dynamic calls (the second bit), for the numbers from 0 to 255; every other
-- number raises. Condition: the service has no price for the name, and its hash is not that of a
-- method on assets that is asked for first.
pub get_price-contract :
    (h : Host) (s : InteropService) (heap : Heap) (m : ContractMethod) (cx : ExecutionContext)
    (item : StackItem) (z : ℤ)
    → IsUnpriced h s (interop_hash h (encode (method_name m)))
    → peek (pos 3) cx.evaluation_stack ≡ some item
    → get_big_integer item ≡ some z
    → ((get_price h s heap cx
            (record { op_code = OpCode.syscall; operand = encode (method_name m) })
          ≡ none)
        × ((z <ℤ pos 0) ⊎ (pos 255 <ℤ z)))
      ⊎ ((p : ℕ) × (z ≡ pos p)
          × (p ≤ 255)
          × (get_price h s heap cx
                (record { op_code = OpCode.syscall; operand = encode (method_name m) })
              ≡ some (pos (100000 + 400000 * (p % 2) + 500000 * (p / 2 % 2)))))
get_price-contract h s heap m cx item z u at_three number =
    let same = get_price-contract_fee h s heap m cx item z u at_three number in
    elim (contract_fee_lem z) [
      | inl (raises, outside) ↦ inl (same ∙ raises, outside)
      | inr (p, is_p, byte, fee) ↦ inr (p, is_p, byte, same ∙ fee)
    ]

multisig_price-positive : (n : ℤ) → pos 1 ≤ℤ multisig_price n
unfolding ◌*ℤ◌
multisig_price-positive (pos n) = ground arith
multisig_price-positive (negsuc n) = ground arith

price_of_count-positive :
    (o : Option ℤ) (price : ℤ) → price_of_count o ≡ some price → pos 1 ≤ℤ price
price_of_count-positive none price p = absurd (ground (arith, p))
price_of_count-positive (some n) price p =
    let same : multisig_price n ≡ price = ground (arith, p) in
    subst (λ z. pos 1 ≤ℤ z) same (multisig_price-positive n)

price_for_multisig-positive :
    (heap : Heap) (cx : ExecutionContext) (price : ℤ)
    → price_for_multisig heap cx ≡ some price
    → pos 1 ≤ℤ price
unfolding price_for_multisig
price_for_multisig-positive heap cx price p =
    go (cx.evaluation_stack.size == 0) (peek_as (key_count heap) (pos 0) cx) p
  where
    go :
        (b : Bool) (o : Option ℤ)
        → (if b then some (pos 1) else price_of_count o) ≡ some price
        → pos 1 ≤ℤ price
    go true o q = ground (arith, q)
    go false o q = price_of_count-positive o price q

-- An instruction behind NOP that is no SYSCALL costs at least 1 where its price does not raise;
-- so the only instructions that are free, SYSCALL apart, are the pushes and NOP.
pub get_price-positive :
    (h : Host) (s : InteropService) (heap : Heap) (cx : ExecutionContext) (ins : Instruction)
    (price : ℤ)
    → get_price h s heap cx ins ≡ some price
    → (ins.op_code == OpCode.syscall) ≡ false
    → (leb ins.op_code OpCode.nop ≡ true) ⊎ (pos 1 ≤ℤ price)
unfolding get_price
get_price-positive h s heap cx ins price p n =
    ground (arith, p, n, price_for_multisig-positive heap cx price)
