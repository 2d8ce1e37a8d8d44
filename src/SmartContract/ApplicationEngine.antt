-- ===== src/SmartContract/ApplicationEngine.antt =====
-- neo/SmartContract/ApplicationEngine.py.
pub mod Steps
pub mod Passes
pub mod Gas
pub mod Prices
pub mod Returns
pub mod Termination
use neo_python.Core.BigInteger.{from_le, truediv}
use neo_python.Prelude.{
  Bool, List, Option, String, if◌then◌else◌, leb, length, ltb, none, not, some, true, ℕ, ◌%◌, ◌&&◌,
  ◌*◌, ◌+◌, ◌-◌, ◌/◌, ◌==◌, ◌||◌,
}
use neo_python.Prelude.Int.{ltb_ℤ, negsuc, pos, ℤ, ◌*ℤ◌, ◌+ℤ◌}
use neo_python.Prelude.Text.{encode, is_ascii}
use neo_python.SmartContract.InteropService.{InteropService, interop_hash, invoke, service_price}
use neo_python.Vm.Engine.Contexts.{current_context, current_instruction, load_script}
use neo_python.Vm.Engine.Monad.{gets, modify, or_raise, pure, ◌>>=◌, ◌>>◌}
use neo_python.Vm.Execute.{execute, new_engine}
use neo_python.Vm.Instruction.{Instruction, script_length}
use neo_python.Vm.RandomAccessStack.{peek}
use neo_python.Vm.StackItem.{Heap, StackItem, get_big_integer, get_byte_array, is_array, some_byte}
use neo_python.Vm.State.{Action, Engine, ExecutionContext, Host}
use neo_python.Vm.OpCode

-- ratio, gas_free, max_free_ops
abbrev pub ratio : ℕ
ratio = 100000

abbrev pub gas_free : ℕ
gas_free = 1000000000

abbrev pub max_free_ops : ℕ
max_free_ops = 500000

-- ApplicationEngine, less the counter that its engine holds.
pub record ApplicationEngine : Type 0 where
  pub service : InteropService
  pub gas_amount : ℤ
  pub test_mode : Bool

-- ApplicationEngine.__init__
abbrev pub application_engine : InteropService → ℤ → Bool → ApplicationEngine
application_engine service gas test_mode = record {
  service = service;
  gas_amount = pos gas_free +ℤ gas;
  test_mode = test_mode;
}

-- `self.CurrentContext.EvaluationStack.Peek(index)` with one of its methods.
abbrev pub peek_as : {A : Type 0} → (StackItem → Option A) → ℤ → ExecutionContext → Option A
peek_as f index cx = elim (peek index cx.evaluation_stack) [ none ↦ none | some item ↦ f item ]

-- `int(500 * 100000000 / self.ratio)`
abbrev pub gas_price : ℕ → ℕ
gas_price gas = gas * 100000000 / ratio

abbrev pub has_storage : ℕ → Bool
has_storage properties = ltb 0 (properties % 2)

abbrev pub has_dynamic_invoke : ℕ → Bool
has_dynamic_invoke properties = ltb 0 (properties / 2 % 2)

unfoldable pub properties_fee : ℕ → ℕ
properties_fee properties =
    gas_price 100
    + (if has_storage properties then gas_price 400 else 0)
    + (if has_dynamic_invoke properties then gas_price 500 else 0)

-- The fee of a contract by its properties; a number outside of 0 to 255 raises.
unfoldable pub contract_fee : ℤ → Option ℤ
contract_fee (negsuc _) = none
contract_fee (pos properties) =
    if ltb 255 properties then none else some (pos (properties_fee properties))

-- The price of a storage of a key and a value: 1000 for each kilobyte that is begun.
unfoldable pub storage_fee : ℕ → ℕ → ℕ
storage_fee l1 l2 = ((l1 + l2 - 1) / 1024 + 1) * 1000

module _ (h : Host) where
  abbrev is_method : String → ℕ → Bool
  is_method name api_hash = api_hash == interop_hash h (encode name)

  abbrev is_asset_create : ℕ → Bool
  is_asset_create api_hash =
      is_method "Neo.Asset.Create" api_hash || is_method "AntShares.Asset.Create" api_hash

  -- The source tests the same name twice.
  abbrev is_asset_renew : ℕ → Bool
  is_asset_renew api_hash =
      is_method "AntShares.Asset.Renew" api_hash || is_method "AntShares.Asset.Renew" api_hash

  abbrev is_contract_create : ℕ → Bool
  is_contract_create api_hash =
      is_method "Neo.Contract.Create" api_hash
      || (is_method "Neo.Contract.Migrate" api_hash
          || (is_method "AntShares.Contract.Create" api_hash
              || is_method "AntShares.Contract.Migrate" api_hash))

  abbrev is_storage_put : ℕ → Bool
  is_storage_put api_hash =
      is_method "System.Storage.Put" api_hash
      || (is_method "System.Storage.PutEx" api_hash
          || (is_method "Neo.Storage.Put" api_hash || is_method "AntShares.Storage.Put" api_hash))

  -- The price of a service that is registered without one.
  unfoldable pub unpriced : ExecutionContext → ℕ → Option ℤ
  unpriced cx api_hash =
      if is_asset_create api_hash
      then some (pos (gas_price 5000))
      else if is_asset_renew api_hash
      then elim (peek_as get_big_integer (pos 1) cx) [
        | none ↦ none
        | some years ↦ truediv (years *ℤ pos 500000000000) (pos ratio)
      ]
      else if is_contract_create api_hash
      then elim (peek_as get_big_integer (pos 3) cx) [
        | none ↦ none
        | some properties ↦ contract_fee properties
      ]
      else if is_storage_put api_hash
      then elim (peek_as get_byte_array (pos 1) cx) [
        | none ↦ none
        | some key ↦ elim (peek_as get_byte_array (pos 2) cx) [
          | none ↦ none
          | some value ↦ some (pos (storage_fee (length key) (length value)))
        ]
      ]
      else some (pos 1)

  -- `api_hash`: TokenString decodes ASCII, and raises for other bytes.
  unfoldable pub api_hash_of : Instruction → Option ℕ
  api_hash_of ins =
      if length ins.operand == 4
      then some (from_le ins.operand)
      else if is_ascii ins.operand
      then some (interop_hash h ins.operand)
      else none

  -- GetPriceForSysCall
  unfoldable pub get_price_for_sys_call : InteropService → ExecutionContext → Instruction → Option ℤ
  get_price_for_sys_call service cx ins = elim (api_hash_of ins) [
    | none ↦ none
    | some api_hash ↦
        let price = service_price service api_hash in
        if ltb 0 price then some (pos price) else unpriced cx api_hash
  ]

-- `n < 1` and 100 * n
abbrev pub multisig_price : ℤ → ℤ
multisig_price n = if ltb_ℤ n (pos 1) then pos 1 else pos 100 *ℤ n

-- The number of keys: the count of an array, or the number that another item is.
unfoldable pub key_count : Heap → StackItem → Option ℤ
key_count heap item = elim (is_array item) [
  | some r ↦ some (pos (length (heap.arrays r)))
  | none ↦ get_big_integer item
]

abbrev pub price_of_count : Option ℤ → Option ℤ
price_of_count none = none
price_of_count (some n) = some (multisig_price n)

-- The price of CHECKMULTISIG, by the number of keys.
unfoldable pub price_for_multisig : Heap → ExecutionContext → Option ℤ
price_for_multisig heap cx =
    if cx.evaluation_stack.size == 0
    then some (pos 1)
    else price_of_count (peek_as (key_count heap) (pos 0) cx)

-- GetPrice
unfoldable pub get_price : Host → InteropService → Heap → ExecutionContext → Instruction → Option ℤ
get_price h service heap cx ins =
    let op = ins.op_code in
    if leb op OpCode.nop
    then some (pos 0)
    else if op == OpCode.appcall || op == OpCode.tailcall
    then some (pos 10)
    else if op == OpCode.syscall
    then get_price_for_sys_call h service cx ins
    else if op == OpCode.sha1 || op == OpCode.sha256
    then some (pos 10)
    else if op == OpCode.hash160 || op == OpCode.hash256
    then some (pos 20)
    else if op == OpCode.checksig || op == OpCode.verify
    then some (pos 100)
    else if op == OpCode.checkmultisig
    then price_for_multisig heap cx
    else some (pos 1)

-- HasDynamicInvoke of the contract that runs. UInt160 raises unless it is given 20 bytes, and so does
-- the lookup of a contract that is not there.
unfoldable pub current_has_dynamic_invoke : (List ℕ → Option ℕ) → ExecutionContext → Option Bool
current_has_dynamic_invoke contracts cx =
    if length cx.script.script_hash == 20
    then elim (contracts cx.script.script_hash) [
      | none ↦ none
      | some properties ↦ some (has_dynamic_invoke properties)
    ]
    else none

-- CheckDynamicInvoke
unfoldable pub check_dynamic_invoke :
    (List ℕ → Option ℕ) → ExecutionContext → Instruction → Option Bool
check_dynamic_invoke contracts cx ins =
    let op = ins.op_code in
    if op == OpCode.appcall || op == OpCode.tailcall
    then (if some_byte ins.operand then some true else current_has_dynamic_invoke contracts cx)
    else if op == OpCode.call_ed || op == OpCode.call_edt
    then current_has_dynamic_invoke contracts cx
    else some true

-- `self.gas_consumed = self.gas_consumed + (self.GetPrice() * self.ratio)`
unfoldable pub consume : ℤ → Action (Unit {0})
consume price = modify (λ e. record e { gas_consumed = e.gas_consumed +ℤ price *ℤ pos ratio })

-- The tests of PreExecuteInstruction behind the charge.
unfoldable pub is_refused : ApplicationEngine → Engine → Bool
is_refused app e =
    (not app.test_mode && ltb_ℤ app.gas_amount e.gas_consumed)
    || (app.test_mode && ltb max_free_ops e.ops_processed)

-- `try: if not self.CheckDynamicInvoke(): return False`, where exceptions are passed over.
abbrev pub is_allowed : Option Bool → Bool
is_allowed none = true
is_allowed (some allowed) = allowed

-- PreExecuteInstruction from the charge on.
unfoldable pub charge : ApplicationEngine → Host → ExecutionContext → Instruction → Action Bool
charge app h cx ins = do
  price ← or_raise (← gets (λ e. get_price h app.service e.heap cx ins))
  consume price
  refused ← gets (is_refused app)
  allowed ← gets (λ e. is_allowed (check_dynamic_invoke e.contract_properties cx ins))
  pure (not refused && allowed)

-- PreExecuteInstruction in the current context.
unfoldable pub pre_execute_at : ApplicationEngine → Host → ExecutionContext → Action Bool
pre_execute_at app h cx =
    if leb (script_length cx.script) cx.instruction_pointer
    then pure true
    else (do ins ← or_raise (current_instruction cx); charge app h cx ins)

-- PreExecuteInstruction
unfoldable pub pre_execute_instruction : ApplicationEngine → Host → Action Bool
pre_execute_instruction app h = do
  c ← current_context
  cx ← gets (λ e. e.contexts c)
  pre_execute_at app h cx

-- ApplicationEngine as an ExecutionEngine. PostExecuteInstruction is not overridden.
unfoldable pub application_host : ApplicationEngine → Host → Host
application_host app h = record h {
  service_invoke = invoke h app.service;
  pre_execute_instruction = pre_execute_instruction app h;
  post_execute_instruction = pure true;
}

-- Run: LoadScript and Execute, with fuel for the loop.
unfoldable pub run : ApplicationEngine → Host → List ℕ → ℕ → Option (Bool × Engine)
run app h script fuel =
    execute (application_host app h) fuel
      (load_script (application_host app h) script (negsuc 0) new_engine).1
