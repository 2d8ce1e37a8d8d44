-- ===== src/Vm/Ops/Crypto.antt =====
-- ExecuteInstruction: hashes and signatures.
use neo_python.Prelude.{
  Bool, List, Option, [], false, if◌then◌else◌, length, ltb, none, some, suc, true, zero, ℕ, ◌==◌,
  ◌||◌, ◌∷◌,
}
use neo_python.Prelude.Int.{ltb_ℤ, neg_ℤ, negsuc, pos, pos_part, ◌-ℤ◌}
use neo_python.Vm.Engine.Limits.{note_stack_size}
use neo_python.Vm.Engine.Monad.{fail_if, or_raise, pure, return_early, ◌>>=◌, ◌>>◌}
use neo_python.Vm.Engine.Stacks.{count_of, list_at, pop_bytes, pop_item, push_bool, push_bytes}
use neo_python.Vm.Instruction.{Instruction}
use neo_python.Vm.StackItem.{StackItem, get_big_integer, get_byte_array, is_array}
use neo_python.Vm.State.{
  Action, Host, checkmultisig_invalid_publickey_count, checkmultisig_signature_error,
}

-- The common shape of SHA1, SHA256, HASH160 and HASH256.
unfoldable pub hash_top : (List ℕ → List ℕ) → ℕ → Action (Unit {0})
hash_top f c = do bs ← pop_bytes c; push_bytes c (f bs)

unfoldable pub op_sha1 : Host → ℕ → Instruction → Action (Unit {0})
op_sha1 h c ins = hash_top h.sha1 c

unfoldable pub op_sha256 : Host → ℕ → Instruction → Action (Unit {0})
op_sha256 h c ins = hash_top h.sha256 c

unfoldable pub op_hash160 : Host → ℕ → Instruction → Action (Unit {0})
op_hash160 h c ins = hash_top h.hash160 c

unfoldable pub op_hash256 : Host → ℕ → Instruction → Action (Unit {0})
op_hash256 h c ins = hash_top h.hash256 c

-- A verification that raises counts as failed.
abbrev pub verified : Option Bool → Bool
verified none = false
verified (some b) = b

-- The push of the result of CHECKSIG, by the message of the container.
unfoldable pub check_signature : Host → ℕ → List ℕ → List ℕ → Option (List ℕ) → Action (Unit {0})
check_signature h c sig pubkey none = do push_bool c false; return_early false
check_signature h c sig pubkey (some message) =
    push_bool c (verified (h.verify_signature true message sig pubkey))

-- CHECKSIG: without a container it pushes False and returns None.
unfoldable pub op_checksig : Host → ℕ → Instruction → Action (Unit {0})
op_checksig h c ins = do
  pubkey ← pop_bytes c
  sig ← pop_bytes c
  check_signature h c sig pubkey h.message
  note_stack_size h true (negsuc 0)

-- VERIFY
unfoldable pub op_verify : Host → ℕ → Instruction → Action (Unit {0})
op_verify h c ins = do
  pubkey ← pop_bytes c
  sig ← pop_bytes c
  message ← pop_bytes c
  push_bool c (verified (h.verify_signature false message sig pubkey))
  note_stack_size h true (negsuc 1)

-- `n` times `estack.Pop().GetByteArray()`
unfoldable pub pop_bytes_times : ℕ → ℕ → Action (List (List ℕ))
pop_bytes_times zero c = pure []
pop_bytes_times (suc n) c = do x ← pop_bytes c; xs ← pop_bytes_times n c; pure (x ∷ xs)

-- `x.GetByteArray()` of each item of a list
unfoldable pub all_byte_arrays : List StackItem → Option (List (List ℕ))
all_byte_arrays [] = some []
all_byte_arrays (x ∷ xs) = elim (get_byte_array x) [
  | none ↦ none
  | some bs ↦ elim (all_byte_arrays xs) [ none ↦ none | some rest ↦ some (bs ∷ rest) ]
]

-- The public keys of CHECKMULTISIG, from an array or counted on the stack.
unfoldable pub multisig_pubkeys : Host → ℕ → StackItem → Option ℕ → Action (List (List ℕ))
multisig_pubkeys h c item (some r) = do
  items ← list_at r
  pubkeys ← or_raise (all_byte_arrays items)
  fail_if (length pubkeys == 0) checkmultisig_invalid_publickey_count
  note_stack_size h false (negsuc 0)
  pure pubkeys
multisig_pubkeys h c item none = do
  n ← or_raise (get_big_integer item)
  count ← count_of c
  fail_if (ltb_ℤ n (pos 1) || ltb_ℤ (pos count) n) checkmultisig_invalid_publickey_count
  pubkeys ← pop_bytes_times (pos_part n) c
  note_stack_size h true (neg_ℤ n -ℤ pos 1)
  pure pubkeys

-- The signatures, of which there are at most as many as keys.
unfoldable pub multisig_signatures : Host → ℕ → ℕ → StackItem → Option ℕ → Action (List (List ℕ))
multisig_signatures h c n item (some r) = do
  items ← list_at r
  sigs ← or_raise (all_byte_arrays items)
  fail_if (length sigs == 0 || ltb n (length sigs)) checkmultisig_signature_error
  note_stack_size h false (negsuc 0)
  pure sigs
multisig_signatures h c n item none = do
  m ← or_raise (get_big_integer item)
  count ← count_of c
  fail_if (ltb_ℤ m (pos 1) || (ltb_ℤ (pos n) m || ltb_ℤ (pos count) m))
      checkmultisig_signature_error
  sigs ← pop_bytes_times (pos_part m) c
  note_stack_size h true (neg_ℤ m -ℤ pos 1)
  pure sigs

-- The loop of CHECKMULTISIG over the signatures and keys that are left: `fSuccess` at its end.
unfoldable pub multisig_loop :
    (List ℕ → List ℕ → Option Bool) → List (List ℕ) → List (List ℕ) → Bool
multisig_loop verify [] pubkeys = true
multisig_loop verify (s ∷ sigs) [] = true
multisig_loop verify (s ∷ sigs) (p ∷ pubkeys) = elim (verify s p) [
  | none ↦ false
  | some true ↦
      if ltb (length pubkeys) (length sigs) then false else multisig_loop verify sigs pubkeys
  | some false ↦
      if ltb (length pubkeys) (suc (length sigs))
      then false
      else multisig_loop verify (s ∷ sigs) pubkeys
]

abbrev pub container_message : Option (List ℕ) → List ℕ
container_message none = []
container_message (some bs) = bs

-- CHECKMULTISIG
unfoldable pub op_checkmultisig : Host → ℕ → Instruction → Action (Unit {0})
op_checkmultisig h c ins = do
  keys_item ← pop_item c
  pubkeys ← multisig_pubkeys h c keys_item (is_array keys_item)
  sigs_item ← pop_item c
  sigs ← multisig_signatures h c (length pubkeys) sigs_item (is_array sigs_item)
  push_bool c (multisig_loop (h.verify_signature true (container_message h.message)) sigs pubkeys)
