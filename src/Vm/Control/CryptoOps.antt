-- ===== src/Vm/Control/CryptoOps.antt =====
-- The instructions that leave the control state alone: hashes and signatures.
use neo_python.Prelude.{List, Option, none, some, suc, zero, ℕ}
use neo_python.Vm.Control.{IsLocal, IsLocal-bind, IsLocal-pure}
use neo_python.Vm.Control.Primitives.{IsLocal-pop_bytes, op_rules}
use neo_python.Vm.Instruction.{Instruction}
use neo_python.Vm.Ops.Crypto.{
  check_signature, hash_top, multisig_pubkeys, multisig_signatures, op_checkmultisig, op_checksig,
  op_hash160, op_hash256, op_sha1, op_sha256, op_verify, pop_bytes_times,
}
use neo_python.Vm.StackItem.{StackItem}
use neo_python.Vm.State.{Host}
use neo_python.Vm.Ops.Crypto

IsLocal-hash_top : (f : List ℕ → List ℕ) (c : ℕ) → IsLocal (Crypto.hash_top f c)
unfolding Crypto.hash_top
IsLocal-hash_top f c = search op_rules depth 20

IsLocal-check_signature :
    (h : Host) (c : ℕ) (sig pubkey : List ℕ) (message : Option (List ℕ))
    → IsLocal (Crypto.check_signature h c sig pubkey message)
unfolding Crypto.check_signature
IsLocal-check_signature h c sig pubkey none = search op_rules depth 20
IsLocal-check_signature h c sig pubkey (some _) = search op_rules depth 20

IsLocal-pop_bytes_times : (n c : ℕ) → IsLocal (Crypto.pop_bytes_times n c)
unfolding Crypto.pop_bytes_times
IsLocal-pop_bytes_times zero c = search op_rules
IsLocal-pop_bytes_times (suc n) c =
    IsLocal-bind _ _ (IsLocal-pop_bytes c)
      (λ x. IsLocal-bind _ _ (IsLocal-pop_bytes_times n c) (λ xs. IsLocal-pure _))

IsLocal-multisig_pubkeys :
    (h : Host) (c : ℕ) (item : StackItem) (o : Option ℕ)
    → IsLocal (Crypto.multisig_pubkeys h c item o)
unfolding Crypto.multisig_pubkeys
IsLocal-multisig_pubkeys h c item none = search (op_rules, IsLocal-pop_bytes_times) depth 20
IsLocal-multisig_pubkeys h c item (some _) = search op_rules depth 20

IsLocal-multisig_signatures :
    (h : Host) (c n : ℕ) (item : StackItem) (o : Option ℕ)
    → IsLocal (Crypto.multisig_signatures h c n item o)
unfolding Crypto.multisig_signatures
IsLocal-multisig_signatures h c n item none = search (op_rules, IsLocal-pop_bytes_times) depth 20
IsLocal-multisig_signatures h c n item (some _) = search op_rules depth 20

ruleset crypto_rules = (
  op_rules, IsLocal-hash_top, IsLocal-check_signature, IsLocal-multisig_pubkeys,
  IsLocal-multisig_signatures,
)

pub IsLocal-op_sha1 : (h : Host) (c : ℕ) (ins : Instruction) → IsLocal (Crypto.op_sha1 h c ins)
unfolding Crypto.op_sha1
IsLocal-op_sha1 h c ins = search crypto_rules depth 20

pub IsLocal-op_sha256 : (h : Host) (c : ℕ) (ins : Instruction) → IsLocal (Crypto.op_sha256 h c ins)
unfolding Crypto.op_sha256
IsLocal-op_sha256 h c ins = search crypto_rules depth 20

pub IsLocal-op_hash160 :
    (h : Host) (c : ℕ) (ins : Instruction) → IsLocal (Crypto.op_hash160 h c ins)
unfolding Crypto.op_hash160
IsLocal-op_hash160 h c ins = search crypto_rules depth 20

pub IsLocal-op_hash256 :
    (h : Host) (c : ℕ) (ins : Instruction) → IsLocal (Crypto.op_hash256 h c ins)
unfolding Crypto.op_hash256
IsLocal-op_hash256 h c ins = search crypto_rules depth 20

pub IsLocal-op_checksig :
    (h : Host) (c : ℕ) (ins : Instruction) → IsLocal (Crypto.op_checksig h c ins)
unfolding Crypto.op_checksig
IsLocal-op_checksig h c ins = search crypto_rules depth 20

pub IsLocal-op_verify : (h : Host) (c : ℕ) (ins : Instruction) → IsLocal (Crypto.op_verify h c ins)
unfolding Crypto.op_verify
IsLocal-op_verify h c ins = search crypto_rules depth 20

pub IsLocal-op_checkmultisig :
    (h : Host) (c : ℕ) (ins : Instruction) → IsLocal (Crypto.op_checkmultisig h c ins)
unfolding Crypto.op_checkmultisig
IsLocal-op_checkmultisig h c ins = search crypto_rules depth 20
