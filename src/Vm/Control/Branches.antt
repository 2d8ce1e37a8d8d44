-- ===== src/Vm/Control/Branches.antt =====
-- The branches of ExecuteInstruction that leave the control state alone, and the dispatch to them.
use neo_python.Prelude.{
  Bool, Bool-cases, List, [], arith, inl, inr, leb, not, true, ℕ, ◌&&◌, ◌++◌, ◌∷◌, ◌≡◌,
}
use neo_python.Vm.Control.{IsLocal, IsLocal-skip}
use neo_python.Vm.Control.CollectionOps.{
  IsLocal-op_append, IsLocal-op_arraysize, IsLocal-op_haskey, IsLocal-op_keys, IsLocal-op_newarray,
  IsLocal-op_newmap, IsLocal-op_pack, IsLocal-op_pickitem, IsLocal-op_remove, IsLocal-op_reverse,
  IsLocal-op_setitem, IsLocal-op_unpack, IsLocal-op_values,
}
use neo_python.Vm.Control.CryptoOps.{
  IsLocal-op_checkmultisig, IsLocal-op_checksig, IsLocal-op_hash160, IsLocal-op_hash256,
  IsLocal-op_sha1, IsLocal-op_sha256, IsLocal-op_verify,
}
use neo_python.Vm.Control.DataOps.{
  IsLocal-op_depth, IsLocal-op_drop, IsLocal-op_dup, IsLocal-op_dupfromaltstack,
  IsLocal-op_fromaltstack, IsLocal-op_nip, IsLocal-op_over, IsLocal-op_pick, IsLocal-op_push0,
  IsLocal-op_pushdata, IsLocal-op_pushint, IsLocal-op_roll, IsLocal-op_rot, IsLocal-op_swap,
  IsLocal-op_toaltstack, IsLocal-op_tuck, IsLocal-op_xdrop, IsLocal-op_xswap, IsLocal-op_xtuck,
}
use neo_python.Vm.Control.NumericOps.{
  IsLocal-op_abs, IsLocal-op_add, IsLocal-op_and, IsLocal-op_booland, IsLocal-op_boolor,
  IsLocal-op_cat, IsLocal-op_dec, IsLocal-op_div, IsLocal-op_equal, IsLocal-op_gt, IsLocal-op_gte,
  IsLocal-op_inc, IsLocal-op_invert, IsLocal-op_left, IsLocal-op_lt, IsLocal-op_lte, IsLocal-op_max,
  IsLocal-op_min, IsLocal-op_mod, IsLocal-op_mul, IsLocal-op_negate, IsLocal-op_not,
  IsLocal-op_numequal, IsLocal-op_numnotequal, IsLocal-op_nz, IsLocal-op_or, IsLocal-op_right,
  IsLocal-op_shl, IsLocal-op_shr, IsLocal-op_sign, IsLocal-op_size, IsLocal-op_sub,
  IsLocal-op_substr, IsLocal-op_within, IsLocal-op_xor,
}
use neo_python.Vm.Control.Primitives.{IsLocal-fail_with, op_rules}
use neo_python.Vm.Execute.{
  Branch, branches, collection_branches, crypto_branches, dispatch, flow_branches,
  isolation_branches, numeric_branches, push_branches, splice_branches, stack_branches,
}
use neo_python.Vm.Instruction.{Instruction}
use neo_python.Vm.Ops.Flow.{op_nop, op_throw, op_throwifnot}
use neo_python.Vm.State.{Host, throw, unknown_opcode}
use neo_python.Vm.OpCode
use neo_python.Vm.Ops.Flow

-- The opcodes whose branch neither jumps, loads or ends a context nor calls the interop service.
unfoldable pub is_data : ℕ → Bool
is_data op =
    not (leb OpCode.jmp op && leb op OpCode.tailcall)
    && not (leb OpCode.call_i op && leb op OpCode.call_edt)

abbrev pub takes : Branch → ℕ → Bool
takes b op = leb b.first op && leb op b.last

-- Each branch of a list that takes the opcode is local.
infixr 4 ◌◁◌
pub data LocalBranches (op : ℕ) : List Branch → Type 0 where
  no_branch : LocalBranches op []
  ◌◁◌ :
      {b : Branch} {bs : List Branch}
      → (takes b op ≡ true → (h : Host) (c : ℕ) (ins : Instruction) → IsLocal (b.handler h c ins))
      → LocalBranches op bs
      → LocalBranches op (b ∷ bs)

LocalBranches-append :
    (op : ℕ) (xs ys : List Branch)
    → LocalBranches op xs
    → LocalBranches op ys
    → LocalBranches op (xs ++ ys)
LocalBranches-append op [] ys no_branch l = l
LocalBranches-append op (x ∷ xs) ys (k ◁ ks) l = k ◁ (LocalBranches-append op xs ys ks l)

IsLocal-dispatch_all :
    (bs : List Branch) (h : Host) (c : ℕ) (ins : Instruction)
    → LocalBranches ins.op_code bs
    → IsLocal (dispatch bs h c ins)
unfolding dispatch
IsLocal-dispatch_all [] h c ins no_branch = IsLocal-fail_with unknown_opcode
IsLocal-dispatch_all (b ∷ bs) h c ins (k ◁ ks) = elim (Bool-cases (takes b ins.op_code)) [
  | inl taken ↦ rw taken (k taken h c ins)
  | inr passed ↦ rw passed (IsLocal-dispatch_all bs h c ins ks)
]

pub push_branches-local : (op : ℕ) → LocalBranches op push_branches
push_branches-local op =
    (λ _. IsLocal-op_pushdata)
    ◁ (λ _. IsLocal-op_pushint)
    ◁ (λ _. IsLocal-op_pushint)
    ◁ (λ _. IsLocal-op_push0)
    ◁ no_branch

pub stack_branches-local : (op : ℕ) → LocalBranches op stack_branches
stack_branches-local op =
    (λ _. IsLocal-op_dupfromaltstack)
    ◁ (λ _. IsLocal-op_toaltstack)
    ◁ (λ _. IsLocal-op_fromaltstack)
    ◁ (λ _. IsLocal-op_xdrop)
    ◁ (λ _. IsLocal-op_xswap)
    ◁ (λ _. IsLocal-op_xtuck)
    ◁ (λ _. IsLocal-op_depth)
    ◁ (λ _. IsLocal-op_drop)
    ◁ (λ _. IsLocal-op_dup)
    ◁ (λ _. IsLocal-op_nip)
    ◁ (λ _. IsLocal-op_over)
    ◁ (λ _. IsLocal-op_pick)
    ◁ (λ _. IsLocal-op_roll)
    ◁ (λ _. IsLocal-op_rot)
    ◁ (λ _. IsLocal-op_swap)
    ◁ (λ _. IsLocal-op_tuck)
    ◁ no_branch

pub splice_branches-local : (op : ℕ) → LocalBranches op splice_branches
splice_branches-local op =
    (λ _. IsLocal-op_cat)
    ◁ (λ _. IsLocal-op_substr)
    ◁ (λ _. IsLocal-op_left)
    ◁ (λ _. IsLocal-op_right)
    ◁ (λ _. IsLocal-op_size)
    ◁ (λ _. IsLocal-op_invert)
    ◁ (λ _. IsLocal-op_and)
    ◁ (λ _. IsLocal-op_or)
    ◁ (λ _. IsLocal-op_xor)
    ◁ (λ _. IsLocal-op_equal)
    ◁ no_branch

pub numeric_branches-local : (op : ℕ) → LocalBranches op numeric_branches
numeric_branches-local op =
    (λ _. IsLocal-op_inc)
    ◁ (λ _. IsLocal-op_dec)
    ◁ (λ _. IsLocal-op_sign)
    ◁ (λ _. IsLocal-op_negate)
    ◁ (λ _. IsLocal-op_abs)
    ◁ (λ _. IsLocal-op_not)
    ◁ (λ _. IsLocal-op_nz)
    ◁ (λ _. IsLocal-op_add)
    ◁ (λ _. IsLocal-op_sub)
    ◁ (λ _. IsLocal-op_mul)
    ◁ (λ _. IsLocal-op_div)
    ◁ (λ _. IsLocal-op_mod)
    ◁ (λ _. IsLocal-op_shl)
    ◁ (λ _. IsLocal-op_shr)
    ◁ (λ _. IsLocal-op_booland)
    ◁ (λ _. IsLocal-op_boolor)
    ◁ (λ _. IsLocal-op_numequal)
    ◁ (λ _. IsLocal-op_numnotequal)
    ◁ (λ _. IsLocal-op_lt)
    ◁ (λ _. IsLocal-op_gt)
    ◁ (λ _. IsLocal-op_lte)
    ◁ (λ _. IsLocal-op_gte)
    ◁ (λ _. IsLocal-op_min)
    ◁ (λ _. IsLocal-op_max)
    ◁ (λ _. IsLocal-op_within)
    ◁ no_branch

pub crypto_branches-local : (op : ℕ) → LocalBranches op crypto_branches
crypto_branches-local op =
    (λ _. IsLocal-op_sha1)
    ◁ (λ _. IsLocal-op_sha256)
    ◁ (λ _. IsLocal-op_hash160)
    ◁ (λ _. IsLocal-op_hash256)
    ◁ (λ _. IsLocal-op_checksig)
    ◁ (λ _. IsLocal-op_verify)
    ◁ (λ _. IsLocal-op_checkmultisig)
    ◁ no_branch

pub collection_branches-local : (op : ℕ) → LocalBranches op collection_branches
collection_branches-local op =
    (λ _. IsLocal-op_arraysize)
    ◁ (λ _. IsLocal-op_pack)
    ◁ (λ _. IsLocal-op_unpack)
    ◁ (λ _. IsLocal-op_pickitem)
    ◁ (λ _. IsLocal-op_setitem)
    ◁ (λ _. IsLocal-op_newarray)
    ◁ (λ _. IsLocal-op_newarray)
    ◁ (λ _. IsLocal-op_newmap)
    ◁ (λ _. IsLocal-op_append)
    ◁ (λ _. IsLocal-op_reverse)
    ◁ (λ _. IsLocal-op_remove)
    ◁ (λ _. IsLocal-op_haskey)
    ◁ (λ _. IsLocal-op_keys)
    ◁ (λ _. IsLocal-op_values)
    ◁ no_branch

pub IsLocal-op_nop : (h : Host) (c : ℕ) (ins : Instruction) → IsLocal (Flow.op_nop h c ins)
unfolding Flow.op_nop
IsLocal-op_nop h c ins = IsLocal-skip

pub IsLocal-op_throw : (h : Host) (c : ℕ) (ins : Instruction) → IsLocal (Flow.op_throw h c ins)
unfolding Flow.op_throw
IsLocal-op_throw h c ins = IsLocal-fail_with throw

pub IsLocal-op_throwifnot :
    (h : Host) (c : ℕ) (ins : Instruction) → IsLocal (Flow.op_throwifnot h c ins)
unfolding Flow.op_throwifnot
IsLocal-op_throwifnot h c ins = search op_rules depth 20

pub flow_branches-local : (op : ℕ) → is_data op ≡ true → LocalBranches op flow_branches
unfolding is_data
flow_branches-local op d =
    (λ _. IsLocal-op_nop)
    ◁ (λ t. absurd (ground arith))
    ◁ (λ t. absurd (ground arith))
    ◁ (λ t. absurd (ground arith))
    ◁ (λ t. absurd (ground arith))
    ◁ (λ t. absurd (ground arith))
    ◁ (λ t. absurd (ground arith))
    ◁ no_branch

pub isolation_branches-local : (op : ℕ) → is_data op ≡ true → LocalBranches op isolation_branches
unfolding is_data
isolation_branches-local op d =
    (λ t. absurd (ground arith))
    ◁ (λ t. absurd (ground arith))
    ◁ (λ _. IsLocal-op_throw)
    ◁ (λ _. IsLocal-op_throwifnot)
    ◁ no_branch

branches-local : (op : ℕ) → is_data op ≡ true → LocalBranches op branches
branches-local op d = LocalBranches-append op push_branches _ (push_branches-local op) (
    LocalBranches-append op flow_branches _ (flow_branches-local op d) (
      LocalBranches-append op stack_branches _ (stack_branches-local op) (
        LocalBranches-append op splice_branches _ (splice_branches-local op) (
          LocalBranches-append op numeric_branches _ (numeric_branches-local op) (
            LocalBranches-append op crypto_branches _ (crypto_branches-local op) (
              LocalBranches-append op collection_branches _ (collection_branches-local op)
                (isolation_branches-local op d)))))))

-- Every opcode but JMP to TAILCALL and CALL_I to CALL_EDT, the unknown ones included, leaves the
-- invocation stack and, of every context, the script, the pointer, the decoded instruction and
-- the count of return values as they were, whether its branch ends, returns early, faults or
-- raises.
pub IsLocal-dispatch :
    (h : Host) (c : ℕ) (ins : Instruction)
    → is_data ins.op_code ≡ true
    → IsLocal (dispatch branches h c ins)
IsLocal-dispatch h c ins d = IsLocal-dispatch_all branches h c ins (branches-local ins.op_code d)
