-- ===== src/Vm/Safety/Run.antt =====
-- ExecuteInstruction and ExecuteNext keep the invariant.
use neo_python.Prelude.{
  Bool-cases, List, [], arith, inl, inr, refl, subst, sym, true, ℕ, ◌++◌, ◌+◌, ◌∷◌, ◌≡◌, ◌≤◌,
}
use neo_python.Vm.Control.{IsLocal}
use neo_python.Vm.Control.Branches.{
  IsLocal-op_nop, IsLocal-op_throw, IsLocal-op_throwifnot, LocalBranches, collection_branches-local,
  crypto_branches-local, no_branch, numeric_branches-local, push_branches-local,
  splice_branches-local, stack_branches-local, takes, ◌◁◌,
}
use neo_python.Vm.Control.Primitives.{IsLocal-fail_with}
use neo_python.Vm.Execute.{
  Branch, branches, collection_branches, crypto_branches, dispatch, flow_branches,
  isolation_branches, numeric_branches, push_branches, splice_branches, stack_branches,
}
use neo_python.Vm.Instruction.{Instruction, instruction_size, script_length}
use neo_python.Vm.Instruction.Bounds.{instruction_size-jump}
use neo_python.Vm.Ops.Flow.{op_ret}
use neo_python.Vm.Safety.{Triple, Triple-weaken}
use neo_python.Vm.Safety.Calls.{Kept, Triple-op_call, Triple-op_call_i}
use neo_python.Vm.Safety.Handlers.{
  Never, Triple-Kept, Triple-op_appcall, Triple-op_call_e, Triple-op_ret, Triple-op_syscall,
}
use neo_python.Vm.Safety.Jumps.{Triple-op_jmp}
use neo_python.Vm.State.{Action, ExecutionContext, Host, unknown_opcode}
use neo_python.Vm.OpCode

module _ (c : ℕ) (k : ExecutionContext) (h : Host) (ins : Instruction) where
  -- Each branch that takes the opcode keeps the invariant.
  data KeptBranches : List Branch → Type 0 where
    no_more : KeptBranches []
    one_more :
        (b : Branch) (bs : List Branch)
        → (takes b ins.op_code ≡ true → Triple (Kept c k) (b.handler h c ins) (λ _. Kept c k))
        → KeptBranches bs
        → KeptBranches (b ∷ bs)

  KeptBranches-local : (bs : List Branch) → LocalBranches ins.op_code bs → KeptBranches bs
  KeptBranches-local _ no_branch = no_more
  KeptBranches-local (b ∷ bs) (l ◁ ls) =
      one_more b bs (λ t. Triple-Kept c k _ (l t h c ins)) (KeptBranches-local bs ls)

  KeptBranches-append :
      (xs ys : List Branch) → KeptBranches xs → KeptBranches ys → KeptBranches (xs ++ ys)
  KeptBranches-append _ ys no_more q = q
  KeptBranches-append _ ys (one_more x xs t p) q =
      one_more x (xs ++ ys) t (KeptBranches-append xs ys p q)

  Triple-dispatch_all :
      (bs : List Branch) → KeptBranches bs → Triple (Kept c k) (dispatch bs h c ins) (λ _. Kept c k)
  unfolding dispatch
  Triple-dispatch_all [] p = Triple-Kept c k _ (IsLocal-fail_with unknown_opcode)
  Triple-dispatch_all _ (one_more b bs t p) = elim (Bool-cases (takes b ins.op_code)) [
    | inl taken ↦ rw taken (t taken)
    | inr passed ↦ rw passed (Triple-dispatch_all bs p)
  ]

  Triple-Never :
      (m : Action (Unit {0}))
      → Triple (Kept c k) m (λ _. Never)
      → Triple (Kept c k) m (λ _. Kept c k)
  Triple-Never m t = Triple-weaken _ _ _ _ (λ a e f. absurd (ground (arith, f))) t

  module _ (l : (bs : List ℕ) → IsLocal (h.service_invoke bs))
      (fits_script : k.instruction_pointer + instruction_size ins ≤ script_length k.script) where
    flow_kept : KeptBranches flow_branches
    flow_kept =
        one_more _ _ (λ _. Triple-Kept c k _ (IsLocal-op_nop h c ins))
          (one_more _ _
            (λ t. Triple-Never _ (
              Triple-op_jmp c k h ins (
                subst (λ n. k.instruction_pointer + n ≤ script_length k.script)
                  (instruction_size-jump ins t) fits_script)))
            (one_more _ _ (λ _. Triple-op_call c k h ins)
              (one_more _ _ (λ _. Triple-Never _ (Triple-op_ret c k h ins))
                (one_more _ _ (λ t. Triple-op_appcall c k h ins (ground arith))
                  (one_more _ _ (λ t. Triple-op_appcall c k h ins (ground arith))
                    (one_more _ _ (λ _. Triple-op_syscall c k h ins l) no_more))))))

    isolation_kept : KeptBranches isolation_branches
    isolation_kept =
        one_more _ _ (λ _. Triple-op_call_i c k h ins)
          (one_more _ _ (λ _. Triple-op_call_e c k h ins)
            (one_more _ _ (λ _. Triple-Kept c k _ (IsLocal-op_throw h c ins))
              (one_more _ _ (λ _. Triple-Kept c k _ (IsLocal-op_throwifnot h c ins)) no_more)))

    pub Triple-dispatch : Triple (Kept c k) (dispatch branches h c ins) (λ _. Kept c k)
    Triple-dispatch =
        let op = ins.op_code in
        Triple-dispatch_all branches (
          KeptBranches-append push_branches _ (KeptBranches-local _ (push_branches-local op)) (
            KeptBranches-append flow_branches _ flow_kept (
              KeptBranches-append stack_branches _ (KeptBranches-local _ (stack_branches-local op))
                (KeptBranches-append splice_branches _
                  (KeptBranches-local _ (splice_branches-local op))
                  (KeptBranches-append numeric_branches _
                    (KeptBranches-local _ (numeric_branches-local op))
                    (KeptBranches-append crypto_branches _
                      (KeptBranches-local _ (crypto_branches-local op))
                      (KeptBranches-append collection_branches _
                        (KeptBranches-local _ (collection_branches-local op)) isolation_kept)))))))

-- The branch of RET.
pub dispatch-ret :
    (h : Host) (c : ℕ) (ins : Instruction)
    → ins.op_code ≡ OpCode.ret
    → dispatch branches h c ins ≡ op_ret h c ins
unfolding dispatch
dispatch-ret h c ins e = subst (λ op. at_code op) (sym e) refl
  where
    at_code : ℕ → Type 0
    at_code op =
        let i : Instruction = record { op_code = op; operand = ins.operand } in
        dispatch branches h c i ≡ op_ret h c i
