-- ===== src/Vm/Control/CollectionOps.antt =====
-- The instructions that leave the control state alone: collections.
use neo_python.Prelude.{ℕ}
use neo_python.Vm.Control.{IsLocal}
use neo_python.Vm.Control.CollectionParts.{collection_rules}
use neo_python.Vm.Instruction.{Instruction}
use neo_python.Vm.Ops.Collections.{
  op_append, op_arraysize, op_haskey, op_keys, op_newarray, op_newmap, op_pack, op_pickitem,
  op_remove, op_reverse, op_setitem, op_unpack, op_values,
}
use neo_python.Vm.State.{Host}
use neo_python.Vm.Ops.Collections

pub IsLocal-op_arraysize :
    (h : Host) (c : ℕ) (ins : Instruction) → IsLocal (Collections.op_arraysize h c ins)
unfolding Collections.op_arraysize
IsLocal-op_arraysize h c ins = search (collection_rules) depth 20

pub IsLocal-op_pack : (h : Host) (c : ℕ) (ins : Instruction) → IsLocal (Collections.op_pack h c ins)
unfolding Collections.op_pack
IsLocal-op_pack h c ins = search (collection_rules) depth 20

pub IsLocal-op_unpack :
    (h : Host) (c : ℕ) (ins : Instruction) → IsLocal (Collections.op_unpack h c ins)
unfolding Collections.op_unpack
IsLocal-op_unpack h c ins = search (collection_rules) depth 20

pub IsLocal-op_pickitem :
    (h : Host) (c : ℕ) (ins : Instruction) → IsLocal (Collections.op_pickitem h c ins)
unfolding Collections.op_pickitem
IsLocal-op_pickitem h c ins = search (collection_rules) depth 20

pub IsLocal-op_setitem :
    (h : Host) (c : ℕ) (ins : Instruction) → IsLocal (Collections.op_setitem h c ins)
unfolding Collections.op_setitem
IsLocal-op_setitem h c ins = search (collection_rules) depth 20

pub IsLocal-op_newarray :
    (h : Host) (c : ℕ) (ins : Instruction) → IsLocal (Collections.op_newarray h c ins)
unfolding Collections.op_newarray
IsLocal-op_newarray h c ins = search (collection_rules) depth 20

pub IsLocal-op_newmap :
    (h : Host) (c : ℕ) (ins : Instruction) → IsLocal (Collections.op_newmap h c ins)
unfolding Collections.op_newmap
IsLocal-op_newmap h c ins = search (collection_rules) depth 20

pub IsLocal-op_append :
    (h : Host) (c : ℕ) (ins : Instruction) → IsLocal (Collections.op_append h c ins)
unfolding Collections.op_append
IsLocal-op_append h c ins = search (collection_rules) depth 20

pub IsLocal-op_reverse :
    (h : Host) (c : ℕ) (ins : Instruction) → IsLocal (Collections.op_reverse h c ins)
unfolding Collections.op_reverse
IsLocal-op_reverse h c ins = search (collection_rules) depth 20

pub IsLocal-op_remove :
    (h : Host) (c : ℕ) (ins : Instruction) → IsLocal (Collections.op_remove h c ins)
unfolding Collections.op_remove
IsLocal-op_remove h c ins = search (collection_rules) depth 20

pub IsLocal-op_haskey :
    (h : Host) (c : ℕ) (ins : Instruction) → IsLocal (Collections.op_haskey h c ins)
unfolding Collections.op_haskey
IsLocal-op_haskey h c ins = search (collection_rules) depth 20

pub IsLocal-op_keys : (h : Host) (c : ℕ) (ins : Instruction) → IsLocal (Collections.op_keys h c ins)
unfolding Collections.op_keys
IsLocal-op_keys h c ins = search (collection_rules) depth 20

pub IsLocal-op_values :
    (h : Host) (c : ℕ) (ins : Instruction) → IsLocal (Collections.op_values h c ins)
unfolding Collections.op_values
IsLocal-op_values h c ins = search (collection_rules) depth 20
