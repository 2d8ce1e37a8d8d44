-- ===== src/Core/MerkleTree.antt =====
-- neo/Core/Cryptography/MerkleTree.py. Crypto.Hash256 is a parameter; it gives the 32 bytes that a
-- UInt256 takes.
pub mod Leaves
pub mod Depth
use neo_python.Prelude.{
  Bool, List, Option, [], false, get_elem?, if◌then◌else◌, length, none, some, suc, true, zero, ℕ,
  ◌&&◌, ◌*◌, ◌++◌, ◌+◌, ◌-◌, ◌==◌, ◌∷◌,
}

-- MerkleTreeNode. Its parent, which nothing reads, is left out.
pub data MerkleTreeNode : Type 0 where
  leaf : List ℕ → MerkleTreeNode
  inner : List ℕ → MerkleTreeNode → MerkleTreeNode → MerkleTreeNode

-- `node.Hash`
abbrev pub node_hash : MerkleTreeNode → List ℕ
node_hash (leaf digest) = digest
node_hash (inner digest l r) = digest

-- IsLeaf
abbrev pub is_leaf : MerkleTreeNode → Bool
is_leaf (leaf digest) = true
is_leaf (inner digest l r) = false

module _ (hash256 : List ℕ → List ℕ) where
  -- A parent of two nodes.
  abbrev pub join : MerkleTreeNode → MerkleTreeNode → MerkleTreeNode
  join l r = inner (hash256 (node_hash l ++ node_hash r)) l r

  -- The parents of one level: a last node without a neighbour is joined with itself.
  unfoldable pub parents : List MerkleTreeNode → List MerkleTreeNode
  parents [] = []
  parents (a ∷ []) = join a a ∷ []
  parents (a ∷ b ∷ leaves) = join a b ∷ parents leaves

  -- __Build, with fuel for its levels: `none` is ValueError, or no fuel.
  unfoldable pub build : ℕ → List MerkleTreeNode → Option MerkleTreeNode
  build fuel [] = none
  build fuel (a ∷ []) = some a
  build zero (a ∷ b ∷ leaves) = none
  build (suc fuel) (a ∷ b ∷ leaves) = build fuel (parents (a ∷ b ∷ leaves))

  abbrev pub leaf_nodes : List (List ℕ) → List MerkleTreeNode
  leaf_nodes [] = []
  leaf_nodes (digest ∷ hashes) = leaf digest ∷ leaf_nodes hashes

  -- The root of MerkleTree.__init__
  unfoldable pub root_of : List (List ℕ) → Option MerkleTreeNode
  root_of hashes = build (length hashes) (leaf_nodes hashes)

  abbrev pub root_hash : Option MerkleTreeNode → Option (List ℕ)
  root_hash none = none
  root_hash (some node) = some (node_hash node)

  -- ComputeRoot
  unfoldable pub compute_root : List (List ℕ) → Option (List ℕ)
  compute_root [] = none
  compute_root (digest ∷ []) = some digest
  compute_root (digest ∷ next ∷ hashes) = root_hash (root_of (digest ∷ next ∷ hashes))

-- The loop of MerkleTree.__init__ that counts the depth, down the left children.
unfoldable pub depth : MerkleTreeNode → ℕ
depth (leaf digest) = 1
depth (inner digest l r) = suc (depth l)

-- __DepthFirstSearch; ToHashArray makes a set of it.
unfoldable pub depth_first_search : MerkleTreeNode → List (List ℕ)
depth_first_search (leaf digest) = digest ∷ []
depth_first_search (inner digest l r) = depth_first_search l ++ depth_first_search r

-- A flag, 0 where Trim has filled up.
abbrev pub flag_at : List ℕ → ℕ → ℕ
flag_at flags i = elim (get_elem? flags i) [ none ↦ 0 | some flag ↦ flag ]

-- A node whose children are erased if they have none themselves.
abbrev pub erase_trimmed : List ℕ → MerkleTreeNode → MerkleTreeNode → MerkleTreeNode
erase_trimmed digest l r = if is_leaf l && is_leaf r then leaf digest else inner digest l r

-- _TrimNode. Both children are given the same index. The last node of a level may stand under its parent
-- twice, as one object: the second call, with the same arguments, changes nothing more there.
unfoldable pub trim_node : MerkleTreeNode → ℕ → ℕ → List ℕ → MerkleTreeNode
trim_node (leaf digest) index d flags = leaf digest
trim_node (inner digest l r) index d flags =
    let tl = trim_node l (index * 2) (d - 1) flags in
    let tr = trim_node r (index * 2) (d - 1) flags in
    if d == 1
    then inner digest l r
    else if d == 2
    then (if flag_at flags (index * 2) == 0 && flag_at flags (index * 2 + 1) == 0
        then leaf digest
        else inner digest l r)
    else erase_trimmed digest tl tr

-- Trim
unfoldable pub trim : MerkleTreeNode → List ℕ → MerkleTreeNode
trim root flags = trim_node root 0 (depth root) flags
