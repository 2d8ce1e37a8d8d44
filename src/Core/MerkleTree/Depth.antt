-- ===== src/Core/MerkleTree/Depth.antt =====
-- neo/Core/Cryptography/MerkleTree.py: the depth of a tree, and the flags of Trim.
use native.Mathlib.Nat.{pow-suc}
use neo_python.Core.MerkleTree.{
  MerkleTreeNode, build, depth, inner, leaf, leaf_nodes, parents, root_of, trim, trim_node,
}
use neo_python.Core.MerkleTree.Leaves.{length-leaf_nodes, length-parents}
use neo_python.Prelude.{
  List, [], ap, arith, inl, inr, length, refl, some, suc, sym, zero, ℕ, ◌*◌, ◌+◌, ◌-◌, ◌<◌, ◌^◌,
  ◌∷◌, ◌≡◌, ◌≤◌, ◌⊎◌,
}

-- A number of levels for a number of nodes: enough for them, and no more than it takes.
Levels : ℕ → ℕ → Type 0
Levels k n = (n ≤ 2 ^ k) × (((n ≡ 1) × (k ≡ 0)) ⊎ ((2 ≤ n) × (2 ^ k ≤ 2 * (n - 1))))

Levels-suc : (k n p : ℕ) → 2 ≤ n → n ≤ 2 * p → 2 * p ≤ n + 1 → Levels k p → Levels (suc k) n
unfolding Levels
Levels-suc k n p two up down (le, inl (one, zero_levels)) =
    let pow : 2 ^ suc k ≡ 2 ^ k * 2 = pow-suc 2 k in
    let start : 2 ^ k ≡ 1 = rw zero_levels refl in
    (omega (arith, up, le, pow), inr (two, omega (arith, pow, start, one, up, down, two)))
Levels-suc k n p two up down (le, inr (more, below)) =
    let pow : 2 ^ suc k ≡ 2 ^ k * 2 = pow-suc 2 k in
    (omega (arith, up, le, pow), inr (two, omega (arith, pow, below, up, down, more)))

-- Every node of a level has the same depth.
AllDeep : ℕ → List MerkleTreeNode → Type 0
AllDeep d [] = Unit
AllDeep d (a ∷ nodes) = (depth a ≡ d) × AllDeep d nodes

module _ (hash256 : List ℕ → List ℕ) where
  parents-AllDeep :
      (d : ℕ) (nodes : List MerkleTreeNode)
      → AllDeep d nodes
      → AllDeep (suc d) (parents hash256 nodes)
  unfolding AllDeep parents depth
  parents-AllDeep d [] a = tt
  parents-AllDeep d (x ∷ []) (p, a) = (ap suc p, tt)
  parents-AllDeep d (x ∷ y ∷ nodes) (p, (q, a)) = (ap suc p, parents-AllDeep d nodes a)

  build-depth :
      (d fuel : ℕ) (nodes : List MerkleTreeNode) (root : MerkleTreeNode)
      → AllDeep d nodes
      → build hash256 fuel nodes ≡ some root
      → (k : ℕ) × (depth root ≡ k + d) × Levels k (length nodes)
  unfolding build AllDeep Levels
  build-depth d fuel [] root a p = absurd (ground (arith, p))
  build-depth d fuel (x ∷ []) root (q, a) p =
      let same : x ≡ root = ground (arith, p) in
      (0, rw (sym same) (omega (arith, q)), (omega arith, inl (refl, refl)))
  build-depth d zero (x ∷ y ∷ nodes) root a p = absurd (ground (arith, p))
  build-depth d (suc fuel) (x ∷ y ∷ nodes) root a p =
      let (k, q, l) =
        build-depth (suc d) fuel (parents hash256 (x ∷ y ∷ nodes)) root
          (parents-AllDeep d (x ∷ y ∷ nodes) a) p in
      let (_, _, up, down) = length-parents hash256 x y nodes in
      (
        suc k,
        omega (arith, q),
        Levels-suc k (length (x ∷ y ∷ nodes)) (length (parents hash256 (x ∷ y ∷ nodes)))
            (omega arith) up down l,
      )

  leaf_nodes-AllDeep : (hashes : List (List ℕ)) → AllDeep 1 (leaf_nodes hash256 hashes)
  unfolding AllDeep depth
  leaf_nodes-AllDeep [] = tt
  leaf_nodes-AllDeep (h ∷ hashes) = (refl, leaf_nodes-AllDeep hashes)

  -- The tree of two hashes or more has a depth of k + 2, where the number of hashes is above
  -- 2^k and no more than 2^(k+1).
  pub root_of-depth :
      (hashes : List (List ℕ)) (root : MerkleTreeNode)
      → root_of hash256 hashes ≡ some root
      → 2 ≤ length hashes
      → (k : ℕ) × (depth root ≡ k + 2) × (length hashes ≤ 2 * 2 ^ k) × (2 ^ k < length hashes)
  unfolding root_of Levels
  root_of-depth hashes root p two =
      let (k, q, (room, l)) =
        build-depth 1 (length hashes) (leaf_nodes hash256 hashes) root (leaf_nodes-AllDeep hashes)
          p in
      at_least_two k root q (omega (arith, length-leaf_nodes hash256 hashes, room)) (elim l [
        | inl (one, _) ↦ absurd (omega (arith, one, two, length-leaf_nodes hash256 hashes))
        | inr (_, below) ↦ omega (arith, below, length-leaf_nodes hash256 hashes)
      ])
    where
      at_least_two :
          (k : ℕ) (root : MerkleTreeNode)
          → depth root ≡ k + 1
          → length hashes ≤ 2 ^ k
          → 2 ^ k ≤ 2 * (length hashes - 1)
          → (k : ℕ) × (depth root ≡ k + 2) × (length hashes ≤ 2 * 2 ^ k) × (2 ^ k < length hashes)
      at_least_two zero root q room below = absurd (omega (arith, two, room))
      at_least_two (suc k) root q room below =
          let pow : 2 ^ suc k ≡ 2 ^ k * 2 = pow-suc 2 k in
          (k, omega (arith, q), omega (arith, pow, room), omega (arith, pow, below, two))

trim_node-two_flags :
    (node : MerkleTreeNode) (d a b : ℕ) (flags : List ℕ)
    → trim_node node 0 d (a ∷ b ∷ flags) ≡ trim_node node 0 d (a ∷ b ∷ [])
unfolding trim_node
trim_node-two_flags (leaf digest) d a b flags = refl
trim_node-two_flags (inner digest l r) d a b flags =
    rw (trim_node-two_flags l (d - 1) a b flags, trim_node-two_flags r (d - 1) a b flags) refl

-- Trim looks at no flags but the first two, whatever the depth of the tree.
pub trim-two_flags :
    (root : MerkleTreeNode) (a b : ℕ) (flags : List ℕ)
    → trim root (a ∷ b ∷ flags) ≡ trim root (a ∷ b ∷ [])
unfolding trim
trim-two_flags root a b flags = trim_node-two_flags root (depth root) a b flags
