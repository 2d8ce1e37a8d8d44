-- ===== src/Core/MerkleTree/Leaves.antt =====
-- neo/Core/Cryptography/MerkleTree.py: the build ends, and its leaves are the hashes it was given.
use neo_python.Core.MerkleTree.{
  MerkleTreeNode, build, depth_first_search, leaf_nodes, parents, root_of,
}
use neo_python.Prelude.{
  Bool, List, [], ap, arith, bytes_eq, false, length, refl, some, suc, sym, zero, ℕ, ◌*◌, ◌++◌, ◌+◌,
  ◌<◌, ◌||◌, ◌∙◌, ◌∷◌, ◌≡◌, ◌≤◌,
}

-- Whether a hash stands in a list.
unfoldable pub contains : List ℕ → List (List ℕ) → Bool
contains h [] = false
contains h (x ∷ xs) = bytes_eq h x || contains h xs

contains-append :
    (h : List ℕ) (xs ys : List (List ℕ)) → contains h (xs ++ ys) ≡ (contains h xs || contains h ys)
unfolding contains
contains-append h [] ys = refl
contains-append h (x ∷ xs) ys = ground (arith, contains-append h xs ys)

module _ (hash256 : List ℕ → List ℕ) where
  pub length-parents :
      (a b : MerkleTreeNode) (leaves : List MerkleTreeNode)
      → (1 ≤ length (parents hash256 (a ∷ b ∷ leaves)))
        × (length (parents hash256 (a ∷ b ∷ leaves)) < length (a ∷ b ∷ leaves))
        × (length (a ∷ b ∷ leaves) ≤ 2 * length (parents hash256 (a ∷ b ∷ leaves)))
        × (2 * length (parents hash256 (a ∷ b ∷ leaves)) ≤ length (a ∷ b ∷ leaves) + 1)
  unfolding parents
  length-parents a b [] = (omega arith, omega arith, omega arith, omega arith)
  length-parents a b (c ∷ []) = (omega arith, omega arith, omega arith, omega arith)
  length-parents a b (c ∷ d ∷ leaves) =
      let (p, q, r, s) = length-parents c d leaves in
      (omega arith, omega (arith, q), omega (arith, r), omega (arith, s))

  -- With a unit of fuel for each node, the build of a list that is not empty gives a root.
  pub build-root :
      (fuel : ℕ) (nodes : List MerkleTreeNode)
      → 1 ≤ length nodes
      → length nodes ≤ suc fuel
      → (root : MerkleTreeNode) × (build hash256 fuel nodes ≡ some root)
  unfolding build
  build-root fuel [] some_node le = absurd (omega (arith, some_node))
  build-root fuel (a ∷ []) some_node le = (a, refl)
  build-root zero (a ∷ b ∷ nodes) some_node le = absurd (omega (arith, le))
  build-root (suc fuel) (a ∷ b ∷ nodes) some_node le =
      let (p, q, _, _) = length-parents a b nodes in
      build-root fuel (parents hash256 (a ∷ b ∷ nodes)) p (omega (arith, q, le))

  -- Whether a hash stands among the leaves of some nodes.
  forest_contains : List ℕ → List MerkleTreeNode → Bool
  forest_contains h [] = false
  forest_contains h (a ∷ nodes) = contains h (depth_first_search a) || forest_contains h nodes

  forest_contains-parents :
      (h : List ℕ) (nodes : List MerkleTreeNode)
      → forest_contains h (parents hash256 nodes) ≡ forest_contains h nodes
  unfolding forest_contains parents depth_first_search
  forest_contains-parents h [] = refl
  forest_contains-parents h (a ∷ []) =
      ground (arith, contains-append h (depth_first_search a) (depth_first_search a))
  forest_contains-parents h (a ∷ b ∷ nodes) = ground (
    arith,
    contains-append h (depth_first_search a) (depth_first_search b),
    forest_contains-parents h nodes,
  )

  build-contains :
      (h : List ℕ) (fuel : ℕ) (nodes : List MerkleTreeNode) (root : MerkleTreeNode)
      → build hash256 fuel nodes ≡ some root
      → contains h (depth_first_search root) ≡ forest_contains h nodes
  unfolding build forest_contains
  build-contains h fuel [] root p = absurd (ground (arith, p))
  build-contains h fuel (a ∷ []) root p =
      let same : a ≡ root = ground (arith, p) in rw (sym same) (ground arith)
  build-contains h zero (a ∷ b ∷ nodes) root p = absurd (ground (arith, p))
  build-contains h (suc fuel) (a ∷ b ∷ nodes) root p =
      build-contains h fuel (parents hash256 (a ∷ b ∷ nodes)) root p
      ∙ forest_contains-parents h (a ∷ b ∷ nodes)

  forest_contains-leaf_nodes :
      (h : List ℕ) (hashes : List (List ℕ))
      → forest_contains h (leaf_nodes hash256 hashes) ≡ contains h hashes
  unfolding forest_contains contains depth_first_search
  forest_contains-leaf_nodes h [] = refl
  forest_contains-leaf_nodes h (x ∷ hashes) = ground (arith, forest_contains-leaf_nodes h hashes)

  pub length-leaf_nodes :
      (hashes : List (List ℕ)) → length (leaf_nodes hash256 hashes) ≡ length hashes
  length-leaf_nodes [] = refl
  length-leaf_nodes (x ∷ hashes) = ap suc (length-leaf_nodes hashes)

  -- A Merkle tree of one hash or more has a root, and what the search for its leaves collects
  -- are the hashes that it was built of, as sets.
  pub root_of-hashes :
      (hashes : List (List ℕ))
      → 1 ≤ length hashes
      → (root : MerkleTreeNode) × (root_of hash256 hashes ≡ some root)
        × ((h : List ℕ) → contains h (depth_first_search root) ≡ contains h hashes)
  unfolding root_of
  root_of-hashes hashes some_hash =
      let (root, p) =
        build-root (length hashes) (leaf_nodes hash256 hashes)
          (omega (arith, length-leaf_nodes hashes, some_hash))
          (omega (arith, length-leaf_nodes hashes)) in
      (
        root,
        p,
        λ h.
            build-contains h (length hashes) (leaf_nodes hash256 hashes) root p
            ∙ forest_contains-leaf_nodes h hashes,
      )
