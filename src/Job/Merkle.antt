-- ===== src/Job/Merkle.antt =====
-- mujina-miner/src/job_source/merkle.rs: the root that is climbed to, against the tree of a block.
use mujina.Common.{
  ℕ, zero, suc, ◌≤◌, ◌≡◌, refl, arith, List, [], ◌∷◌, ◌++◌, Option, none, some, ok, length,
}
use mujina.Extranonce.{Extranonce}
use mujina.Job.{MerkleRootTemplate, climb, coinbase_bytes, template_merkle_root}

module _ (sha256d : List ℕ → List ℕ) where
  -- One level of a block's tree: each pair of nodes has a parent, and a node left over is its own
  -- partner.
  unfoldable pub level : List (List ℕ) → List (List ℕ)
  level [] = []
  level (a ∷ []) = sha256d (a ++ a) ∷ []
  level (a ∷ b ∷ rest) = sha256d (a ++ b) ∷ level rest

  -- The root of the tree over the ids of all transactions, within `n` levels.
  unfoldable pub tree_root : ℕ → List (List ℕ) → Option (List ℕ)
  unfolding level
  tree_root n [] = none
  tree_root n (a ∷ []) = some a
  tree_root zero (a ∷ b ∷ rest) = none
  tree_root (suc n) (a ∷ b ∷ rest) = tree_root n (level (a ∷ b ∷ rest))

  -- The branches that a pool sends, from the ids of all transactions but the first one: the partner
  -- of the first node on each level.
  unfoldable pub branches_of : ℕ → List (List ℕ) → List (List ℕ)
  unfolding level
  branches_of n [] = []
  branches_of zero (b ∷ rest) = []
  branches_of (suc n) (b ∷ rest) = b ∷ branches_of n (level rest)

  length-level : (xs : List (List ℕ)) → length (level xs) ≤ length xs
  unfolding level
  length-level [] = omega arith
  length-level (a ∷ []) = omega arith
  length-level (a ∷ b ∷ rest) = omega (arith, length-level rest)

  tree_root-climb :
      (txid : List ℕ → Option (List ℕ)) (n : ℕ) (id : List ℕ) (others : List (List ℕ))
      → length others ≤ n
      → tree_root n (id ∷ others) ≡ some (climb txid sha256d id (branches_of n others))
  unfolding tree_root branches_of level climb
  tree_root-climb txid n id [] h = refl
  tree_root-climb txid zero id (b ∷ rest) h = absurd (omega arith)
  tree_root-climb txid (suc n) id (b ∷ rest) h =
      let short = length-level rest in
      tree_root-climb txid n (sha256d (id ++ b)) (level rest) (omega arith)

-- Let a template have the branches that a pool makes from the ids of the transactions other than
-- the coinbase, with levels enough for them. With any extranonce for which the coinbase bytes are a
-- transaction, the computed root is the root of the tree over the coinbase's id and those others.
pub template_merkle_root-tree_root :
    (txid : List ℕ → Option (List ℕ)) (sha256d : List ℕ → List ℕ) (template : MerkleRootTemplate)
    (extranonce : Extranonce) (n : ℕ) (others : List (List ℕ)) (id : List ℕ)
    → length others ≤ n
    → template.merkle_branches ≡ branches_of sha256d n others
    → txid (coinbase_bytes txid sha256d template extranonce) ≡ some id
    → (root : List ℕ) × (tree_root sha256d n (id ∷ others) ≡ some root)
      × (template_merkle_root txid sha256d template extranonce ≡ ok root)
unfolding template_merkle_root
template_merkle_root-tree_root txid sha256d template extranonce n others id h made is_tx = (
  climb txid sha256d id (branches_of sha256d n others),
  tree_root-climb sha256d txid n id others h,
  rw (template_merkle_root, is_tx, made) refl,
)
