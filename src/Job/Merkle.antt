-- ===== src/Job/Merkle.antt =====
-- The merkle root of a submission (`calculateMerkleRootHash` of src/models/MiningJob.ts): the loop
-- over the 64-byte buffer is the fold of the branch.
use mathlib.Core.List.{append-nil}
use hc_pool.Base.{
  ℕ, ◌+◌, ◌≡◌, refl, ap, sym, ◌∙◌, List, [], ◌∷◌, ◌++◌, length, take, drop, replicate, take_append,
  drop_append, length-append, length-drop, arith,
}
use hc_pool.Base.Text.{Text}
use hc_pool.Base.Hex.{Bytes, unhex}
use hc_pool.Template.{Bitcoin}
use hc_pool.Job.{set_at, merkle_round, merkle_rounds, calculate_merkle_root_hash}

-- The root that a merkle branch proves for a leaf.
unfoldable pub branch_root : (Bytes → Bytes) → Bytes → List Text → Bytes
branch_root hash leaf [] = leaf
branch_root hash leaf (b ∷ bs) = branch_root hash (hash (leaf ++ unhex b)) bs

-- Each entry of the branch is the text of 32 bytes.
abbrev pub AreHashes : List Text → Type 0
AreHashes [] = Unit {0}
AreHashes (b ∷ bs) = (length (unhex b) ≡ 32) × AreHashes bs

take_exact : (n : ℕ) (xs ys : Bytes) → length xs ≡ n → take n (xs ++ ys) ≡ xs
take_exact n xs ys e = ap (λ k. take k (xs ++ ys)) (sym e) ∙ take_append xs ys

drop_exact : (n : ℕ) (xs ys : Bytes) → length xs ≡ n → drop n (xs ++ ys) ≡ ys
drop_exact n xs ys e = ap (λ k. drop k (xs ++ ys)) (sym e) ∙ drop_append xs ys

drop_all : (xs : Bytes) (n : ℕ) → length xs ≡ n → drop n xs ≡ []
drop_all xs n e = ap (λ z. drop n z) (sym (append-nil xs)) ∙ drop_exact n xs [] e

module _ (btc : Bitcoin) (size : (bs : Bytes) → length (btc.hash256 bs) ≡ 32) where
  merkle_round-eq :
      (leaf right : Bytes) (b : Text)
      → length leaf ≡ 32
      → length right ≡ 32
      → length (unhex b) ≡ 32
      → merkle_round btc (leaf ++ right) b ≡ btc.hash256 (leaf ++ unhex b) ++ unhex b
  unfolding merkle_round
  merkle_round-eq leaf right b l r h =
      let filled : set_at 32 (unhex b) (leaf ++ right) ≡ leaf ++ unhex b =
        rw
          (
            take_exact 32 leaf right l,
            drop_all (leaf ++ right) (32 + length (unhex b))
                (omega (arith, length-append leaf right)),
          )
          (ap (◌++◌ leaf) (append-nil (unhex b))) in
      let hash = btc.hash256 (leaf ++ unhex b) in
      let back : drop (0 + length hash) (leaf ++ unhex b) ≡ unhex b =
        drop_exact (0 + length hash) leaf (unhex b) (omega (arith, size (leaf ++ unhex b), l)) in
      ap (λ z. btc.hash256 z ++ drop (0 + length (btc.hash256 z)) z) filled ∙ ap (◌++◌ hash) back

  merkle_rounds-eq :
      (leaf right : Bytes) (branches : List Text)
      → length leaf ≡ 32
      → length right ≡ 32
      → AreHashes branches
      → take 32 (merkle_rounds btc (leaf ++ right) branches) ≡ branch_root btc.hash256 leaf branches
  unfolding merkle_rounds branch_root
  merkle_rounds-eq leaf right [] l r h = take_exact 32 leaf right l
  merkle_rounds-eq leaf right (b ∷ bs) l r (h, hs) =
      ap (λ z. take 32 (merkle_rounds btc z bs)) (merkle_round-eq leaf right b l r h)
      ∙ merkle_rounds-eq (btc.hash256 (leaf ++ unhex b)) (unhex b) bs (size _) h hs

  -- The loop computes the root that the branch gives for the new coinbase hash: no byte of an
  -- earlier round is left in the buffer.
  pub calculate_merkle_root_hash-eq :
      (leaf : Bytes) (branches : List Text)
      → length leaf ≡ 32
      → AreHashes branches
      → calculate_merkle_root_hash btc leaf branches ≡ branch_root btc.hash256 leaf branches
  unfolding calculate_merkle_root_hash
  calculate_merkle_root_hash-eq leaf branches l h =
      let zeros = replicate {A = ℕ} 64 0 in
      let split : set_at 0 leaf zeros ≡ leaf ++ drop (0 + length leaf) zeros = refl in
      ap (λ z. take 32 (merkle_rounds btc z branches)) split
      ∙ merkle_rounds-eq leaf (drop (0 + length leaf) zeros) branches l
          (length-drop (0 + length leaf) zeros ∙ omega (arith, l)) h
