-- ===== src/Job/Lock.antt =====
-- Signet-locked jobs (`applySignedCoinbase`, `matchesLockedSubmission`) and the byte order of the
-- previous hash (`swapEndianWords`), src/models/MiningJob.ts.
use hc_pool.Base.{ℕ, ◌≡◌, ◌↔◌, refl, ap, true, List, [], ◌∷◌, arith}
use hc_pool.Base.Text.{Text, text_eq_iff, lower}
use hc_pool.Base.Hex.{Bytes, ℤ, int_eq_iff}
use hc_pool.Template.{Transaction, Bitcoin}
use hc_pool.Job.{
  MiningJob, matches_locked_submission, apply_signed_coinbase, rebuild_coinbase_parts,
  swap_endian_words,
}

-- A job whose coinbase was signed accepts a submission exactly when its second nonce (in either
-- case), its time and its version mask are those that were signed.
pub apply_signed_coinbase-matches_iff :
    (btc : Bitcoin) (job : MiningJob) (signed : Transaction) (locked_nonce nonce : Text)
    (locked_time time locked_mask mask : ℤ)
    → (matches_locked_submission
          (apply_signed_coinbase btc job signed locked_nonce locked_time locked_mask)
          nonce
          time
          mask
        ≡ true)
      ↔ ((lower locked_nonce ≡ lower nonce) × (locked_time ≡ time) × (locked_mask ≡ mask))
unfolding matches_locked_submission apply_signed_coinbase rebuild_coinbase_parts
apply_signed_coinbase-matches_iff btc job signed locked_nonce nonce locked_time time locked_mask
      mask =
    ground (
      arith,
      text_eq_iff (lower locked_nonce) (lower nonce),
      int_eq_iff locked_time time,
      int_eq_iff locked_mask mask,
    )

-- Whole words of 4 bytes.
abbrev pub words : List (ℕ × ℕ × ℕ × ℕ) → Bytes
words [] = []
words ((a, b, c, d) ∷ ws) = a ∷ b ∷ c ∷ d ∷ words ws

-- On whole words the swap reverses each word, so that a miner that swaps again has the hash back.
pub swap_endian_words-involutive :
    (ws : List (ℕ × ℕ × ℕ × ℕ)) → swap_endian_words (swap_endian_words (words ws)) ≡ words ws
unfolding swap_endian_words
swap_endian_words-involutive [] = refl
swap_endian_words-involutive ((a, b, c, d) ∷ ws) =
    ap (λ z. a ∷ b ∷ c ∷ d ∷ z) (swap_endian_words-involutive ws)
