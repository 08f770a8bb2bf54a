-- ===== src/NodeRpc/Polling.antt =====
-- Which heights `pollMiningInfo` of src/services/bitcoin-rpc.service.ts publishes.
use hc_pool.Base.{
  ℕ, not, ◌||◌, inl, inr, sym, ◌∙◌, Bool-cases, ◌≡◌, refl, ap, Bool, true, Option, none, some, List,
  [], ◌∷◌, ltb, if◌then◌else◌, arith,
}
use hc_pool.NodeRpc.{MiningInfo, BitcoinRpc, new, poll_mining_info, get_mining_info}

abbrev consed : Option MiningInfo → List MiningInfo → List MiningInfo
consed none rest = rest
consed (some info) rest = info ∷ rest

-- What is published over a sequence of polls, failures and empty answers included.
pub published : BitcoinRpc → List (Option (Option MiningInfo)) → List MiningInfo
published r [] = []
published r (answer ∷ answers) =
    let (r', info) = poll_mining_info answer r in consed info (published r' answers)

-- The answers that are above all answers before them.
abbrev is_new : Option ℕ → ℕ → Bool
is_new none height = true
is_new (some best) height = ltb best height

pub records : Option ℕ → List (Option (Option MiningInfo)) → List MiningInfo
records best [] = []
records best (some (some info) ∷ answers) =
    if is_new best info.blocks
    then info ∷ records (some info.blocks) answers
    else records best answers
records best (_ ∷ answers) = records best answers

abbrev best_of : BitcoinRpc → Option ℕ
best_of r = if r.has_published_mining_info then some r.block_height else none

is_new-best_of :
    (r : BitcoinRpc) (height : ℕ)
    → (not r.has_published_mining_info || ltb r.block_height height) ≡ is_new (best_of r) height
is_new-best_of r height = ground arith

published_from :
    (r : BitcoinRpc) (answers : List (Option (Option MiningInfo)))
    → published r answers ≡ records (best_of r) answers
unfolding published records poll_mining_info get_mining_info
published_from r [] = refl
published_from r (none ∷ answers) = published_from r answers
published_from r (some none ∷ answers) = published_from r answers
published_from r (some (some info) ∷ answers) =
    elim (Bool-cases (not r.has_published_mining_info || ltb r.block_height info.blocks)) [
      | inl above ↦
          rw (above, sym (is_new-best_of r info.blocks) ∙ above)
            (ap (◌∷◌ info) (
              published_from
                (record r {
                  new_block = some info;
                  has_published_mining_info = true;
                  block_height = info.blocks;
                })
                answers))
      | inr old ↦ rw (old, sym (is_new-best_of r info.blocks) ∙ old) (published_from r answers)
    ]

-- Whatever the node answers, with failures and empty answers between, a poll publishes exactly the
-- answers that are above all answers before them: no height twice, none missed, and none below.
pub published-records :
    (answers : List (Option (Option MiningInfo))) → published new answers ≡ records none answers
unfolding new
published-records answers = published_from new answers
