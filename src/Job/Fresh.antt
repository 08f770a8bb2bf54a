-- ===== src/Job/Fresh.antt =====
-- The constructor and the submissions to the job that it makes, together.
use hc_pool.Base.{ℕ, ◌≤◌, ◌≡◌, refl, some, List, [], ◌∷◌, ◌++◌, length, replicate, arith}
use hc_pool.Base.Text.{Text}
use hc_pool.Base.Hex.{Bytes, hex}
use hc_pool.Base.Hex.Laws.{AreBytes}
use hc_pool.Template.{Transaction, JobTemplate, Bitcoin, script_of}
use hc_pool.Job.Coinbase.{JobConfig, AddressObject, build_coinbase}
use hc_pool.Job.{MiningJob, initial, new, rebuild_coinbase_parts}
use hc_pool.Job.Script.{build_coinbase-WellFormed}
use hc_pool.Job.Slot.{Round, Fits, AllFit, submit}
use hc_pool.Job.Search.{NotBefore, NotBefore-FoundInPlace}
use hc_pool.Job.RoundTrip.{Serializes, after_rounds, miner_coinbase-eq}

pub AreBytes-front : (bs cs : Bytes) → AreBytes (bs ++ cs) → AreBytes bs
AreBytes-front [] cs h = tt
AreBytes-front (b ∷ bs) cs (p, h) = (p, AreBytes-front bs cs h)

-- A job that the constructor makes, with its height encoded in at most 3 bytes: after any number of
-- submissions with 8 bytes of nonces each, the parts that the miner was sent, with the nonces of the
-- next such submission between them, are the serialised coinbase that the pool hashes for it.
-- Conditions: the script consists of bytes; its digits do not occur in the serialised coinbase at a
-- place before the script (`NotBefore`), as they do for height 0 without the pool identifier; and
-- the serialisation has the script between bytes that only its length can change (`Serializes`).
pub new-miner_coinbase :
    (btc : Bitcoin) (ser : Serializes btc) (config : JobConfig) (job_id owner : Text)
    (addresses : List AddressObject) (template : JobTemplate) (now : ℕ) (tx : Transaction)
    (job : MiningJob) (rounds : List Round) (s : Round)
    → build_coinbase btc config addresses template ≡ some tx
    → new btc config job_id owner addresses template now ≡ some job
    → length (btc.encode_number template.height) ≤ 3
    → NotBefore btc ser tx
    → AreBytes (script_of tx)
    → AllFit rounds
    → Fits s
    → job.coinbase_part1 ++ (hex s.e1 ++ (hex s.e2 ++ job.coinbase_part2))
      ≡ hex (
          btc.serialize
            (submit btc (after_rounds btc job template rounds) template s).0.coinbase_transaction)
unfolding new initial
new-miner_coinbase btc ser config job_id owner addresses template now tx job rounds s built made h
      found bytes fs f =
    let (one, w) = build_coinbase-WellFormed btc config addresses template tx h built in
    let start = initial job_id owner template.id tx now in
    let same : rebuild_coinbase_parts btc start ≡ job = ground arith in
    rw same at (
      miner_coinbase-eq btc ser w.keep (replicate 8 0) start template rounds s (omega arith)
        w.layout refl (NotBefore-FoundInPlace btc ser tx found)
        (AreBytes-front w.keep (replicate 8 0) (rw w.layout at bytes)) fs f)
