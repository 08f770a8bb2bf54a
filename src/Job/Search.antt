-- ===== src/Job/Search.antt =====
-- Where `indexOf` finds the input script in the serialised coinbase (`rebuildCoinbaseParts` of
-- src/models/MiningJob.ts).
use hc_pool.Base.{◌≡◌, refl, ap, ◌∙◌, Bool, true, false, ◌||◌, some, [], ◌∷◌, ◌++◌, length, arith}
use hc_pool.Base.Text.{Text, starts_with, index_of}
use hc_pool.Base.Hex.{hex}
use hc_pool.Base.Hex.Laws.{hex-append}
use hc_pool.Template.{Transaction, Bitcoin, script_of}
use hc_pool.Job.RoundTrip.{Serializes, FoundInPlace}

-- Whether a text starts at one of the places of `front`, with `rest` behind it.
unfoldable pub occurs_before : Text → Text → Text → Bool
occurs_before needle [] rest = false
occurs_before needle (c ∷ front) rest =
    starts_with needle (c ∷ (front ++ rest)) || occurs_before needle front rest

starts_with-append : (needle back : Text) → starts_with needle (needle ++ back) ≡ true
unfolding starts_with
starts_with-append [] back = refl
starts_with-append (c ∷ needle) back = ground (arith, starts_with-append needle back)

index_of-start : (needle s : Text) → starts_with needle s ≡ true → index_of needle s ≡ some 0
unfolding index_of
index_of-start needle [] h = rw h refl
index_of-start needle (c ∷ s) h = rw h refl

index_of-first :
    (needle front back : Text)
    → occurs_before needle front (needle ++ back) ≡ false
    → index_of needle (front ++ (needle ++ back)) ≡ some (length front)
unfolding index_of occurs_before
index_of-first needle [] back h =
    index_of-start needle (needle ++ back) (starts_with-append needle back)
index_of-first needle (c ∷ front) back h = ground (arith, h, index_of-first needle front back)

-- The digits of the script do not occur in the serialised coinbase at a place before the script.
abbrev pub NotBefore : (btc : Bitcoin) → Serializes btc → Transaction → Type 0
NotBefore btc ser tx =
    occurs_before (hex (script_of tx)) (hex (ser.head tx)) (hex (script_of tx) ++ hex (ser.foot tx))
    ≡ false

pub NotBefore-FoundInPlace :
    (btc : Bitcoin) (ser : Serializes btc) (tx : Transaction)
    → NotBefore btc ser tx
    → FoundInPlace btc ser tx
NotBefore-FoundInPlace btc ser tx h =
    let script = script_of tx in
    let digits : hex (btc.serialize tx) ≡ hex (ser.head tx) ++ (hex script ++ hex (ser.foot tx)) =
      ap hex (ser.layout tx)
      ∙ hex-append (ser.head tx) (script ++ ser.foot tx)
      ∙ ap (◌++◌ (hex (ser.head tx))) (hex-append script (ser.foot tx)) in
    ap (index_of (hex script)) digits
    ∙ index_of-first (hex script) (hex (ser.head tx)) (hex (ser.foot tx)) h
