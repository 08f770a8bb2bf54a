-- ===== src/Session/Nonces.antt =====
-- The two nonces of a session of src/models/StratumV1Client.ts: the one that it is given with its
-- subscription, and the one that its signed jobs are locked to (`normalizeSignetExtraNonce2`).
use hc_pool.Base.{
  ℕ, ◌-◌, ◌^◌, ◌<◌, ◌≡◌, refl, true, ◌&&◌, inl, inr, Bool-cases, Option, or_else, [], ◌∷◌, length,
  length-append, length-replicate, replicate, if◌then◌else◌, ◌==◌, ==_iff, leb, arith,
}
use hc_pool.Base.Text.{Text, codes, lower}
use hc_pool.Base.Hex.{Bytes, hex, hex_digit, to_hex}
use hc_pool.Base.Hex.Laws.{AreBytes}
use hc_pool.Base.Hex.Digits.{
  IsDigit, AreDigits, ++-AreDigits, replicate-AreDigits, to_hex-AreDigits, length-to_hex,
  AreDigits-hex,
}
use hc_pool.Profile.{trim, all_hex, is_hex_digit}
use hc_pool.Session.State.{Setup, Client}
use hc_pool.Session.{get_random_hex_string, new_client}

-- `normalizeSignetExtraNonce2`, from SIGNET_LOCKED_EXTRANONCE2.
unfoldable pub normalize_signet_extra_nonce2 : Option Text → Text
normalize_signet_extra_nonce2 raw_value =
    let candidate = lower (trim (or_else raw_value [])) in
    if all_hex candidate && length candidate == 8 then candidate else codes "00000001"

-- The constructor.
unfoldable pub new_session : Setup → Option Text → Client
new_session setup raw_value = new_client setup (normalize_signet_extra_nonce2 raw_value)

is_hex_digit-IsDigit : (c : ℕ) → is_hex_digit c ≡ true → IsDigit c
unfolding hex_digit
is_hex_digit-IsDigit c h = elim (Bool-cases (leb c b'9')) [
  | inl low ↦ (c - b'0', ground (arith, h, low), ground (arith, h, low))
  | inr high ↦ (c - 87, ground (arith, h, high), ground (arith, h, high))
]

all_hex-AreDigits : (s : Text) → all_hex s ≡ true → AreDigits s
unfolding all_hex
all_hex-AreDigits [] h = tt
all_hex-AreDigits (c ∷ s) h =
    (is_hex_digit-IsDigit c (ground (arith, h)), all_hex-AreDigits s (ground (arith, h)))

-- Eight digits, whatever is configured.
locked_digits :
    (raw_value : Option Text)
    → AreDigits (normalize_signet_extra_nonce2 raw_value)
      × (length (normalize_signet_extra_nonce2 raw_value) ≡ 8)
unfolding normalize_signet_extra_nonce2
locked_digits raw_value =
    let candidate = lower (trim (or_else raw_value [])) in
    elim (Bool-cases (all_hex candidate && length candidate == 8)) [
      | inl fits ↦ rw fits (
        all_hex-AreDigits candidate (ground (arith, fits)),
        (==_iff (length candidate) 8).0 (ground (arith, fits)),
      )
      | inr other ↦ rw other (all_hex-AreDigits (codes "00000001") (unfold all_hex in refl), refl)
    ]

random_digits :
    (n : ℕ)
    → n < 2 ^ 32
    → AreDigits (get_random_hex_string n) × (length (get_random_hex_string n) ≡ 8)
unfolding get_random_hex_string
random_digits n h =
    let short = length-to_hex n 7 h in
    (
      ++-AreDigits (replicate (8 - length (to_hex n)) b'0') (to_hex n)
          (replicate-AreDigits (8 - length (to_hex n))) (to_hex-AreDigits n),
      omega (
        arith,
        short,
        length-append (replicate (8 - length (to_hex n)) b'0') (to_hex n),
        length-replicate {A = ℕ} (8 - length (to_hex n)) b'0',
      ),
    )

-- The nonces are four bytes each, in hexadecimal.
pub record AreNonces (first second : Text) : Type 0 where
  pub e1 : Bytes
  pub e2 : Bytes
  pub first_hex : first ≡ hex e1
  pub second_hex : second ≡ hex e2
  pub first_size : length e1 ≡ 4
  pub second_size : length e2 ≡ 4
  pub first_bytes : AreBytes e1
  pub second_bytes : AreBytes e2

pub session-AreNonces :
    (raw_value : Option Text) (n : ℕ)
    → n < 2 ^ 32
    → AreNonces (get_random_hex_string n) (normalize_signet_extra_nonce2 raw_value)
session-AreNonces raw_value n h =
    let (digits1, size1) = random_digits n h in
    let (digits2, size2) = locked_digits raw_value in
    let (e1, same1, length1, bytes1) = AreDigits-hex 4 (get_random_hex_string n) digits1 size1 in
    let (e2, same2, length2, bytes2) =
      AreDigits-hex 4 (normalize_signet_extra_nonce2 raw_value) digits2 size2 in
    record {
      e1 = e1;
      e2 = e2;
      first_hex = same1;
      second_hex = same2;
      first_size = length1;
      second_size = length2;
      first_bytes = bytes1;
      second_bytes = bytes2;
    }
