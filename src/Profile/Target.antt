-- ===== src/Profile/Target.antt =====
-- The profile's limits and its target, whatever the settings.
use hc_pool.Base.{
  ℕ, zero, suc, ◌-◌, ◌≤◌, ◌≡◌, refl, true, false, [], ◌∷◌, ◌++◌, if◌then◌else◌, ltb, arith, length,
  drop, replicate, length-append, length-replicate, length-drop, Bool-cases, inl, inr,
}
use hc_pool.Base.Text.{Text, lower}
use hc_pool.Base.Hex.{read_digits, digit_value}
use hc_pool.Session.Safe.{Ordered}
use hc_pool.Profile.{
  ChainConfig, get_active_chain_profile, session_profile, normalize_hex, fit_64, all_hex, is_hex,
  skip_0x, trim,
}

-- Whatever the settings, the session's limits are in order and its first difficulty is between them.
pub session_profile-Ordered : (env : ChainConfig) → Ordered (session_profile env)
unfolding session_profile get_active_chain_profile
session_profile-Ordered env = ground arith

all_hex-append : (s t : Text) → all_hex s ≡ true → all_hex t ≡ true → all_hex (s ++ t) ≡ true
unfolding all_hex
all_hex-append [] t h k = k
all_hex-append (c ∷ s) t h k = ground (arith, h, all_hex-append s t)

all_hex-zeros : (n : ℕ) → all_hex (replicate n b'0') ≡ true
unfolding all_hex
all_hex-zeros zero = refl
all_hex-zeros (suc n) = all_hex-zeros n

all_hex-drop : (n : ℕ) (s : Text) → all_hex s ≡ true → all_hex (drop n s) ≡ true
unfolding all_hex
all_hex-drop zero s h = h
all_hex-drop (suc n) [] h = h
all_hex-drop (suc n) (c ∷ s) h = all_hex-drop n s (ground (arith, h))

padded :
    (t : Text)
    → length t ≤ 64
    → all_hex t ≡ true
    → (length (replicate (64 - length t) b'0' ++ t) ≡ 64)
      × (all_hex (replicate (64 - length t) b'0' ++ t) ≡ true)
padded t k h = (
  omega (
    arith,
    length-append (replicate (64 - length t) b'0') t,
    length-replicate {A = ℕ} (64 - length t) b'0',
    k,
  ),
  all_hex-append (replicate (64 - length t) b'0') t (all_hex-zeros (64 - length t)) h,
)

is_hex-all : (s : Text) → is_hex s ≡ true → all_hex s ≡ true
is_hex-all [] h = absurd (cc h)
is_hex-all (c ∷ s) h = h

fit_64-digits :
    (s : Text) → all_hex s ≡ true → (length (fit_64 s) ≡ 64) × (all_hex (fit_64 s) ≡ true)
unfolding fit_64
fit_64-digits s h =
    let cut = if ltb 64 (length s) then drop (length s - 64) s else s in
    padded cut (ground (arith, length-drop (length s - 64) s))
      (ground (arith, h, all_hex-drop (length s - 64) s h))

-- Whatever text is configured, the target is written with 64 lower-case digits.
pub normalize_hex-digits :
    (value : Text) → (length (normalize_hex value) ≡ 64) × (all_hex (normalize_hex value) ≡ true)
unfolding normalize_hex all_hex
normalize_hex-digits value =
    let digits = skip_0x (lower (trim value)) in
    elim (Bool-cases (is_hex digits)) [
      | inl y ↦ rw y (fit_64-digits digits (is_hex-all digits y))
      | inr n ↦ rw n (refl, refl)
    ]

read_digits-zeros : (n : ℕ) (s : Text) → read_digits 0 (replicate n b'0' ++ s) ≡ read_digits 0 s
unfolding read_digits digit_value
read_digits-zeros zero s = refl
read_digits-zeros (suc n) s = read_digits-zeros n s

-- A configured target of at most 64 digits, with or without 0x and white space around it, is the number of its
-- digits.
pub normalize_hex-value :
    (value : Text)
    → let digits = skip_0x (lower (trim value)) in
      is_hex digits ≡ true
      → length digits ≤ 64
      → read_digits 0 (normalize_hex value) ≡ read_digits 0 digits
unfolding normalize_hex fit_64
normalize_hex-value value h k =
    let digits = skip_0x (lower (trim value)) in
    let short : ltb 64 (length digits) ≡ false = ground (arith, k) in
    rw (h, short) (read_digits-zeros (64 - length digits) digits)
