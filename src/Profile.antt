-- ===== src/Profile.antt =====
-- src/network/chain-profile.ts: the fields of the profile that the pool's core reads. Difficulties
-- and the rate are in grains; a setting is none where it is missing, empty or no finite number, and
-- negative settings are not covered.
pub mod Target
use mathlib.Core.List.{reverse}
use hc_pool.Base.{
  ℕ, ◌-◌, ◌/◌, ◌*◌, Bool, true, false, ◌&&◌, ◌||◌, Option, none, some, List, [], ◌∷◌, ◌++◌,
  if◌then◌else◌, ltb, leb, ◌==◌, or_else, maximum, minimum, length, drop, replicate,
}
use hc_pool.Base.Text.{Text, codes, text_eq, lower}
use hc_pool.Base.Hex.{trim_start, read_digits}
use hc_pool.Bucket.{grain}
use hc_pool.Session.State.{Profile}

pub record ChainConfig : Type 0 where
  pub chain_enable_segwit : Option Text
  pub pow_diff1_target : Option Text
  pub stratum_min_diff : Option ℕ
  pub stratum_max_diff : Option ℕ
  pub stratum_init_diff : Option ℕ
  pub stratum_target_shares_per_sec : Option ℕ

pub record ChainProfile : Type 0 where
  pub enable_segwit : Bool
  pub pow_diff1_target_hex : Text
  pub stratum_init_diff : ℕ
  pub stratum_min_diff : ℕ
  pub stratum_max_diff : ℕ
  pub stratum_target_shares_per_second : ℕ

abbrev pub default_diff1_target : Text
default_diff1_target = codes "00000000ffff0000000000000000000000000000000000000000000000000000"

-- `trim`, of the ASCII white space.
unfoldable pub trim : Text → Text
trim s = reverse (trim_start (reverse (trim_start s)))

abbrev is_any : Text → List Text → Bool
is_any s [] = false
is_any s (t ∷ ts) = text_eq s t || is_any s ts

unfoldable pub parse_boolean_config : Option Text → Bool → Bool
parse_boolean_config none fallback = fallback
parse_boolean_config (some []) fallback = fallback
parse_boolean_config (some (c ∷ s)) fallback =
    let normalized = lower (trim (c ∷ s)) in
    if is_any normalized (codes "1" ∷ codes "true" ∷ codes "yes" ∷ codes "on" ∷ [])
    then true
    else if is_any normalized (codes "0" ∷ codes "false" ∷ codes "no" ∷ codes "off" ∷ [])
    then false
    else fallback

abbrev pub is_hex_digit : ℕ → Bool
is_hex_digit c = (leb b'0' c && leb c b'9') || (leb b'a' c && leb c b'f')

unfoldable pub all_hex : Text → Bool
all_hex [] = true
all_hex (c ∷ s) = is_hex_digit c && all_hex s

-- The test of the regular expression: at least one digit, and nothing else.
abbrev pub is_hex : Text → Bool
is_hex [] = false
is_hex (c ∷ s) = all_hex (c ∷ s)

unfoldable pub skip_0x : Text → Text
skip_0x (c ∷ x ∷ s) = if c == b'0' && x == b'x' then s else c ∷ x ∷ s
skip_0x s = s

-- The last 64 digits, or zeros in front up to 64.
unfoldable pub fit_64 : Text → Text
fit_64 s =
    let cut = if ltb 64 (length s) then drop (length s - 64) s else s in
    replicate (64 - length cut) b'0' ++ cut

unfoldable pub normalize_hex : Text → Text
normalize_hex value =
    let normalized = skip_0x (lower (trim value)) in
    if is_hex normalized then fit_64 normalized else default_diff1_target

-- 0.00001 and 0.00015 are 100000 and 1500000 grains.
unfoldable pub get_active_chain_profile : ChainConfig → ChainProfile
get_active_chain_profile env =
    let min_diff = or_else env.stratum_min_diff 100000 in
    let max_diff = maximum (or_else env.stratum_max_diff (16384 * grain)) min_diff in
    record {
      enable_segwit = parse_boolean_config env.chain_enable_segwit false;
      pow_diff1_target_hex = normalize_hex (or_else env.pow_diff1_target default_diff1_target);
      stratum_init_diff =
          minimum (maximum (or_else env.stratum_init_diff 1500000) min_diff) max_diff;
      stratum_min_diff = min_diff;
      stratum_max_diff = max_diff;
      stratum_target_shares_per_second =
          maximum (or_else env.stratum_target_shares_per_sec (10 * grain)) 10_000_000;
    }

-- `getPowDiff1TargetAsBigInt`
unfoldable pub get_pow_diff1_target : ChainProfile → ℕ
get_pow_diff1_target p = read_digits 0 p.pow_diff1_target_hex

-- What a session reads of the profile.
unfoldable pub session_profile : ChainConfig → Profile
session_profile env =
    let p = get_active_chain_profile env in
    record {
      diff1_target = get_pow_diff1_target p;
      stratum_init_diff = p.stratum_init_diff;
      stratum_min_diff = p.stratum_min_diff;
      stratum_max_diff = p.stratum_max_diff;
      stratum_target_shares_per_second = p.stratum_target_shares_per_second;
    }
