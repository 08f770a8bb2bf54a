-- ===== src/Signet/Keys.antt =====
-- The keys and the checks of src/services/signet-block-signing.service.ts, from both sides: what
-- an accepted challenge shows, and when a challenge is accepted.
use hc_pool.Base.{◌≡◌, or_else, refl, true, Option, none, some, [], ◌∷◌, arith}
use hc_pool.Base.Text.{Text, lower, text_eq_iff}
use hc_pool.Base.Hex.{Bytes, hex, unhex}
use hc_pool.Profile.{trim}
use hc_pool.Signet.Encoding.{Library, returned}
use hc_pool.Signet.{SigningService, challenge_of, new, check_challenge}

-- What the constructor gives a service that signs.
pub record HasKey (lib : Library) (s : SigningService) : Type 0 where
  pub key : Bytes
  pub private_key : s.private_key ≡ some key
  pub challenge_script : s.challenge_script ≡ some (challenge_of lib key)
  pub is_private : lib.is_private key ≡ true

pub new-HasKey :
    (lib : Library) (enable key : Option Text) (s : SigningService)
    → new lib enable key ≡ returned s
    → s.enabled ≡ true
    → HasKey lib s
unfolding new
new-HasKey lib enable key s h on =
    let private_key = unhex (trim (or_else key [])) in
    let (held, public, valid) : (s.private_key ≡ some private_key)
        × (s.challenge_script ≡ some (challenge_of lib private_key))
        × (lib.is_private private_key ≡ true) =
      (ground arith, ground arith, ground arith) in
    record { key = private_key; private_key = held; challenge_script = public; is_private = valid }

-- The node's challenge is, in either case, the text of a challenge.
abbrev pub Names : Option Text → Bytes → Type 0
Names none challenge = ⊥
Names (some []) challenge = ⊥
Names (some (c ∷ text)) challenge = lower (c ∷ text) ≡ lower (hex challenge)

pub check_challenge-returned :
    (s : SigningService) (given : Option Text) (keys : Bytes × Bytes)
    → check_challenge s given ≡ returned keys
    → (s.private_key ≡ some keys.0) × (s.challenge_script ≡ some keys.1) × Names given keys.1
unfolding check_challenge
check_challenge-returned s none keys h = absurd (ground arith)
check_challenge-returned s (some []) keys h = absurd (ground arith)
check_challenge-returned s (some (c ∷ text)) keys h =
    let (held, public) : (s.private_key ≡ some keys.0) × (s.challenge_script ≡ some keys.1) =
      (ground arith, ground arith) in
    (held, public, ground (arith, text_eq_iff (lower (c ∷ text)) (lower (hex keys.1))))

pub check_challenge-accepts :
    (s : SigningService) (given : Option Text) (key challenge : Bytes)
    → s.private_key ≡ some key
    → s.challenge_script ≡ some challenge
    → Names given challenge
    → check_challenge s given ≡ returned (key, challenge)
unfolding check_challenge
check_challenge-accepts s none key challenge k c n = absurd n
check_challenge-accepts s (some []) key challenge k c n = absurd n
check_challenge-accepts s (some (x ∷ text)) key challenge k c n =
    rw (k, c) (rw ((text_eq_iff (lower (x ∷ text)) (lower (hex challenge))).1 n) refl)
