-- ===== src/External/Accepts.antt =====
-- Which shares src/controllers/external-share/external-share.controller.ts stores.
use hc_pool.Base.{
  ℕ, ◌+◌, ◌/◌, ◌≤◌, ◌≡◌, ◌↔◌, refl, true, false, inl, inr, Option, none, some, Option-cases, [],
  ◌∷◌, Bool-cases, arith,
}
use hc_pool.Base.Text.{Text, text_eq_iff}
use hc_pool.Base.Hex.{Bytes, unhex}
use hc_pool.Difficulty.{Big, ratio_ge, in_grains}
use hc_pool.External.{
  ExternalPoolShare, ExternalShareConfig, minimum_of, is_refused_key, accepted, difficulty_of,
  row_of, submit_external_share,
}

-- The key of a request fits, where one is configured.
abbrev pub KeyFits : Option Text → Option Text → Type 0
KeyFits none given = Unit {0}
KeyFits (some []) given = Unit {0}
KeyFits (some (c ∷ key)) none = ⊥
KeyFits (some (c ∷ key)) (some given) = given ≡ c ∷ key

is_refused_key-KeyFits :
    (key given : Option Text) → (is_refused_key key given ≡ false) ↔ KeyFits key given
unfolding is_refused_key
is_refused_key-KeyFits none given = ((λ _. tt), (λ _. refl))
is_refused_key-KeyFits (some []) given = ((λ _. tt), (λ _. refl))
is_refused_key-KeyFits (some (c ∷ key)) none = ((λ h. cc), (λ h. absurd h))
is_refused_key-KeyFits (some (c ∷ key)) (some given) = ground (arith, text_eq_iff given (c ∷ key))

-- A share is stored exactly when the request's key fits, its header's hash has at least the
-- configured difficulty, and its header is that of a block not more than 600 seconds old. There is
-- no bound in the other direction: a time in the future is accepted.
pub submit_external_share-accepted_iff :
    (big : Big) (hash256 : Bytes → Bytes) (block_time : Bytes → Option ℕ) (diff1_target : ℕ)
    (config : ExternalShareConfig) (share : ExternalPoolShare) (api_key : Option Text) (now : ℕ)
    → (submit_external_share big hash256 block_time diff1_target config share api_key now
        ≡ accepted
            (difficulty_of big hash256 block_time diff1_target share)
            (row_of big hash256 block_time diff1_target share now))
      ↔ (KeyFits config.api_key api_key
          × (ratio_ge
                (difficulty_of big hash256 block_time diff1_target share)
                (in_grains (minimum_of config))
              ≡ true)
          × ((timestamp : ℕ) × (block_time (unhex share.header) ≡ some timestamp)
              × (now / 1000 ≤ timestamp + 600)))
unfolding submit_external_share
submit_external_share-accepted_iff big hash256 block_time diff1_target config share api_key now =
    let refused = is_refused_key config.api_key api_key in
    let high =
      ratio_ge (difficulty_of big hash256 block_time diff1_target share)
        (in_grains (minimum_of config)) in
    let key_fits = is_refused_key-KeyFits config.api_key api_key in
    (
      λ e. elim (Bool-cases refused) [
        | inl r ↦ absurd (ground (arith, r))
        | inr open' ↦ elim (Bool-cases high) [
          | inr low ↦ absurd (ground (arith, open', low))
          | inl enough ↦ elim (Option-cases (block_time (unhex share.header))) [
            | inl bad ↦ absurd (ground (arith, open', enough, bad))
            | inr (timestamp, good) ↦
                (key_fits.0 open', enough, (timestamp, good, ground (arith, open', enough, good)))
          ]
        ]
      ],
      λ (fits, enough, (timestamp, good, recent)).
          ground (arith, key_fits.1 fits, enough, good, recent),
    )
