-- ===== src/Messages.antt =====
-- src/models/stratum-messages: the requests with their transforms and validation rules, and what
-- the pool writes. A rule that throws inside a transform is `thrown`; a rule that fails is
-- `invalid`. class-validator and class-transformer are read through the rules of the classes.
use hc_pool.Base.{
  ℕ, Bool, true, false, ◌&&◌, ◌||◌, Option, none, some, [], ◌∷◌, ◌++◌, leb, if◌then◌else◌, length,
  get_elem?, is_some,
}
use hc_pool.Base.Text.{Text, codes, before, after, index_of, utf8}
use hc_pool.Base.Hex.{Bytes, ℤ}
use hc_pool.Base.Json.{Json, null, num, str, arr, items, member, as_text, or_null}
use hc_pool.Template.{Bitcoin}
use hc_pool.Job.{Notify}

pub data Parsed {ℓ} (A : Type ℓ) : Type ℓ where
  thrown : Parsed A
  invalid : Parsed A
  valid : A → Parsed A

-- `@IsDefined()`: neither null nor undefined.
abbrev pub is_defined : Option Json → Bool
is_defined none = false
is_defined (some null) = false
is_defined (some v) = true

-- `obj.params[i]`: none where `params` is null or undefined, so that the access throws.
abbrev pub param_at : Json → ℕ → Option (Option Json)
param_at message i = elim (member (codes "params") message) [
  | none ↦ none
  | some params ↦ elim params [
    | null ↦ none
    | arr vs ↦ some (get_elem? (items vs) i)
    | str s ↦ elim (get_elem? s i) [ none ↦ some none | some c ↦ some (some (str (c ∷ []))) ]
    | _ ↦ some none
  ]
]

-- The number of the entries of an array.
abbrev pub param_count : Json → Option ℕ
param_count message = elim (member (codes "params") message) [
  | some (arr vs) ↦ some (length (items vs))
  | _ ↦ none
]

abbrev pub count_between : ℕ → ℕ → Option ℕ → Bool
count_between low high none = false
count_between low high (some n) = leb low n && leb n high

pub record SubscriptionMessage : Type 0 where
  pub id : Json
  pub user_agent : Text

-- `text.includes(piece)`
abbrev pub includes : Text → Text → Bool
includes text piece = is_some (index_of piece text)

unfoldable pub refine_user_agent : Text → Text
refine_user_agent user_agent =
    let short = before b'-' (before b'V' (before b'/' (before b' ' user_agent))) in
    if includes short (codes "bosminer") || includes short (codes "bOS")
    then codes "Braiins OS"
    else if includes short (codes "cpuminer")
    then codes "cpuminer"
    else short

-- `obj?.params?.[0] == null ? 'unknown' : refineUserAgent(obj.params[0])`; a first parameter that
-- is no text throws.
abbrev transform_agent : Option (Option Json) → Option Text
transform_agent none = some (codes "unknown")
transform_agent (some none) = some (codes "unknown")
transform_agent (some (some v)) = elim v [
  | null ↦ some (codes "unknown")
  | str s ↦ some (refine_user_agent s)
  | _ ↦ none
]

unfoldable pub parse_subscription : Json → Parsed SubscriptionMessage
parse_subscription message = elim (transform_agent (param_at message 0)) [
  | none ↦ thrown
  | some agent ↦
      if is_defined (member (codes "id") message)
        && (is_some (param_count message) && leb (length agent) 128)
      then valid (record { id = or_null (member (codes "id") message); user_agent = agent })
      else invalid
]

unfoldable pub parse_configuration : Json → Parsed Json
parse_configuration message =
    if is_defined (member (codes "id") message) && is_some (param_count message)
    then valid (or_null (member (codes "id") message))
    else invalid

pub record AuthorizationMessage : Type 0 where
  pub id : Json
  pub address : Text
  pub worker : Text

-- `obj.params[0].split('.')[1]`, or 'worker' where there is none.
abbrev pub worker_of : Text → Text
worker_of s = elim (after b'.' s) [ none ↦ codes "worker" | some rest ↦ before b'.' rest ]

-- A password is a text of at most 64 units, or missing.
abbrev password_ok : Option (Option Json) → Bool
password_ok none = true
password_ok (some none) = true
password_ok (some (some v)) = elim v [ null ↦ true | str s ↦ leb (length s) 64 | _ ↦ false ]

unfoldable pub parse_authorization : Bitcoin → Json → Parsed AuthorizationMessage
parse_authorization btc message = elim (param_at message 0) [
  | none ↦ thrown
  | some none ↦ thrown
  | some (some first) ↦ elim (as_text (some first)) [
    | none ↦ thrown
    | some login ↦
        let address = before b'.' login in
        let worker = worker_of login in
        if is_defined (member (codes "id") message)
          && (count_between 2 2 (param_count message)
              && (is_some (btc.output_script address)
                  && (leb (length worker) 64 && password_ok (param_at message 1))))
        then valid (record {
          id = or_null (member (codes "id") message);
          address = address;
          worker = worker;
        })
        else invalid
  ]
]

pub record SuggestDifficulty : Type 0 where
  pub id : Json
  pub suggested_difficulty : ℤ

unfoldable pub parse_suggest_difficulty : Json → Parsed SuggestDifficulty
parse_suggest_difficulty message = elim (param_at message 0) [
  | none ↦ thrown
  | some none ↦ invalid
  | some (some v) ↦ elim v [
    | num z ↦
        if is_defined (member (codes "id") message) && count_between 1 1 (param_count message)
        then valid (record { id = or_null (member (codes "id") message); suggested_difficulty = z })
        else invalid
    | _ ↦ invalid
  ]
]

pub record MiningSubmitMessage : Type 0 where
  pub id : Json
  pub job_id : Text
  pub extra_nonce2 : Text
  pub ntime : Text
  pub nonce : Text
  pub version_mask : Text

-- `obj.params[5] == null ? '0' : obj.params[5]`, if it is a text.
abbrev mask_of : Option (Option Json) → Option Text
mask_of none = none
mask_of (some none) = some (codes "0")
mask_of (some (some v)) = elim v [ null ↦ some (codes "0") | str s ↦ some s | _ ↦ none ]

abbrev text_at : Json → ℕ → Option Text
text_at message i = elim (param_at message i) [ none ↦ none | some v ↦ as_text v ]

infixl 5 ◌>>=◌
abbrev ◌>>=◌ {ℓ κ} : {A : Type ℓ} {B : Type κ} → Option A → (A → Option B) → Option B
none >>= f = none
some a >>= f = f a

abbrev submit_fields : Json → Option MiningSubmitMessage
submit_fields message = do
  user ← text_at message 0
  job_id ← text_at message 1
  extra_nonce2 ← text_at message 2
  ntime ← text_at message 3
  nonce ← text_at message 4
  version_mask ← mask_of (param_at message 5)
  some (record {
    id = or_null (member (codes "id") message);
    job_id = job_id;
    extra_nonce2 = extra_nonce2;
    ntime = ntime;
    nonce = nonce;
    version_mask = version_mask;
  })

unfoldable pub parse_submit : Json → Parsed MiningSubmitMessage
parse_submit message = elim (param_at message 0) [
  | none ↦ thrown
  | some first ↦ elim (submit_fields message) [
    | none ↦ invalid
    | some m ↦
        if is_defined (member (codes "id") message) && count_between 5 6 (param_count message)
        then valid m
        else invalid
  ]
]

-- `hash()`; its base64 text stands for the bytes.
unfoldable pub fingerprint : Bitcoin → MiningSubmitMessage → Bytes
fingerprint btc m =
    btc.hash256 (utf8 (m.version_mask ++ (m.nonce ++ (m.extra_nonce2 ++ (m.ntime ++ m.job_id)))))

pub data ErrorCode : Type 0 where
  other_unknown job_not_found duplicate_share low_difficulty_share unauthorized_worker : ErrorCode

-- The lines that the pool writes to a miner.
pub data Line : Type 0 where
  subscribed : Json → Option Text → Line
  configured : Json → Line
  accepted : Json → Line
  challenge : Json → Text → Text → Option ℤ → Line
  set_difficulty : ℕ → Line
  notify : Notify → Line
  error : Json → ErrorCode → Text → Line
