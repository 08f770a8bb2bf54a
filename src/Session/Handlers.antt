-- ===== src/Session/Handlers.antt =====
-- What the other messages of src/models/StratumV1Client.ts, the jobs and the timers keep.
use hc_pool.Base.{◌≤◌, refl, Bool, true, false, some, ◌∷◌, arith, Bool-cases, inl, inr}
use hc_pool.Base.Hex.{Bytes, ℤ, pos, negsuc}
use hc_pool.Base.Json.{Json}
use hc_pool.Session.State.{Client, World, Setup, Env, M, pure, ◌>>◌, end_socket, write}
use hc_pool.Session.Auth.{enforce_session_authorization_or_close}
use hc_pool.Base.Text.{Text, codes}
use hc_pool.Base.{◌*◌, ◌/◌}
use hc_pool.Bucket.{grain}
use hc_pool.Difficulty.{Ratio, infinity, ratio}
use hc_pool.Messages.{
  parse_subscription, parse_configuration, parse_authorization, Parsed, thrown, invalid, valid,
  SubscriptionMessage, AuthorizationMessage, SuggestDifficulty, MiningSubmitMessage, set_difficulty,
  parse_suggest_difficulty, parse_submit, fingerprint, duplicate_share,
}
use hc_pool.Session.{
  Method, subscribe, configure, authorize, device_challenge, device_auth, suggest_difficulty,
  submit, unknown, start_session, handle_subscribe, handle_configure, handle_authorize,
  handle_suggestion, handle_suggest_difficulty, on_parsed, handle_valid_submit, handle_submit,
  dispatch,
}
use hc_pool.Session.Score.{judge_lookup, check_duplicate, handle_mining_submission}
use hc_pool.Session.Submit.{refuse, ensure_entity, has, locate}
use hc_pool.Session.Frame.{core, Kept, refuse-Kept, judge_lookup-Kept}
use hc_pool.Session.Work.{clamp_difficulty, clamp_ratio, session_of}
use hc_pool.Session.Safe.{IsSafe, Ordered, write-Keeps, enforce-Keeps, core-IsSafe}
use hc_pool.Session.Keeps.{Keeps, bind_Keeps, if_result, then_Keeps, if_Keeps}
use hc_pool.Messages.{Line, accepted}
use hc_pool.Session.Admission.{handle_device_auth-Keeps, handle_device_challenge-Keeps}

module _ (setup : Setup) (env : Env) where
  pub clamp_difficulty-within :
      Ordered setup.profile
      → (d : ℤ)
      → (setup.profile.stratum_min_diff ≤ clamp_difficulty setup.profile d)
        × (clamp_difficulty setup.profile d ≤ setup.profile.stratum_max_diff)
  unfolding clamp_difficulty
  clamp_difficulty-within o (pos n) = ground (arith, o.init_low, o.init_high)
  clamp_difficulty-within o (negsuc n) = ground (arith, o.init_low, o.init_high)

  pub clamp_ratio-within :
      Ordered setup.profile
      → (r : Ratio)
      → (setup.profile.stratum_min_diff ≤ clamp_ratio setup.profile r)
        × (clamp_ratio setup.profile r ≤ setup.profile.stratum_max_diff)
  unfolding clamp_ratio
  clamp_ratio-within o infinity = clamp_difficulty-within o (pos setup.profile.stratum_init_diff)
  clamp_ratio-within o (ratio n d) = clamp_difficulty-within o (pos (n * grain / d))

  abbrev pub Safe : Client → Type 0
  Safe = IsSafe setup.profile

  abbrev put : Client → World → World
  put c w = record w { client = c }

  write-put :
      (line : Line) (c : Client) (w : World) → Safe c → Safe (write env line (put c w)).1.client
  write-put line c w s = write-Keeps setup.profile env line (put c w) s

  start_session-IsSafe :
      (m : SubscriptionMessage) (c : Client)
      → Safe c
      → Safe (record (start_session setup env c) { client_subscription = some m })
  unfolding start_session
  start_session-IsSafe m c s = ground (arith)

  handle_subscribe-Keeps : (m : SubscriptionMessage) → Keeps Safe (handle_subscribe setup env m)
  unfolding handle_subscribe
  handle_subscribe-Keeps m w s = write-put _ _ w (start_session-IsSafe m w.client s)

  handle_configure-Keeps : (j : Json) → Keeps Safe (handle_configure setup env j)
  unfolding handle_configure
  handle_configure-Keeps j w s = write-put _ _ w (core-IsSafe setup env w.client _ refl s)

  handle_authorize-Keeps : (m : AuthorizationMessage) → Keeps Safe (handle_authorize setup env m)
  unfolding handle_authorize
  handle_authorize-Keeps m w s =
      write-put (accepted m.id) (record (w.client) { client_authorization = some m }) w
        (ground (arith))

  used-IsSafe : (c : Client) → Safe c → Safe (record c { used_suggested_difficulty = true })
  used-IsSafe c s = ground arith

  handle_suggestion-Keeps :
      Ordered setup.profile → (m : SuggestDifficulty) → Keeps Safe (handle_suggestion setup env m)
  unfolding handle_suggestion
  handle_suggestion-Keeps o m =
      let within = clamp_difficulty-within o m.suggested_difficulty in
      bind_Keeps Safe _ _
        (λ w s.
          write-put (set_difficulty (clamp_difficulty setup.profile m.suggested_difficulty))
            (record (w.client) {
              client_suggested_difficulty = some m;
              session_difficulty = clamp_difficulty setup.profile m.suggested_difficulty;
            })
            w (ground (arith, within)))
        (λ b. if_Keeps Safe b _ _ (λ w s. used-IsSafe w.client s) (λ w s. s))

  on_parsed-Keeps :
      {A : Type 0} (p : Parsed A) (j : Json) (text : Text) (f : A → M Bool)
      → ((a : A) → Keeps Safe (f a))
      → Keeps Safe (on_parsed setup env p j text f)
  on_parsed-Keeps thrown j text f k w s = s
  on_parsed-Keeps invalid j text f k w s = write-Keeps setup.profile env _ w s
  on_parsed-Keeps (valid a) j text f k w s = k a w s

  handle_suggest_difficulty-Keeps :
      Ordered setup.profile → (j : Json) → Keeps Safe (handle_suggest_difficulty setup env j)
  unfolding handle_suggest_difficulty
  handle_suggest_difficulty-Keeps o j w s =
      let parsed =
        on_parsed-Keeps (parse_suggest_difficulty j) j (codes "Suggest difficulty validation error")
          (handle_suggestion setup env) (handle_suggestion-Keeps o) w s in
      elim (Bool-cases w.client.used_suggested_difficulty) [
        | inl y ↦ ground (arith, y)
        | inr n ↦ ground (arith, n, parsed)
      ]

  noted-IsSafe :
      (h : Bytes) (c : Client)
      → Safe c
      → Safe (record c { mining_submission_hashes = h ∷ c.mining_submission_hashes })
  noted-IsSafe h c s = ground arith

  Kept-Safe :
      (n : M Bool) (w : World)
      → Kept setup env (core w.client) n
      → Safe w.client
      → Safe (n w).1.client
  Kept-Safe n w k s = core-IsSafe setup env w.client (n w).1.client (k w refl) s

  check_duplicate-Keeps : (m : MiningSubmitMessage) → Keeps Safe (check_duplicate setup env m)
  unfolding check_duplicate
  check_duplicate-Keeps m w s =
      let h = fingerprint setup.bitcoin m in
      let c1 = record (w.client) {
        mining_submission_hashes = h ∷ w.client.mining_submission_hashes;
      } in
      let l = locate w.service (session_of c1) m env.now in
      if_result Safe (has h w.client.mining_submission_hashes)
        (refuse setup env m.id duplicate_share (codes "Duplicate share") w)
        (judge_lookup setup env m l (put c1 w))
        (Kept-Safe (refuse setup env m.id duplicate_share (codes "Duplicate share")) w
          (refuse-Kept setup env (core w.client) m.id duplicate_share (codes "Duplicate share")) s)
        (Kept-Safe (judge_lookup setup env m l) (put c1 w)
          (judge_lookup-Kept setup env (core c1) m l) (noted-IsSafe h w.client s))

  ensure_entity-Keeps : Keeps Safe (ensure_entity setup env)
  unfolding ensure_entity
  ensure_entity-Keeps w s = ground arith

  handle_mining_submission-Keeps :
      (m : MiningSubmitMessage) → Keeps Safe (handle_mining_submission setup env m)
  unfolding handle_mining_submission
  handle_mining_submission-Keeps m =
      bind_Keeps Safe (enforce_session_authorization_or_close setup env) _ (enforce-Keeps setup env)
        (λ b.
          if_Keeps Safe b (ensure_entity setup env >> check_duplicate setup env m) (pure false)
            (then_Keeps Safe (ensure_entity setup env) (check_duplicate setup env m)
              ensure_entity-Keeps (check_duplicate-Keeps m))
            (λ w s. s))

  handle_valid_submit-Keeps :
      (m : MiningSubmitMessage) → Keeps Safe (handle_valid_submit setup env m)
  unfolding handle_valid_submit
  handle_valid_submit-Keeps m =
      bind_Keeps Safe (handle_mining_submission setup env m) _ (handle_mining_submission-Keeps m)
        (λ b.
          if_Keeps Safe b (write env (accepted m.id)) (pure true) (write-Keeps setup.profile env _)
            (λ w s. s))

  handle_submit-Keeps : (j : Json) → Keeps Safe (handle_submit setup env j)
  unfolding handle_submit end_socket
  handle_submit-Keeps j w s =
      let parsed =
        on_parsed-Keeps (parse_submit j) j (codes "Mining Submit validation error")
          (handle_valid_submit setup env) handle_valid_submit-Keeps w s in
      elim (Bool-cases w.client.stratum_initialized) [
        | inl y ↦ ground (arith, y, parsed)
        | inr n ↦ ground (arith, n, s)
      ]

  pub dispatch-Keeps :
      Ordered setup.profile → (m : Method) (j : Json) → Keeps Safe (dispatch setup env m j)
  unfolding dispatch
  dispatch-Keeps o subscribe j =
      on_parsed-Keeps (parse_subscription j) j _ (handle_subscribe setup env) handle_subscribe-Keeps
  dispatch-Keeps o configure j =
      on_parsed-Keeps (parse_configuration j) j _ (handle_configure setup env)
        handle_configure-Keeps
  dispatch-Keeps o authorize j =
      on_parsed-Keeps (parse_authorization setup.bitcoin j) j _ (handle_authorize setup env)
        handle_authorize-Keeps
  dispatch-Keeps o device_challenge j = handle_device_challenge-Keeps setup env j
  dispatch-Keeps o device_auth j = handle_device_auth-Keeps setup env j
  dispatch-Keeps o suggest_difficulty j = handle_suggest_difficulty-Keeps o j
  dispatch-Keeps o submit j = handle_submit-Keeps j
  dispatch-Keeps o unknown j = λ w s. s
