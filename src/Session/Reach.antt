-- ===== src/Session/Reach.antt =====
-- The life of a session of src/models/StratumV1Client.ts: lines, jobs, the two timers and the end of
-- its socket, in any order.
use hc_pool.Base.{
  ℕ, ◌≤◌, ◌≡◌, refl, sym, subst, ◌/◌, Bool, true, false, Option, none, some, List, [], ◌∷◌,
  if◌then◌else◌, is_some, arith, Bool-cases, inl, inr,
}
use hc_pool.Base.Text.{Text}
use hc_pool.Base.Json.{Json, null, bool, num, str, arr, obj, member, as_text}
use hc_pool.Base.Text.{codes}
use hc_pool.Base.Hex.{pos}
use hc_pool.Bucket.{grain}
use hc_pool.Difficulty.{Ratio}
use hc_pool.Template.{JobTemplate}
use hc_pool.Job.{MiningJob, response}
use hc_pool.Jobs.{add_job}
use hc_pool.Messages.{Line, notify, set_difficulty}
use hc_pool.Statistics.{get_suggested_difficulty}
use hc_pool.Session.State.{
  Client, World, Setup, Env, M, pure, destroy, end_socket, write, ◌>>=◌, ◌>>◌, modify_client, get,
  modify,
}
use hc_pool.Session.Auth.{enforce_session_authorization_or_close, from_option}
use hc_pool.Session.Work.{
  on_new_mining_job, check_difficulty, send_new_mining_job, deliver_job, make_job,
  change_difficulty, init_stratum, announce_difficulty, clamp_ratio, start_client, start_work,
  note_rate, differs, set_clear_jobs, raw_write,
}
use hc_pool.Session.{
  new_client, handle_line, handle_json, start_if_ready, may_start, dispatch, method_of,
}
use hc_pool.Session.Keeps.{Keeps, bind_Keeps, if_Keeps, if_result, option_result, from_option-Keeps}
use hc_pool.Session.Safe.{IsSafe, Ordered, write-Keeps, enforce-Keeps, core-IsSafe, destroy-IsSafe}
use hc_pool.Session.Handlers.{dispatch-Keeps, clamp_difficulty-within, clamp_ratio-within, Safe}

-- What happens to a session; the difficulty timer comes with its fuel and the latest template.
pub data Event : Type 0 where
  received : Option Json → Event
  new_job : JobTemplate → Event
  difficulty_due : ℕ → JobTemplate → Event
  authorization_due : Event
  closed : Event

-- An exception in a timer leaves what was done before it.
unfoldable pub run : Setup → Env → Event → World → World
run setup env (received message) w = handle_line setup env message w
run setup env (new_job template) w = on_new_mining_job setup env template w
run setup env (difficulty_due fuel latest) w = (check_difficulty setup env fuel latest w).1
run setup env authorization_due w = (enforce_session_authorization_or_close setup env w).1
run setup env closed w = destroy w

-- The session may be found with any state of the parts that it shares with the others.
unfoldable pub run_all : Setup → List (Env × Event) → World → World
run_all setup [] w = w
run_all setup ((env, e) ∷ es) w = run_all setup es (run setup env e w)

module _ (setup : Setup) (env : Env) (o : Ordered setup.profile) where
  abbrev S : Client → Type 0
  S = Safe setup env

  note_rate-IsSafe : (c : Client) → S c → S (note_rate setup env c)
  note_rate-IsSafe c s = core-IsSafe setup env c (note_rate setup env c) refl s

  deliver_job-Keeps : (t : JobTemplate) (job : MiningJob) → Keeps S (deliver_job setup env t job)
  unfolding deliver_job
  deliver_job-Keeps t job =
      bind_Keeps S
        (modify (λ w. record w { service = add_job job w.service })
          >> write env (notify (response job t)))
        (λ _. pure tt) (λ w s. write-Keeps setup.profile env _ _ s) (λ _ w s. s)

  abbrev deliver_made : JobTemplate → World → M (Unit {0})
  deliver_made t v = from_option (make_job setup env v t) >>= deliver_job setup env t

  deliver_made-Keeps : (t : JobTemplate) (v : World) → Keeps S (deliver_made t v)
  deliver_made-Keeps t v =
      bind_Keeps S (from_option (make_job setup env v t)) (deliver_job setup env t)
        (from_option-Keeps S _) (deliver_job-Keeps t)

  abbrev make_and_deliver : JobTemplate → M (Unit {0})
  make_and_deliver t = modify_client (note_rate setup env) >> get >>= deliver_made t

  make_and_deliver-Keeps : (t : JobTemplate) → Keeps S (make_and_deliver t)
  make_and_deliver-Keeps t =
      bind_Keeps S (modify_client (note_rate setup env) >> get) (deliver_made t)
        (λ w s. note_rate-IsSafe w.client s) (deliver_made-Keeps t)

  send_new_mining_job-Keeps : (t : JobTemplate) → Keeps S (send_new_mining_job setup env t)
  unfolding send_new_mining_job
  send_new_mining_job-Keeps t =
      bind_Keeps S (enforce_session_authorization_or_close setup env) _ (enforce-Keeps setup env)
        (λ b. if_Keeps S b (make_and_deliver t) (pure tt) (make_and_deliver-Keeps t) (λ w s. s))

  raw_write-client : (l : Line) (w : World) → (raw_write setup env l w).client ≡ w.client
  raw_write-client l w = ground arith

  difficulty-IsSafe :
      (d : ℕ) (c : Client)
      → (setup.profile.stratum_min_diff ≤ d) × (d ≤ setup.profile.stratum_max_diff)
      → S c
      → S (record c { session_difficulty = d })
  difficulty-IsSafe d c within s = ground (arith, within)

  change_difficulty-Keeps :
      (t : JobTemplate) (r : Ratio) → Keeps S (change_difficulty setup env t r)
  unfolding change_difficulty
  change_difficulty-Keeps t r w s =
      let d = clamp_ratio setup.profile r in
      let w1 = record w { client = record (w.client) { session_difficulty = d } } in
      let w2 = set_clear_jobs setup env t (raw_write setup env (set_difficulty d) w1) in
      if_result S (differs setup env r w.client.session_difficulty)
        (send_new_mining_job setup env (record t { clear_jobs = true }) w2) (some tt, w)
        (send_new_mining_job-Keeps (record t { clear_jobs = true }) w2
          (subst S (sym (raw_write-client (set_difficulty d) w1))
            (difficulty-IsSafe d w.client (clamp_ratio-within setup env o r) s)))
        s

  check_difficulty-Keeps :
      (fuel : ℕ) (t : JobTemplate) → Keeps S (check_difficulty setup env fuel t)
  unfolding check_difficulty
  check_difficulty-Keeps fuel t w s =
      option_result S w.client.statistics (none, w) _ s
        (λ st.
          option_result S (get_suggested_difficulty fuel env.now w.client.session_difficulty st)
            (none, w) _ s
            (λ x.
              option_result S x (some tt, w) (λ target. change_difficulty setup env t target w) s
                (λ target. change_difficulty-Keeps t target w s)))

  start_client-IsSafe :
      (c : Client) → may_start setup env c ≡ true → S c → S (start_client setup env c)
  unfolding may_start
  start_client-IsSafe c m s =
      ground (arith, m, clamp_difficulty-within setup env o (pos (grain / 10)))

  start_work-IsSafe : (c : Client) → S c → S (start_work setup env c)
  start_work-IsSafe c s = core-IsSafe setup env c (start_work setup env c) refl s

  announce_difficulty-Keeps : Keeps S (announce_difficulty setup env)
  unfolding announce_difficulty
  announce_difficulty-Keeps w s =
      if_result S (is_some w.client.client_suggested_difficulty) (some true, w)
        (write env (set_difficulty w.client.session_difficulty) w) s
        (write-Keeps setup.profile env _ w s)

  init_stratum-IsSafe :
      (w : World)
      → may_start setup env w.client ≡ true
      → S w.client
      → S (init_stratum setup env w).1.client
  unfolding init_stratum
  init_stratum-IsSafe w m s =
      bind_Keeps S (announce_difficulty setup env)
        (λ success. if success then modify_client (start_work setup env) else pure tt)
        announce_difficulty-Keeps
        (λ b.
          if_Keeps S b (modify_client (start_work setup env)) (pure tt)
            (λ v t. start_work-IsSafe v.client t) (λ v t. t))
        (record w { client = start_client setup env w.client }) (start_client-IsSafe w.client m s)

  start_if_ready-Keeps : Keeps S (start_if_ready setup env)
  unfolding start_if_ready
  start_if_ready-Keeps w s = elim (Bool-cases (may_start setup env w.client)) [
    | inl y ↦ ground (arith, y, init_stratum-IsSafe w y s)
    | inr n ↦ ground (arith, n, s)
  ]

  handle_message-Keeps :
      (j : Json)
      → Keeps S (
          dispatch setup env (method_of (as_text (member (codes "method") j))) j >>= λ go_on.
          if go_on then start_if_ready setup env else pure tt)
  handle_message-Keeps j =
      bind_Keeps S (dispatch setup env (method_of (as_text (member (codes "method") j))) j) _
        (dispatch-Keeps setup env o _ j)
        (λ b. if_Keeps S b (start_if_ready setup env) (pure tt) start_if_ready-Keeps (λ w s. s))

  handle_json-Keeps : (j : Json) → Keeps S (handle_json setup env j)
  unfolding handle_json
  handle_json-Keeps null = λ w s. s
  handle_json-Keeps (bool b) = handle_message-Keeps (bool b)
  handle_json-Keeps (num n) = handle_message-Keeps (num n)
  handle_json-Keeps (str t) = handle_message-Keeps (str t)
  handle_json-Keeps (arr vs) = handle_message-Keeps (arr vs)
  handle_json-Keeps (obj fs) = handle_message-Keeps (obj fs)

  or_end :
      (r : Option (Unit {0}) × World)
      → S r.1.client
      → S (if is_some r.0 then r.1 else end_socket r.1).client
  unfolding end_socket
  or_end (none, w) s = s
  or_end (some tt, w) s = s

  forget : Bool → World → World
  forget b w =
      if b then record w { client = record (w.client) { mining_submission_hashes = [] } } else w

  forget-IsSafe : (b : Bool) (w : World) → S w.client → S (forget b w).client
  unfolding forget
  forget-IsSafe true w s = ground arith
  forget-IsSafe false w s = s

  run-IsSafe : (e : Event) (w : World) → S w.client → S (run setup env e w).client
  unfolding run handle_line on_new_mining_job end_socket forget
  run-IsSafe (received none) w s = s
  run-IsSafe (received (some j)) w s = or_end (handle_json setup env j w) (handle_json-Keeps j w s)
  run-IsSafe (new_job t) w s =
      let cleared = forget t.clear_jobs w in
      or_end (send_new_mining_job setup env t cleared)
        (send_new_mining_job-Keeps t cleared (forget-IsSafe t.clear_jobs w s))
  run-IsSafe (difficulty_due fuel t) w s = check_difficulty-Keeps fuel t w s
  run-IsSafe authorization_due w s = enforce-Keeps setup env w s
  run-IsSafe closed w s = destroy-IsSafe setup.profile w s

-- Whatever lines, jobs, timers and answers come, and in whichever order: the work of a session has
-- started only if it subscribed and authorized, a session that needs a device and counts as
-- authorized is bound to one, and the difficulty stays between the profile's limits. The profile's
-- first difficulty has to be between them.
pub run_all-IsSafe :
    (setup : Setup) (es : List (Env × Event)) (w : World)
    → Ordered setup.profile
    → IsSafe setup.profile w.client
    → IsSafe setup.profile (run_all setup es w).client
unfolding run_all
run_all-IsSafe setup [] w o s = s
run_all-IsSafe setup ((env, e) ∷ es) w o s =
    run_all-IsSafe setup es (run setup env e w) o (run-IsSafe setup env o e w s)

pub new_client-IsSafe :
    (setup : Setup) (locked : Text)
    → Ordered setup.profile
    → IsSafe setup.profile (new_client setup locked)
unfolding new_client
new_client-IsSafe setup locked o = ground (arith, o.init_low, o.init_high)
