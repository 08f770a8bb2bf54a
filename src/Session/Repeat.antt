-- ===== src/Session/Repeat.antt =====
-- A submission that is sent again to a session of src/models/StratumV1Client.ts.
use hc_pool.Base.{◌≡◌, refl, ap, sym, subst, true, some, List, [], ◌∷◌, arith}
use hc_pool.Base.Text.{codes}
use hc_pool.Base.Hex.{Bytes}
use hc_pool.Messages.{MiningSubmitMessage, fingerprint, duplicate_share}
use hc_pool.Session.State.{Client, World, Setup, Env, pure, ◌>>◌}
use hc_pool.Session.Auth.{enforce_session_authorization_or_close}
use hc_pool.Session.Work.{session_of}
use hc_pool.Session.Submit.{has, locate, ensure_entity, refuse}
use hc_pool.Session.Score.{check_duplicate, judge_lookup, handle_mining_submission}
use hc_pool.Session.Frame.{core, Core, refuse-Kept, judge_lookup-Kept}
use hc_pool.Session.Keeps.{Keeps, bind_Keeps, then_Keeps, if_Keeps, if_result}
use hc_pool.Session.Replay.{enforce-Seen}
use hc_pool.Session.Accept.{check_duplicate-once}
use hc_pool.Session.Gate.{handle_mining_submission-Sound}

abbrev Noted : Bytes → Client → Type 0
Noted h c = has h c.mining_submission_hashes ≡ true

-- Submissions that come one after another, each in its own environment.
pub submit_all : Setup → List (Env × MiningSubmitMessage) → World → World
submit_all setup [] w = w
submit_all setup ((env, m) ∷ more) w =
    submit_all setup more (handle_mining_submission setup env m w).1

module _ (setup : Setup) (env : Env) (h : Bytes) where
  enforce-Noted : Keeps (Noted h) (enforce_session_authorization_or_close setup env)
  enforce-Noted w p =
      subst (λ hs. has h hs ≡ true)
        (sym (enforce-Seen setup env w.client.mining_submission_hashes w refl)) p

  ensure_entity-Noted : Keeps (Noted h) (ensure_entity setup env)
  unfolding ensure_entity
  ensure_entity-Noted w p = ground (arith, p)

  has-later : (k : Bytes) (hs : List Bytes) → has h hs ≡ true → has h (k ∷ hs) ≡ true
  has-later k hs p = ground (arith, p)

  core-Noted : (c c' : Client) → core c' ≡ core c → Noted h c → Noted h c'
  core-Noted c c' e p = subst (λ hs. has h hs ≡ true) (sym (ap (λ (k : Core). k.hashes) e)) p

  check_duplicate-Noted : (m : MiningSubmitMessage) → Keeps (Noted h) (check_duplicate setup env m)
  unfolding check_duplicate
  check_duplicate-Noted m w p =
      let k = fingerprint setup.bitcoin m in
      let noted = record w {
        client = record (w.client) {
          mining_submission_hashes = k ∷ w.client.mining_submission_hashes;
        };
      } in
      let x = locate noted.service (session_of noted.client) m env.now in
      if_result (Noted h) (has k w.client.mining_submission_hashes)
        (refuse setup env m.id duplicate_share (codes "Duplicate share") w)
        (judge_lookup setup env m x noted)
        (core-Noted w.client
          (refuse setup env m.id duplicate_share (codes "Duplicate share") w).1.client
          (refuse-Kept setup env (core w.client) m.id duplicate_share (codes "Duplicate share") w
            refl)
          p)
        (core-Noted noted.client (judge_lookup setup env m x noted).1.client
          (judge_lookup-Kept setup env (core noted.client) m x noted refl)
          (has-later k w.client.mining_submission_hashes p))

  handle_mining_submission-Noted :
      (m : MiningSubmitMessage) → Keeps (Noted h) (handle_mining_submission setup env m)
  unfolding handle_mining_submission
  handle_mining_submission-Noted m =
      bind_Keeps (Noted h) (enforce_session_authorization_or_close setup env) _ enforce-Noted (λ b.
        if_Keeps (Noted h) b (ensure_entity setup env >> check_duplicate setup env m) (pure _)
          (then_Keeps (Noted h) (ensure_entity setup env) (check_duplicate setup env m)
            ensure_entity-Noted (check_duplicate-Noted m))
          (λ w p. p))

submit_all-Noted :
    (setup : Setup) (h : Bytes) (more : List (Env × MiningSubmitMessage)) (w : World)
    → Noted h w.client
    → Noted h (submit_all setup more w).client
unfolding submit_all
submit_all-Noted setup h [] w p = p
submit_all-Noted setup h ((env, m) ∷ more) w p =
    submit_all-Noted setup h more (handle_mining_submission setup env m w).1
      (handle_mining_submission-Noted setup env h m w p)

-- A submission with the bytes of one that got to the check for duplicates is not accepted, whatever
-- was found of the first, and whatever other submissions the session handled in between, each at its
-- own time. Between the two there are submissions only: a template that clears the jobs is not among
-- them.
pub handle_mining_submission-refuses_again :
    (setup : Setup) (env env' : Env) (m m' : MiningSubmitMessage)
    (between : List (Env × MiningSubmitMessage)) (w w' : World)
    → fingerprint setup.bitcoin m' ≡ fingerprint setup.bitcoin m
    → ¬ (
        handle_mining_submission setup env' m'
          (submit_all setup between (check_duplicate setup env m w).1)
        ≡ (some true, w'))
handle_mining_submission-refuses_again setup env env' m m' between w w' same e =
    let h = fingerprint setup.bitcoin m in
    let last = submit_all setup between (check_duplicate setup env m w).1 in
    let seen =
      submit_all-Noted setup h between (check_duplicate setup env m w).1
        (check_duplicate-once setup env m w) in
    let (permitted, s) = handle_mining_submission-Sound setup env' m' last w' e in
    cc (s.fresh, seen, same)
