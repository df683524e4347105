-- ===== src/Reaper/Hmc/Session.antt =====
-- The end of an HMC session, and the exceptions of the methods of the client.
use os_autoinst_scripts.Prelude.{
  ℕ, ◌≡◌, refl, ap, ◌∙◌, inl, inr, ◌++◌, Option, none, some, ◌∷◌, arith, Bool, true, false,
  Bool-cases, if◌then◌else◌,
}
use os_autoinst_scripts.Py.Str.{Str, codes}
use os_autoinst_scripts.Py.Json.{Value, null}
use os_autoinst_scripts.Reaper.Machine.{
  Machine, HasClock, Request, empty, json, garbled, Reply, answered, http_error, failed,
  interrupted,
}
use os_autoinst_scripts.Reaper.Exec.{
  Exec, St, hmc, os_error, crash, Result, ok, err, ◌>>=◌, ◌>>◌, follow, >>=-state, pure, raise,
  attempt, resume, send, sent,
}
use os_autoinst_scripts.Reaper.Exec.Raises.{Fine, Raises, raises_rules, Raises-try, Raises-bind}
use os_autoinst_scripts.Reaper.Hmc.{
  HmcSession, session_header, reply_outcome, request, suppress_exit, with_token, enter, exit,
  with_session, check_job, wait_for_job, operated, operate, wait_for_lpar_status, reset_and_load,
}
use os_autoinst_scripts.Reaper.Hmc.Laws.{
  FromHmc, index-FromHmc, request-FromHmc, get-FromHmc, poll_until-FromHmc,
}

module _ {W : Type 0} (m : Machine W) where
  suppress_exit-FromHmc :
      {A : Type 0} (r : Result A) → Fine FromHmc r → Raises {W = W} FromHmc (suppress_exit r)
  unfolding suppress_exit
  suppress_exit-FromHmc (ok a) h = search raises_rules
  suppress_exit-FromHmc (err (hmc f)) h = search raises_rules
  suppress_exit-FromHmc (err os_error) h = search raises_rules
  suppress_exit-FromHmc (err e) h = search raises_rules

  exit-FromHmc : (s : HmcSession) → Raises FromHmc (exit m s)
  unfolding exit
  exit-FromHmc s = Raises-try _ _ (request-FromHmc m s _ _ _ _) (λ r h. suppress_exit-FromHmc r h)

  with_token-FromHmc :
      (s : HmcSession) (answer : ℕ × Option Value) → Raises FromHmc (with_token m s answer)
  unfolding with_token
  with_token-FromHmc s (status, none) = search raises_rules
  with_token-FromHmc s (status, some body) = search (raises_rules, index-FromHmc m)

  enter-FromHmc : (s : HmcSession) → Raises FromHmc (enter m s)
  unfolding enter
  enter-FromHmc s = search (raises_rules, request-FromHmc, with_token-FromHmc)

  pub with_session-FromHmc :
      (s : HmcSession) (body : HmcSession → Exec W Unit)
      → ((opened : HmcSession) → Raises FromHmc (body opened))
      → Raises FromHmc (with_session m s body)
  unfolding with_session
  with_session-FromHmc s body h =
      Raises-bind _ _ (enter-FromHmc s)
        λ opened. Raises-try _ _ (h opened) λ r fine. search (raises_rules, exit-FromHmc)

  check_job-FromHmc : (op : Str) (job : Value) → Raises {W = W} FromHmc (check_job m op job)
  unfolding check_job
  check_job-FromHmc op job = search (raises_rules, index-FromHmc m)

  module _ (clock : HasClock m) where
    wait_for_job-FromHmc :
        (s : HmcSession) (job_path op : Str) → Raises FromHmc (wait_for_job m s job_path op)
    unfolding wait_for_job
    wait_for_job-FromHmc s job_path op = Raises-bind _ _ (search raises_rules) λ now.
        Raises-bind _ _ (poll_until-FromHmc m s _ _ _ _ _ clock (omega arith))
          λ job. check_job-FromHmc op job

    operated-FromHmc :
        (s : HmcSession) (path : Str) (answer : ℕ × Option Value)
        → Raises FromHmc (operated m s path answer)
    unfolding operated
    operated-FromHmc s path (status, none) = search raises_rules
    operated-FromHmc s path (status, some result) =
        search (raises_rules, index-FromHmc m, wait_for_job-FromHmc) depth 8

    operate-FromHmc :
        (s : HmcSession) (path : Str) (body : Value) → Raises FromHmc (operate m s path body)
    unfolding operate
    operate-FromHmc s path body = search (raises_rules, request-FromHmc, operated-FromHmc)

    wait_for_lpar_status-FromHmc :
        (s : HmcSession) (lpar expected : Str)
        → Raises FromHmc (wait_for_lpar_status m s lpar expected)
    unfolding wait_for_lpar_status
    wait_for_lpar_status-FromHmc s lpar expected = Raises-bind _ _ (search raises_rules) λ now.
        Raises-bind _ _ (poll_until-FromHmc m s _ _ _ _ _ clock (omega arith))
          λ found. search raises_rules

    pub reset_and_load-FromHmc :
        (s : HmcSession) (lpar : Str) → Raises FromHmc (reset_and_load m s lpar)
    unfolding reset_and_load
    reset_and_load-FromHmc s lpar =
        search
          (
            raises_rules,
            index-FromHmc m,
            get-FromHmc,
            operate-FromHmc,
            wait_for_lpar_status-FromHmc,
          )
          depth 14

-- The request that logs a session off.
abbrev pub logoff : HmcSession → Request
logoff s = record {
  method = codes "DELETE";
  url = s.base_url ++ codes "/sessions/this-session";
  body = none;
  session = session_header s.token;
  verified = s.verify_tls;
  timeout = 120;
}

-- The answer is not JSON, or the connection was dropped within it.
abbrev pub is_unreadable : Reply → Bool
is_unreadable (answered status garbled) = true
is_unreadable interrupted = true
is_unreadable _ = false

-- What a `with` block leaves, by how its logon ended.
abbrev pub SessionEnds :
    {W : Type 0}
    → Machine W
    → (HmcSession → Exec W Unit)
    → Result HmcSession × St W
    → Result (Unit {0}) × St W
    → Type 0
SessionEnds m body (ok opened, s1) out =
    let (ended, s2) = body opened s1 in
    (out.1.trace ≡ sent (logoff opened) ∷ s2.trace)
    × (out.0 ≡ (if is_unreadable (m.urlopen (logoff opened) s2.world).0 then err crash else ended))
SessionEnds m body (err e, s1) out = out ≡ (err e, s1)

module _ {W : Type 0} (m : Machine W) where
  reply_outcome-trace :
      (path : Str) (r : Reply) (s : St W) → (reply_outcome path r s).1.trace ≡ s.trace
  unfolding reply_outcome pure raise
  reply_outcome-trace path r s = ground arith

  suppress_exit-trace :
      (r : Result (ℕ × Option Value)) (s : St W) → (suppress_exit r s).1.trace ≡ s.trace
  unfolding suppress_exit pure raise
  suppress_exit-trace r s = ground arith

  abbrev unless_unreadable : Reply → Result (Unit {0}) → Result (Unit {0})
  unless_unreadable r ended = if is_unreadable r then err crash else ended

  suppressed :
      (path : Str) (r : Reply) (s1 s2 : St W)
      → (suppress_exit (reply_outcome path r s1).0 s2).0 ≡ unless_unreadable r (ok tt)
  unfolding suppress_exit reply_outcome pure raise
  suppressed path (answered status empty) s1 s2 = refl
  suppressed path (answered status (json null)) s1 s2 = refl
  suppressed path (answered status (json _)) s1 s2 = refl
  suppressed path (answered status garbled) s1 s2 = refl
  suppressed path (http_error code) s1 s2 = refl
  suppressed path failed s1 s2 = refl
  suppressed path interrupted s1 s2 = refl

  -- A failure of the logoff is suppressed, unless its answer cannot be read.
  exit-result :
      (opened : HmcSession) (s : St W)
      → (exit m opened s).0 ≡ unless_unreadable (m.urlopen (logoff opened) s.world).0 (ok tt)
  unfolding exit request send ◌>>=◌ attempt
  exit-result opened s = suppressed _ _ _ _

  exit-trace :
      (opened : HmcSession) (s : St W) → (exit m opened s).1.trace ≡ sent (logoff opened) ∷ s.trace
  unfolding exit request send ◌>>=◌ attempt
  exit-trace opened s = suppress_exit-trace _ _ ∙ reply_outcome-trace _ _ _

  then_resume :
      (r ended : Result (Unit {0})) (reply : Reply) (s : St W)
      → r ≡ unless_unreadable reply (ok tt)
      → (follow r (λ _. resume ended) s).0 ≡ unless_unreadable reply ended
  unfolding resume
  then_resume r ended reply s e = elim (Bool-cases (is_unreadable reply)) [
    | inl u ↦ rw (e, u) refl
    | inr u ↦ rw (e, u) refl
  ]

  closing :
      (body : HmcSession → Exec W Unit) (r : Result HmcSession) (s1 : St W)
      → SessionEnds m body
          (r, s1)
          (follow r (λ opened. attempt (body opened) >>= λ r. exit m opened >> resume r) s1)
  unfolding ◌>>=◌ attempt
  closing body (ok opened) s1 =
      let ended = (body opened s1).0 in
      let s2 = (body opened s1).1 in
      (
        ap (λ (s : St W). s.trace)
              (>>=-state (exit m opened) (λ _. resume ended) s2 (λ _ s'. unfold resume in refl))
            ∙ exit-trace opened s2,
        then_resume (exit m opened s2).0 ended (m.urlopen (logoff opened) s2.world).0
            (exit m opened s2).1 (exit-result opened s2),
      )
  closing body (err e) s1 = refl

  -- If the logon fails, a `with` block raises what the logon raised and nothing is logged off. If it
  -- succeeds, the session is logged off behind the body, whether the body returned or raised, by the
  -- last request of the block. The block ends as the body did, unless the answer to the logoff is not
  -- JSON or was cut off by a dropped connection; then it raises that exception instead.
  pub with_session-ends :
      (s : HmcSession) (body : HmcSession → Exec W Unit) (s0 : St W)
      → SessionEnds m body (enter m s s0) (with_session m s body s0)
  unfolding with_session ◌>>=◌
  with_session-ends s body s0 = closing body (enter m s s0).0 (enter m s s0).1
