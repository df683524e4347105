-- ===== src/Reaper/Hmc/Trace.antt =====
-- What the HMC client adds to the trace, for any property of events that its requests and pauses have.
use os_autoinst_scripts.Prelude.{ℕ, zero, suc, Option, none, some, ltb}
use os_autoinst_scripts.Py.Str.{Str}
use os_autoinst_scripts.Py.Json.{Value, null, object}
use os_autoinst_scripts.Reaper.Machine.{
  Machine, Request, empty, json, garbled, Reply, answered, http_error, failed, interrupted,
}
use os_autoinst_scripts.Reaper.Exec.{
  Event, sent, slept, HmcFailure, hmc, os_error, Result, ok, err, Exec, pure, raise,
}
use os_autoinst_scripts.Reaper.Exec.Keeps.{Keeps, keeps_rules, Keeps-if, Keeps-bind}
use os_autoinst_scripts.Reaper.Workers.{is_text}
use os_autoinst_scripts.Reaper.Hmc.{
  HmcSession, or_key_error, index, reply_outcome, suppress_exit, request, with_token, enter, exit,
  with_session, get, poll, poll_fuel, poll_until, check_job, wait_for_job, operated, operate,
  wait_for_lpar_status, reset_and_load,
}

module _ {W : Type 0} (m : Machine W) (P : Event → Type 0) where
  or_key_error-Keeps : (k : Str) (v : Option Value) → Keeps {W = W} P (or_key_error k v)
  unfolding or_key_error
  or_key_error-Keeps k none = search keeps_rules
  or_key_error-Keeps k (some v) = search keeps_rules

  index-Keeps : (k : Str) (v : Value) → Keeps {W = W} P (index k v)
  unfolding index
  index-Keeps k (object fs) = search or_key_error-Keeps
  index-Keeps k null = search keeps_rules
  index-Keeps k _ = search keeps_rules

  reply_outcome-Keeps : (path : Str) (r : Reply) → Keeps {W = W} P (reply_outcome path r)
  unfolding reply_outcome
  reply_outcome-Keeps path (answered status empty) = search keeps_rules
  reply_outcome-Keeps path (answered status (json null)) = search keeps_rules
  reply_outcome-Keeps path (answered status (json _)) = search keeps_rules
  reply_outcome-Keeps path (answered status garbled) = search keeps_rules
  reply_outcome-Keeps path (http_error code) = search keeps_rules
  reply_outcome-Keeps path failed = search keeps_rules
  reply_outcome-Keeps path interrupted = search keeps_rules

  suppress_exit-Keeps : (r : Result (ℕ × Option Value)) → Keeps {W = W} P (suppress_exit r)
  unfolding suppress_exit
  suppress_exit-Keeps (ok a) = search keeps_rules
  suppress_exit-Keeps (err (hmc f)) = search keeps_rules
  suppress_exit-Keeps (err os_error) = search keeps_rules
  suppress_exit-Keeps (err _) = search keeps_rules

  module _ (on_sent : (q : Request) → P (sent q)) (on_slept : (t : ℕ) → P (slept t)) where
    request-Keeps :
        (s : HmcSession) (method path : Str) (body : Option Value) (t : ℕ)
        → Keeps P (request m s method path body t)
    unfolding request
    request-Keeps s method path body t = search (keeps_rules, on_sent, reply_outcome-Keeps)

    with_token-Keeps :
        (s : HmcSession) (answer : ℕ × Option Value) → Keeps P (with_token m s answer)
    unfolding with_token
    with_token-Keeps s (status, none) = search keeps_rules
    with_token-Keeps s (status, some body) = search (keeps_rules, index-Keeps)

    pub with_session-Keeps :
        (s : HmcSession) (body : HmcSession → Exec W Unit)
        → ((opened : HmcSession) → Keeps P (body opened))
        → Keeps P (with_session m s body)
    unfolding with_session enter exit
    with_session-Keeps s body h =
        Keeps-bind _ _ (search (keeps_rules, request-Keeps, with_token-Keeps)) λ opened.
          Keeps-bind _ _ (search (keeps_rules, h))
            λ r. search (keeps_rules, request-Keeps, suppress_exit-Keeps)

    get-Keeps : (s : HmcSession) (path : Str) → Keeps P (get m s path)
    unfolding get
    get-Keeps s path = search (keeps_rules, request-Keeps)

    poll-Keeps :
        (fuel : ℕ) (s : HmcSession) (path expected : Str) (deadline pause : ℕ)
        (failure : HmcFailure)
        → Keeps P (poll m fuel s path expected deadline pause failure)
    unfolding poll
    poll-Keeps zero s path expected deadline pause failure = search keeps_rules
    poll-Keeps (suc fuel) s path expected deadline pause failure =
        Keeps-bind _ _ (get-Keeps s path) λ found. Keeps-bind _ _ (index-Keeps _ found) λ status.
          Keeps-if (is_text expected status) (pure found) _ (λ _. search keeps_rules)
            λ _. Keeps-bind _ _ (search keeps_rules) λ now.
              Keeps-if (ltb deadline now) (raise (hmc failure)) _ (λ _. search keeps_rules)
                λ _.
                  Keeps-bind _ _ (search (keeps_rules, on_slept))
                    λ _. poll-Keeps fuel s path expected deadline pause failure

    poll_until-Keeps :
        (s : HmcSession) (path expected : Str) (deadline pause : ℕ) (failure : HmcFailure)
        → Keeps P (poll_until m s path expected deadline pause failure)
    unfolding poll_until
    poll_until-Keeps s path expected deadline pause failure = record {
      at =
          λ st. (poll-Keeps (poll_fuel m deadline st) s path expected deadline pause failure).at st;
    }

    wait_for_job-Keeps : (s : HmcSession) (path op : Str) → Keeps P (wait_for_job m s path op)
    unfolding wait_for_job check_job
    wait_for_job-Keeps s path op = search (keeps_rules, poll_until-Keeps, index-Keeps) depth 8

    operated-Keeps :
        (s : HmcSession) (path : Str) (answer : ℕ × Option Value)
        → Keeps P (operated m s path answer)
    unfolding operated
    operated-Keeps s path (status, none) = search keeps_rules
    operated-Keeps s path (status, some result) =
        search (keeps_rules, index-Keeps, wait_for_job-Keeps) depth 8

    pub reset_and_load-Keeps : (s : HmcSession) (lpar : Str) → Keeps P (reset_and_load m s lpar)
    unfolding reset_and_load operate wait_for_lpar_status
    reset_and_load-Keeps s lpar =
        search
          (keeps_rules, index-Keeps, get-Keeps, request-Keeps, operated-Keeps, poll_until-Keeps)
          depth 16
