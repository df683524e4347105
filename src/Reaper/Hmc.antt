-- ===== src/Reaper/Hmc.antt =====
-- `HmcSession`, its helpers and `hmc_credentials`: the HMC REST API client of
-- s390x-qemu-zombie-reaper.py.
pub mod Laws
pub mod Trace
pub mod Session
pub mod Tidy
use os_autoinst_scripts.Prelude.{
  ℕ, zero, suc, ◌+◌, ◌-◌, ◌*◌, ◌++◌, Bool, true, false, Option, none, some, List, [], ◌∷◌, ◌==◌,
  ltb, if◌then◌else◌,
}
use os_autoinst_scripts.Py.Str.{Str, codes, remove_prefix}
use os_autoinst_scripts.Py.Json.{
  Value, null, flag, int, float, text, array, object, nil, Fields, end, field, field?,
}
use os_autoinst_scripts.Reaper.Machine.{
  Machine, Request, Body, empty, json, garbled, Reply, answered, http_error, failed, interrupted,
  second,
}
use os_autoinst_scripts.Reaper.Exec.{
  Exec, St, HmcFailure, no_body, bad_status, unexpected, job_timeout, job_failed, status_timeout,
  Error, unreachable, hmc, os_error, key_error, usage, crash, out_of_fuel, Result, ok, err, pure,
  raise, attempt, resume, ◌>>=◌, ◌>>◌, send, time, sleep,
}
use os_autoinst_scripts.Reaper.Config.{
  ReaperConfig, hmc_job_timeout, hmc_status_timeout, http_accepted, http_no_content, job_status_ok,
}
use os_autoinst_scripts.Reaper.Workers.{is_text}

pub record HmcSession : Type 0 where
  pub base_url : Str
  pub user : Str
  pub password : Str
  pub verify_tls : Bool
  pub token : Option Str

-- `if self.token:`
unfoldable pub session_header : Option Str → Option Str
session_header none = none
session_header (some []) = none
session_header (some (c ∷ s)) = some (c ∷ s)

-- `value or {}`
unfoldable pub or_object : Option Value → Value
or_object none = object end
or_object (some (flag false)) = object end
or_object (some (int zero)) = object end
or_object (some (float zero)) = object end
or_object (some (text [])) = object end
or_object (some (array nil)) = object end
or_object (some v) = v

-- `code == n` for a JSON value
unfoldable pub is_number : ℕ → Value → Bool
is_number n (int k) = k == n
is_number n (float t) = t == n * second
is_number n _ = false

module _ {W : Type 0} where
  unfoldable pub or_key_error : Str → Option Value → Exec W Value
  or_key_error k none = raise (key_error k)
  or_key_error k (some v) = pure v

  -- `value[key]`
  unfoldable pub index : Str → Value → Exec W Value
  unfolding or_key_error
  index k (object fs) = or_key_error k (field? k fs)
  index k _ = raise crash

  -- What `request` makes of a response: the status and the decoded body, `none` for no body or null.
  unfoldable pub reply_outcome : Str → Reply → Exec W (ℕ × Option Value)
  reply_outcome path (answered status empty) = pure (status, none)
  reply_outcome path (answered status (json null)) = pure (status, none)
  reply_outcome path (answered status (json v)) = pure (status, some v)
  reply_outcome path (answered status garbled) = raise crash
  reply_outcome path (http_error code) = raise (hmc (bad_status path code))
  reply_outcome path failed = raise os_error
  reply_outcome path interrupted = raise crash

  -- `contextlib.suppress(OSError, HmcError)`
  unfoldable pub suppress_exit : {A : Type 0} → Result A → Exec W Unit
  suppress_exit (ok _) = pure tt
  suppress_exit (err (hmc _)) = pure tt
  suppress_exit (err os_error) = pure tt
  suppress_exit (err e) = raise e

module _ {W : Type 0} (m : Machine W) where
  -- `str(value)`
  unfoldable pub str_of : Value → Str
  str_of (text s) = s
  str_of v = m.render v

  unfoldable pub request : HmcSession → Str → Str → Option Value → ℕ → Exec W (ℕ × Option Value)
  unfolding reply_outcome
  request s method path body timeout = do
    reply ← send m (record {
      method = method;
      url = s.base_url ++ path;
      body = body;
      session = session_header s.token;
      verified = s.verify_tls;
      timeout = timeout;
    })
    reply_outcome path reply

  -- the token of the answer to the logon
  unfoldable pub with_token : HmcSession → ℕ × Option Value → Exec W HmcSession
  unfolding index str_of
  with_token s (status, none) = raise (hmc (no_body status))
  with_token s (status, some body) = do
    token ← index (codes "api-session") body
    pure (record s { token = some (str_of token) })

  -- `__enter__`
  unfoldable pub enter : HmcSession → Exec W HmcSession
  unfolding with_token
  enter s = do
    answer ←
        request s (codes "POST") (codes "/sessions")
          (some (
            object (
              field (codes "userid") (text s.user)
                (field (codes "password") (text s.password) end))))
          120
    with_token s answer

  -- `__exit__`
  unfoldable pub exit : HmcSession → Exec W Unit
  unfolding suppress_exit
  exit s = do
    r ← attempt (request s (codes "DELETE") (codes "/sessions/this-session") none 120)
    suppress_exit r

  -- `with HmcSession(…) as hmc: body`. Where the logon fails, nothing is logged off.
  unfoldable pub with_session : HmcSession → (HmcSession → Exec W Unit) → Exec W Unit
  with_session s body = do opened ← enter s; r ← attempt (body opened); exit opened; resume r

  unfoldable pub get : HmcSession → Str → Exec W Value
  unfolding or_object
  get s path = do answer ← request s (codes "GET") path none 120; pure (or_object answer.1)

  -- `while get(path)["status"] != expected`, with the deadline and the pause of the loop; it returns
  -- the last object read.
  unfoldable pub poll : ℕ → HmcSession → Str → Str → ℕ → ℕ → HmcFailure → Exec W Value
  poll zero s path expected deadline pause failure = raise out_of_fuel
  poll (suc fuel) s path expected deadline pause failure =
      let again = sleep m pause >> poll fuel s path expected deadline pause failure in
      do
        found ← get s path
        status ← index (codes "status") found
        if is_text expected status
            then pure found
            else do now ← time m; if ltb deadline now then raise (hmc failure) else again

  -- Each round sleeps, so there are no more rounds than microseconds left, and two.
  abbrev pub poll_fuel : ℕ → St W → ℕ
  poll_fuel deadline s = suc (suc (suc (deadline - m.now s.world)))

  unfoldable pub poll_until : HmcSession → Str → Str → ℕ → ℕ → HmcFailure → Exec W Value
  unfolding poll
  poll_until session path expected deadline pause failure s =
      poll (poll_fuel deadline s) session path expected deadline pause failure s

  -- the check of `job-status-code` after the loop of `_wait_for_job`
  unfoldable pub check_job : Str → Value → Exec W Unit
  unfolding index is_number
  check_job operation job = do
    code ← index (codes "job-status-code") job
    if is_number job_status_ok code then pure tt else do
      reason ← index (codes "job-reason-code") job
      raise (hmc (job_failed operation code reason))

  unfoldable pub wait_for_job : HmcSession → Str → Str → Exec W Unit
  unfolding poll_until check_job
  wait_for_job s job_path operation = do
    now ← time m
    job ←
        poll_until s job_path (codes "complete") (now + hmc_job_timeout * second) (5 * second)
          (job_timeout operation)
    check_job operation job

  -- the rest of `operate` after the response
  unfoldable pub operated : HmcSession → Str → ℕ × Option Value → Exec W Unit
  unfolding index str_of wait_for_job
  operated s path (status, none) =
      if status == http_no_content then pure tt else raise (hmc (unexpected path status))
  operated s path (status, some result) =
      if status == http_no_content
      then pure tt
      else if status == http_accepted
      then (do
        uri ← index (codes "job-uri") result
        wait_for_job s (remove_prefix (str_of uri) (codes "/api")) path)
      else raise (hmc (unexpected path status))

  unfoldable pub operate : HmcSession → Str → Value → Exec W Unit
  unfolding operated
  operate s path body = do
    answer ← request s (codes "POST") path (some body) 120
    operated s path answer

  unfoldable pub wait_for_lpar_status : HmcSession → Str → Str → Exec W Unit
  unfolding poll_until
  wait_for_lpar_status s lpar expected = do
    now ← time m
    poll_until s lpar expected (now + hmc_status_timeout * second) (10 * second)
        (status_timeout lpar expected)
    pure tt

  -- The print before the reset reads the name too.
  unfoldable pub reset_and_load : HmcSession → Str → Exec W Unit
  unfolding index operate wait_for_lpar_status
  reset_and_load s lpar = do
    props ← get s lpar
    index (codes "name") props
    operate s (lpar ++ codes "/operations/reset-clear")
        (object (field (codes "force") (flag true) end))
    address ← index (codes "last-used-load-address") props
    operate s (lpar ++ codes "/operations/load") (
        object (
          field (codes "load-address") address
            (field (codes "clear-indicator") (flag false) (field (codes "force") (flag true) end))))
    wait_for_lpar_status s lpar (codes "operating")

  -- A login and a password that are both there and not empty.
  unfoldable pub both : Option Str → Option Str → Option (Str × Str)
  both (some (c ∷ u)) (some (d ∷ p)) = some (c ∷ u, d ∷ p)
  both _ _ = none

  unfoldable pub netrc_entry : Option Str → Option (Str × Str)
  unfolding both
  netrc_entry none = none
  netrc_entry (some host) = elim (m.authenticators host) [
    | none ↦ none
    | some (login, password) ↦ both (some login) (some password)
  ]

  unfoldable pub hmc_credentials : ReaperConfig → Option (Str × Str)
  unfolding netrc_entry both
  hmc_credentials config = elim (both config.hmc_user config.hmc_password) [
    | some credentials ↦ some credentials
    | none ↦ netrc_entry config.hmc_host
  ]
