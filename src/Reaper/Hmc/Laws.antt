-- ===== src/Reaper/Hmc/Laws.antt =====
-- The polling loop of the HMC client.
use os_autoinst_scripts.Prelude.{
  ℕ, zero, suc, ◌+◌, ◌-◌, ◌≤◌, ◌<◌, ◌≡◌, refl, sym, subst, ◌∙◌, ◌++◌, Bool, true, false, Option,
  none, some, arith, ltb, if◌then◌else◌,
}
use os_autoinst_scripts.Py.Str.{Str, codes}
use os_autoinst_scripts.Py.Json.{Value, null, flag, int, float, text, array, object, field?}
use os_autoinst_scripts.Reaper.Machine.{
  Machine, HasClock, Request, empty, json, garbled, Reply, answered, http_error, failed,
  interrupted,
}
use os_autoinst_scripts.Reaper.Exec.{
  St, HmcFailure, Error, unreachable, usage, out_of_fuel, hmc, Result, ok, err, ◌>>=◌, ◌>>◌,
  >>=-state, pure, raise, send, time, sleep,
}
use os_autoinst_scripts.Reaper.Exec.Raises.{Fine, Raises, raises_rules}
use os_autoinst_scripts.Reaper.Workers.{is_text}
use os_autoinst_scripts.Reaper.Hmc.{
  HmcSession, or_key_error, session_header, index, reply_outcome, request, get, poll, poll_until,
}

-- Does a JSON object have this `status`?
unfoldable pub has_status : Str → Value → Bool
unfolding is_text
has_status expected (object fs) = elim (field? (codes "status") fs) [
  | none ↦ false
  | some v ↦ is_text expected v
]
has_status expected _ = false

-- The exceptions of the client: of the network, of the HMC's answers, and of an answer of another
-- form than the code expects.
abbrev pub FromHmc : Error → Type 0
FromHmc (unreachable _) = ⊥
FromHmc (usage _) = ⊥
FromHmc out_of_fuel = ⊥
FromHmc _ = Unit

-- The request of `get`. Only sending it changes the state.
abbrev get_request : HmcSession → Str → Request
get_request s path = record {
  method = codes "GET";
  url = s.base_url ++ path;
  body = none;
  session = session_header s.token;
  verified = s.verify_tls;
  timeout = 120;
}

module _ {W : Type 0} (m : Machine W) where
  or_key_error-FromHmc : (k : Str) (v : Option Value) → Raises {W = W} FromHmc (or_key_error k v)
  unfolding or_key_error
  or_key_error-FromHmc k none = search raises_rules
  or_key_error-FromHmc k (some v) = search raises_rules

  pub index-FromHmc : (k : Str) (v : Value) → Raises {W = W} FromHmc (index k v)
  unfolding index
  index-FromHmc k (object fs) = search or_key_error-FromHmc
  index-FromHmc k null = search raises_rules
  index-FromHmc k (flag b) = search raises_rules
  index-FromHmc k (int n) = search raises_rules
  index-FromHmc k (float t) = search raises_rules
  index-FromHmc k (text s) = search raises_rules
  index-FromHmc k (array xs) = search raises_rules

  reply_outcome-FromHmc : (path : Str) (r : Reply) → Raises {W = W} FromHmc (reply_outcome path r)
  unfolding reply_outcome
  reply_outcome-FromHmc path (answered status empty) = search raises_rules
  reply_outcome-FromHmc path (answered status (json null)) = search raises_rules
  reply_outcome-FromHmc path (answered status (json _)) = search raises_rules
  reply_outcome-FromHmc path (answered status garbled) = search raises_rules
  reply_outcome-FromHmc path (http_error code) = search raises_rules
  reply_outcome-FromHmc path failed = search raises_rules
  reply_outcome-FromHmc path interrupted = search raises_rules

  reply_outcome-state : (path : Str) (r : Reply) (s : St W) → (reply_outcome path r s).1 ≡ s
  unfolding reply_outcome pure raise
  reply_outcome-state path (answered status empty) s = refl
  reply_outcome-state path (answered status (json null)) s = refl
  reply_outcome-state path (answered status (json _)) s = refl
  reply_outcome-state path (answered status garbled) s = refl
  reply_outcome-state path (http_error code) s = refl
  reply_outcome-state path failed s = refl
  reply_outcome-state path interrupted s = refl

  pub request-FromHmc :
      (s : HmcSession) (method path : Str) (body : Option Value) (timeout : ℕ)
      → Raises FromHmc (request m s method path body timeout)
  unfolding request
  request-FromHmc s method path body timeout = search (raises_rules, reply_outcome-FromHmc)

  pub get-state :
      (session : HmcSession) (path : Str) (s : St W)
      → (get m session path s).1 ≡ (send m (get_request session path) s).1
  unfolding get request pure
  get-state session path s =
      >>=-state (request m session (codes "GET") path none 120) _ s (λ a s'. refl)
      ∙ >>=-state (send m (get_request session path)) _ s (λ r s'. reply_outcome-state path r s')

  pub get-FromHmc : (s : HmcSession) (path : Str) → Raises FromHmc (get m s path)
  unfolding get
  get-FromHmc s path = search (raises_rules, request-FromHmc)

-- The loop was followed to its end; what it returns has the expected status.
unfoldable pub ends_well : Str → Result Value → Bool
unfolding has_status
ends_well expected (ok v) = has_status expected v
ends_well expected (err (unreachable _)) = false
ends_well expected (err (usage _)) = false
ends_well expected (err out_of_fuel) = false
ends_well expected (err _) = true

ends_well_of_err : (expected : Str) (e : Error) → FromHmc e → ends_well expected (err e) ≡ true
unfolding ends_well
ends_well_of_err expected (unreachable _) h = absurd h
ends_well_of_err expected (usage _) h = absurd h
ends_well_of_err expected out_of_fuel h = absurd h
ends_well_of_err expected _ h = refl

ends_well-Fine : (expected : Str) (r : Result Value) → ends_well expected r ≡ true → Fine FromHmc r
unfolding ends_well
ends_well-Fine expected (ok v) h = tt
ends_well-Fine expected (err (unreachable _)) h = cc
ends_well-Fine expected (err (usage _)) h = cc
ends_well-Fine expected (err out_of_fuel) h = cc
ends_well-Fine expected (err _) h = tt

module _ {W : Type 0} (m : Machine W) (session : HmcSession) (path expected : Str) where
  module _ (deadline pause : ℕ) (failure : HmcFailure) where
    abbrev polled : ℕ → St W → Result Value × St W
    polled fuel = poll m fuel session path expected deadline pause failure

    -- The states after a read, after the clock was read and after the pause.
    abbrev paused : St W → St W
    paused s = (sleep m pause (time m (get m session path s).1).1).1

    -- One round: the loop has ended well, or it goes on after the deadline was found open.
    round :
        (fuel : ℕ) (s : St W)
        → (m.now (get m session path s).1.world ≤ deadline
            → ends_well expected (polled fuel (paused s)).0 ≡ true)
        → ends_well expected (polled (suc fuel) s).0 ≡ true
    unfolding poll ◌>>=◌ time sleep index or_key_error ends_well has_status
    round fuel s rest = go (get m session path s).0 refl
      where
        s1 : St W
        s1 = (get m session path s).1

        read :
            (v : Value)
            → ends_well expected
                ((index (codes "status") v >>= λ status.
                    if is_text expected status
                    then pure v
                    else (time m >>= λ now.
                        if ltb deadline now
                        then raise (hmc failure)
                        else (sleep m pause >> polled fuel)))
                  s1).0
              ≡ true
        read (object fs) = ground (arith, rest)
        read null = ground arith
        read _ = ground arith

        go :
            (r : Result Value)
            → (get m session path s).0 ≡ r
            → ends_well expected (polled (suc fuel) s).0 ≡ true
        go (ok v) e = rw (e, poll) (read v)
        go (err x) e =
            rw (e, poll)
              (ends_well_of_err expected x
                (subst (Fine FromHmc) e ((get-FromHmc m session path).at s)))

    module _ (clock : HasClock m) (pauses : 1 ≤ pause) where
      now-get : (s : St W) → m.now s.world ≤ m.now (get m session path s).1.world
      unfolding send
      now-get s =
          let q = get_request session path in
          subst (λ (t : St W). m.now s.world ≤ m.now t.world) (sym (get-state m session path s))
            (clock.urlopen_after q s.world)

      now-paused : (s : St W) → m.now (get m session path s).1.world < m.now (paused s).world
      unfolding time sleep
      now-paused s =
          let s1 = (get m session path s).1 in
          omega (arith, clock.tick_after s1.world, clock.sleep_after pause (m.tick s1.world))

      poll-ends_well :
          (fuel : ℕ) (s : St W)
          → deadline < fuel + m.now s.world
          → ends_well expected (polled (suc fuel) s).0 ≡ true
      poll-ends_well zero s h = round zero s (λ early. absurd (omega (arith, now-get s)))
      poll-ends_well (suc fuel) s h =
          round (suc fuel) s
            (λ early. poll-ends_well fuel (paused s) (omega (arith, now-get s, now-paused s)))

-- With a clock that does not go back and a pause of at least a microsecond, the polling of the HMC
-- ends, whatever the HMC answers: an object that it returns has the expected status, and otherwise
-- it raises an exception of the client.
pub poll_until-ends_well :
    {W : Type 0} (m : Machine W) (session : HmcSession) (path expected : Str) (deadline pause : ℕ)
    (failure : HmcFailure) (s : St W)
    → HasClock m
    → 1 ≤ pause
    → ends_well expected (poll_until m session path expected deadline pause failure s).0 ≡ true
unfolding poll_until
poll_until-ends_well m session path expected deadline pause failure s clock pauses =
    poll-ends_well m session path expected deadline pause failure clock pauses
      (suc (suc (deadline - m.now s.world))) s (omega arith)

-- The same as a rule.
pub poll_until-FromHmc :
    {W : Type 0} (m : Machine W) (session : HmcSession) (path expected : Str) (deadline pause : ℕ)
    (failure : HmcFailure)
    → HasClock m
    → 1 ≤ pause
    → Raises FromHmc (poll_until m session path expected deadline pause failure)
poll_until-FromHmc m session path expected deadline pause failure clock pauses = record {
  at = λ s.
      ends_well-Fine expected _
        (poll_until-ends_well m session path expected deadline pause failure s clock pauses);
}
