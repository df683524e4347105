-- ===== src/Reaper/Hmc/Tidy.antt =====
-- The methods of the HMC client, on answers of the HMC that can be read.
use os_autoinst_scripts.Prelude.{
  ℕ, zero, suc, ◌≡◌, Bool, true, false, Option, none, some, if◌then◌else◌,
}
use os_autoinst_scripts.Py.Str.{Str}
use os_autoinst_scripts.Py.Json.{Value, null, flag, int, float, text, array, object, field?}
use os_autoinst_scripts.Reaper.Machine.{
  Machine, Request, empty, json, Reply, answered, http_error, failed, garbled, interrupted,
}
use os_autoinst_scripts.Reaper.Exec.{
  Exec, St, HmcFailure, Error, crash, hmc, os_error, Result, ok, err, ◌>>=◌, follow, pure, raise,
  attempt, resume, send, time, sleep,
}
use os_autoinst_scripts.Reaper.Hmc.{
  HmcSession, or_key_error, or_object, index, reply_outcome, request, suppress_exit, with_token,
  enter, exit, with_session, get, poll, poll_fuel, poll_until, check_job, wait_for_job, operated,
  operate, wait_for_lpar_status, reset_and_load,
}

-- An answer that the client can read: an error of HTTP or of the network, an empty body, or one that is
-- a JSON object or null.
abbrev pub is_readable : Reply → Bool
is_readable (answered status empty) = true
is_readable (answered status (json null)) = true
is_readable (answered status (json (object fs))) = true
is_readable (http_error code) = true
is_readable failed = true
is_readable _ = false

abbrev pub NoCrash : Error → Type 0
NoCrash crash = ⊥
NoCrash _ = Unit

abbrev pub Post : {A : Type 0} → (A → Type 0) → Result A → Type 0
Post P (ok a) = P a
Post P (err e) = NoCrash e

-- What the method returns is of a kind, and it does not crash.
pub record Tidy {W A : Type 0} (P : A → Type 0) (body : Exec W A) : Type 0 where
  pub at : (s : St W) → Post P (body s).0

abbrev pub Any : {A : Type 0} → A → Type 0
Any a = Unit

abbrev IsObject : Value → Type 0
IsObject (object fs) = Unit
IsObject _ = ⊥

abbrev IsAnswer : ℕ × Option Value → Type 0
IsAnswer (status, none) = Unit
IsAnswer (status, some v) = IsObject v

module _ {W A : Type 0} (P : A → Type 0) where
  pub Tidy-pure : (a : A) → P a → Tidy P (pure {W = W} a)
  unfolding pure
  Tidy-pure a h = record { at = λ s. h }

  pub Tidy-raise : (e : Error) → NoCrash e → Tidy P (raise {W = W} e)
  unfolding raise
  Tidy-raise e h = record { at = λ s. h }

  Tidy-resume : (r : Result A) → Post P r → Tidy P (resume {W = W} r)
  unfolding resume
  Tidy-resume r h = record { at = λ s. h }

  pub Tidy-attempt : (body : Exec W A) → Tidy P body → Tidy (Post P) (attempt body)
  unfolding attempt
  Tidy-attempt body h = record { at = λ s. h.at s }

  pub Tidy-if : (b : Bool) (x y : Exec W A) → Tidy P x → Tidy P y → Tidy P (if b then x else y)
  Tidy-if true x y h k = h
  Tidy-if false x y h k = k

  Tidy-follow :
      {B : Type 0} (Q : B → Type 0) (r : Result A) (f : A → Exec W B) (s : St W)
      → Post P r
      → ((a : A) → P a → Tidy Q (f a))
      → Post Q (follow r f s).0
  Tidy-follow Q (ok a) f s h k = (k a h).at s
  Tidy-follow Q (err e) f s h k = h

  pub Tidy-bind :
      {B : Type 0} (Q : B → Type 0) (body : Exec W A) (f : A → Exec W B)
      → Tidy P body
      → ((a : A) → P a → Tidy Q (f a))
      → Tidy Q (body >>= f)
  unfolding ◌>>=◌
  Tidy-bind Q body f h k = record { at = λ s. Tidy-follow Q (body s).0 f (body s).1 (h.at s) k }

or_object-IsObject : (status : ℕ) (o : Option Value) → IsAnswer (status, o) → IsObject (or_object o)
unfolding or_object
or_object-IsObject status none h = tt
or_object-IsObject status (some (object fs)) h = tt
or_object-IsObject status (some null) h = absurd h
or_object-IsObject status (some (flag b)) h = absurd h
or_object-IsObject status (some (int n)) h = absurd h
or_object-IsObject status (some (float x)) h = absurd h
or_object-IsObject status (some (text c)) h = absurd h
or_object-IsObject status (some (array xs)) h = absurd h

module _ {W : Type 0} where
  Tidy-index : (k : Str) (v : Value) → IsObject v → Tidy Any (index {W = W} k v)
  unfolding index or_key_error
  Tidy-index k (object fs) h = go (field? k fs)
    where
      go : (o : Option Value) → Tidy Any (or_key_error {W = W} k o)
      go none = Tidy-raise Any _ tt
      go (some v) = Tidy-pure Any v tt
  Tidy-index k null h = absurd h
  Tidy-index k (flag b) h = absurd h
  Tidy-index k (int n) h = absurd h
  Tidy-index k (float x) h = absurd h
  Tidy-index k (text c) h = absurd h
  Tidy-index k (array xs) h = absurd h

  Tidy-reply :
      (path : Str) (r : Reply) → is_readable r ≡ true → Tidy IsAnswer (reply_outcome {W = W} path r)
  unfolding reply_outcome
  Tidy-reply path (answered status empty) h = Tidy-pure IsAnswer _ tt
  Tidy-reply path (answered status (json null)) h = Tidy-pure IsAnswer _ tt
  Tidy-reply path (answered status (json (object fs))) h = Tidy-pure IsAnswer _ tt
  Tidy-reply path (answered status (json _)) h = absurd cc
  Tidy-reply path (answered status garbled) h = absurd cc
  Tidy-reply path (http_error code) h = Tidy-raise IsAnswer _ tt
  Tidy-reply path failed h = Tidy-raise IsAnswer _ tt
  Tidy-reply path interrupted h = absurd cc

  Tidy-suppress :
      {A : Type 0} (P : A → Type 0) (r : Result A) → Post P r → Tidy Any (suppress_exit {W = W} r)
  unfolding suppress_exit
  Tidy-suppress P (ok a) h = Tidy-pure Any tt tt
  Tidy-suppress P (err (hmc f)) h = Tidy-pure Any tt tt
  Tidy-suppress P (err os_error) h = Tidy-pure Any tt tt
  Tidy-suppress P (err e) h = Tidy-raise Any e h

module _ {W : Type 0} (m : Machine W)
    (readable : (q : Request) (w : W) → is_readable (m.urlopen q w).0 ≡ true) where
  Tidy-send : (q : Request) → Tidy (λ r. is_readable r ≡ true) (send m q)
  unfolding send
  Tidy-send q = record { at = λ s. readable q s.world }

  Tidy-time : Tidy Any (time m)
  unfolding time
  Tidy-time = record { at = λ s. tt }

  Tidy-sleep : (t : ℕ) → Tidy Any (sleep m t)
  unfolding sleep
  Tidy-sleep t = record { at = λ s. tt }

  Tidy-request :
      (s : HmcSession) (method path : Str) (body : Option Value) (timeout : ℕ)
      → Tidy IsAnswer (request m s method path body timeout)
  unfolding request
  Tidy-request s method path body timeout =
      Tidy-bind (λ r. is_readable r ≡ true) IsAnswer _ _ (Tidy-send _) (Tidy-reply path)

  Tidy-token : (s : HmcSession) (a : ℕ × Option Value) → IsAnswer a → Tidy Any (with_token m s a)
  unfolding with_token
  Tidy-token s (status, none) h = Tidy-raise Any _ tt
  Tidy-token s (status, some v) h =
      Tidy-bind Any Any _ _ (Tidy-index _ v h) (λ a k. Tidy-pure Any _ tt)

  Tidy-enter : (s : HmcSession) → Tidy Any (enter m s)
  unfolding enter
  Tidy-enter s = Tidy-bind IsAnswer Any _ _ (Tidy-request s _ _ _ _) (Tidy-token s)

  Tidy-exit : (s : HmcSession) → Tidy Any (exit m s)
  unfolding exit
  Tidy-exit s =
      Tidy-bind (Post IsAnswer) Any _ _ (Tidy-attempt IsAnswer _ (Tidy-request s _ _ _ _))
        (Tidy-suppress IsAnswer)

  pub Tidy-with_session :
      (s : HmcSession) (body : HmcSession → Exec W Unit)
      → ((opened : HmcSession) → Tidy Any (body opened))
      → Tidy Any (with_session m s body)
  unfolding with_session
  Tidy-with_session s body h = Tidy-bind Any Any _ _ (Tidy-enter s) λ opened k.
      Tidy-bind (Post Any) Any _ _ (Tidy-attempt Any _ (h opened))
        λ r fine. Tidy-bind Any Any _ _ (Tidy-exit opened) (λ a k. Tidy-resume Any r fine)

  Tidy-get : (s : HmcSession) (path : Str) → Tidy IsObject (get m s path)
  unfolding get
  Tidy-get s path =
      Tidy-bind IsAnswer IsObject _ _ (Tidy-request s _ _ _ _)
        (λ a h. Tidy-pure IsObject _ (or_object-IsObject a.0 a.1 h))

  Tidy-poll :
      (fuel : ℕ) (s : HmcSession) (path expected : Str) (deadline pause : ℕ) (failure : HmcFailure)
      → Tidy IsObject (poll m fuel s path expected deadline pause failure)
  unfolding poll
  Tidy-poll zero s path expected deadline pause failure = Tidy-raise IsObject _ tt
  Tidy-poll (suc fuel) s path expected deadline pause failure =
      Tidy-bind IsObject IsObject _ _ (Tidy-get s path) λ found h.
        Tidy-bind Any IsObject _ _ (Tidy-index _ found h) λ status k.
          Tidy-if IsObject _ _ _ (Tidy-pure IsObject found h) (
            Tidy-bind Any IsObject _ _ Tidy-time λ now k.
              Tidy-if IsObject _ _ _ (Tidy-raise IsObject _ tt) (
                Tidy-bind Any IsObject _ _ (Tidy-sleep pause)
                  (λ a k. Tidy-poll fuel s path expected deadline pause failure)))

  Tidy-poll_until :
      (s : HmcSession) (path expected : Str) (deadline pause : ℕ) (failure : HmcFailure)
      → Tidy IsObject (poll_until m s path expected deadline pause failure)
  unfolding poll_until
  Tidy-poll_until s path expected deadline pause failure = record {
    at = λ st. (Tidy-poll (poll_fuel m deadline st) s path expected deadline pause failure).at st;
  }

  Tidy-check_job : (op : Str) (job : Value) → IsObject job → Tidy Any (check_job m op job)
  unfolding check_job
  Tidy-check_job op job h = Tidy-bind Any Any _ _ (Tidy-index _ job h) λ code k.
      Tidy-if Any _ _ _ (Tidy-pure Any tt tt)
        (Tidy-bind Any Any _ _ (Tidy-index _ job h) (λ reason k. Tidy-raise Any _ tt))

  Tidy-wait_for_job : (s : HmcSession) (path op : Str) → Tidy Any (wait_for_job m s path op)
  unfolding wait_for_job
  Tidy-wait_for_job s path op =
      Tidy-bind Any Any _ _ Tidy-time
        λ now k. Tidy-bind IsObject Any _ _ (Tidy-poll_until s _ _ _ _ _) (Tidy-check_job op)

  Tidy-operated :
      (s : HmcSession) (path : Str) (a : ℕ × Option Value)
      → IsAnswer a
      → Tidy Any (operated m s path a)
  unfolding operated
  Tidy-operated s path (status, none) h =
      Tidy-if Any _ _ _ (Tidy-pure Any tt tt) (Tidy-raise Any _ tt)
  Tidy-operated s path (status, some v) h = Tidy-if Any _ _ _ (Tidy-pure Any tt tt) (
      Tidy-if Any _ _ _
        (Tidy-bind Any Any _ _ (Tidy-index _ v h) (λ uri k. Tidy-wait_for_job s _ path))
        (Tidy-raise Any _ tt))

  Tidy-operate : (s : HmcSession) (path : Str) (body : Value) → Tidy Any (operate m s path body)
  unfolding operate
  Tidy-operate s path body =
      Tidy-bind IsAnswer Any _ _ (Tidy-request s _ _ _ _) (Tidy-operated s path)

  Tidy-wait_for_lpar :
      (s : HmcSession) (lpar expected : Str) → Tidy Any (wait_for_lpar_status m s lpar expected)
  unfolding wait_for_lpar_status
  Tidy-wait_for_lpar s lpar expected = Tidy-bind Any Any _ _ Tidy-time λ now k.
      Tidy-bind IsObject Any _ _ (Tidy-poll_until s _ _ _ _ _) (λ found k. Tidy-pure Any tt tt)

  pub Tidy-reset : (s : HmcSession) (lpar : Str) → Tidy Any (reset_and_load m s lpar)
  unfolding reset_and_load
  Tidy-reset s lpar = Tidy-bind IsObject Any _ _ (Tidy-get s lpar) λ props h.
      Tidy-bind Any Any _ _ (Tidy-index _ props h) λ name k.
        Tidy-bind Any Any _ _ (Tidy-operate s _ _) λ a k.
          Tidy-bind Any Any _ _ (Tidy-index _ props h) λ address k.
            Tidy-bind Any Any _ _ (Tidy-operate s _ _) (λ a k. Tidy-wait_for_lpar s lpar _)
