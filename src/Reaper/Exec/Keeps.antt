-- ===== src/Reaper/Exec/Keeps.antt =====
-- Properties of the trace, one rule for each way to build a method.
use os_autoinst_scripts.Prelude.{
  ℕ, ◌≡◌, refl, Bool, true, false, List, ◌∷◌, if◌then◌else◌, All, filter,
}
use os_autoinst_scripts.Py.Str.{Str}
use os_autoinst_scripts.Py.Json.{Value}
use os_autoinst_scripts.Reaper.Machine.{Machine, Command, Request}
use os_autoinst_scripts.Reaper.Exec.{
  Event, ran, sent, wrote, replaced, slept, locked, unlocked, Error, Result, ok, err, St, Exec,
  pure, raise, attempt, resume, follow, ◌>>=◌, run, send, time, sleep, load, write, replace, flock,
  funlock,
}

-- `new` is `old` with events before it that satisfy `P`.
pub data Added (P : Event → Type 0) (old : List Event) : List Event → Type 0 where
  same : Added P old old
  more : {e : Event} {new : List Event} → P e → Added P old new → Added P old (e ∷ new)

module _ {P : Event → Type 0} where
  Added-trans : {a b c : List Event} → Added P a b → Added P b c → Added P a c
  Added-trans h same = h
  Added-trans h (more p k) = more p (Added-trans h k)

  pub Added-All : {old new : List Event} → Added P old new → All P old → All P new
  Added-All same all = all
  Added-All (more p h) all = (p, Added-All h all)

  -- A test that the added events fail finds the same events as before.
  pub filter-Added :
      (test : Event → Bool)
      → ((e : Event) → P e → test e ≡ false)
      → {old new : List Event} → Added P old new
      → filter test new ≡ filter test old
  filter-Added test fails same = refl
  filter-Added test fails (more {e} p h) = rw (fails e p) (filter-Added test fails h)

-- Whatever the world answers, `body` only adds events that satisfy `P`.
pub record Keeps {W A : Type 0} (P : Event → Type 0) (body : Exec W A) : Type 0 where
  pub at : (s : St W) → Added P s.trace (body s).1.trace

module _ {W A : Type 0} {P : Event → Type 0} where
  pub Keeps-pure : (a : A) → Keeps P (pure {W = W} a)
  unfolding pure
  Keeps-pure a = record { at = λ s. same }

  pub Keeps-raise : (e : Error) → Keeps P (raise {W = W} {A = A} e)
  unfolding raise
  Keeps-raise e = record { at = λ s. same }

  pub Keeps-resume : (r : Result A) → Keeps P (resume {W = W} r)
  unfolding resume
  Keeps-resume r = record { at = λ s. same }

  pub Keeps-attempt : (body : Exec W A) → Keeps P body → Keeps P (attempt body)
  unfolding attempt
  Keeps-attempt body k = record { at = λ s. k.at s }

  pub Keeps-if :
      (b : Bool) (x y : Exec W A)
      → (b ≡ true → Keeps P x)
      → (b ≡ false → Keeps P y)
      → Keeps P (if b then x else y)
  Keeps-if true x y kx ky = kx refl
  Keeps-if false x y kx ky = ky refl

module _ {W A B : Type 0} {P : Event → Type 0} where
  follow-at :
      (r : Result A) (f : A → Exec W B) (s : St W)
      → ((a : A) → Keeps P (f a))
      → Added P s.trace (follow r f s).1.trace
  follow-at (ok a) f s k = (k a).at s
  follow-at (err e) f s k = same

  pub Keeps-bind :
      (body : Exec W A) (f : A → Exec W B)
      → Keeps P body
      → ((a : A) → Keeps P (f a))
      → Keeps P (body >>= f)
  unfolding ◌>>=◌
  Keeps-bind body f kb kf = record {
    at = λ s. let (r, s') = body s in Added-trans (kb.at s) (follow-at r f s' kf);
  }

module _ {W : Type 0} {P : Event → Type 0} (m : Machine W) where
  pub Keeps-run : (c : Command) → P (ran c) → Keeps P (run m c)
  unfolding run
  Keeps-run c p = record { at = λ s. more p same }

  pub Keeps-send : (q : Request) → P (sent q) → Keeps P (send m q)
  unfolding send
  Keeps-send q p = record { at = λ s. more p same }

  pub Keeps-time : Keeps P (time m)
  unfolding time
  Keeps-time = record { at = λ s. same }

  pub Keeps-sleep : (t : ℕ) → P (slept t) → Keeps P (sleep m t)
  unfolding sleep
  Keeps-sleep t p = record { at = λ s. more p same }

  pub Keeps-load : (p : Str) → Keeps P (load m p)
  unfolding load
  Keeps-load p = record { at = λ s. same }

  pub Keeps-write : (q : Str) (v : Value) → P (wrote q v) → Keeps P (write m q v)
  unfolding write
  Keeps-write q v p = record { at = λ s. more p same }

  pub Keeps-replace : (q r : Str) → P (replaced q r) → Keeps P (replace m q r)
  unfolding replace
  Keeps-replace q r p = record { at = λ s. more p same }

  pub Keeps-flock : (q : Str) → P (locked q) → Keeps P (flock m q)
  unfolding flock
  Keeps-flock q p = record { at = λ s. more p same }

  pub Keeps-funlock : (q : Str) → P (unlocked q) → Keeps P (funlock m q)
  unfolding funlock
  Keeps-funlock q p = record { at = λ s. more p same }

pub ruleset keeps_rules = (
  Keeps-pure, Keeps-raise, Keeps-resume, Keeps-attempt, Keeps-if, Keeps-bind, Keeps-run, Keeps-send,
  Keeps-time, Keeps-sleep, Keeps-load, Keeps-write, Keeps-replace, Keeps-flock, Keeps-funlock,
)
