-- ===== src/Reaper/Exec/Raises.antt =====
-- Which exceptions a method can raise, one rule for each way to build a method.
use os_autoinst_scripts.Prelude.{ℕ, Bool, true, false, if◌then◌else◌}
use os_autoinst_scripts.Py.Str.{Str}
use os_autoinst_scripts.Py.Json.{Value}
use os_autoinst_scripts.Reaper.Machine.{Machine, Command, Request}
use os_autoinst_scripts.Reaper.Exec.{
  Error, Result, ok, err, St, Exec, pure, raise, attempt, resume, follow, ◌>>=◌, run, send, time,
  sleep, load, write, replace, funlock,
}

abbrev pub Fine : {A : Type 0} → (Error → Type 0) → Result A → Type 0
Fine E (ok a) = Unit
Fine E (err e) = E e

-- Every exception of `body` satisfies `E`, whatever the world answers.
pub record Raises {W A : Type 0} (E : Error → Type 0) (body : Exec W A) : Type 0 where
  pub at : (s : St W) → Fine E (body s).0

module _ {W A : Type 0} {E : Error → Type 0} where
  pub Raises-pure : (a : A) → Raises E (pure {W = W} a)
  unfolding pure
  Raises-pure a = record { at = λ s. tt }

  pub Raises-raise : (e : Error) → E e → Raises E (raise {W = W} {A = A} e)
  unfolding raise
  Raises-raise e h = record { at = λ s. h }

  pub Raises-resume : (r : Result A) → Fine E r → Raises E (resume {W = W} r)
  unfolding resume
  Raises-resume r h = record { at = λ s. h }

  pub Raises-attempt : (body : Exec W A) → Raises E (attempt body)
  unfolding attempt
  Raises-attempt body = record { at = λ s. tt }

  pub Raises-if :
      (b : Bool) (x y : Exec W A) → Raises E x → Raises E y → Raises E (if b then x else y)
  Raises-if true x y kx ky = kx
  Raises-if false x y kx ky = ky

module _ {W A B : Type 0} {E : Error → Type 0} where
  follow-Fine :
      (r : Result A) (f : A → Exec W B) (s : St W)
      → ((a : A) → Raises E (f a))
      → Fine E r
      → Fine E (follow r f s).0
  follow-Fine (ok a) f s k h = (k a).at s
  follow-Fine (err e) f s k h = h

  pub Raises-bind :
      (body : Exec W A) (f : A → Exec W B)
      → Raises E body
      → ((a : A) → Raises E (f a))
      → Raises E (body >>= f)
  unfolding ◌>>=◌
  Raises-bind body f kb kf = record {
    at = λ s. let (r, s') = body s in follow-Fine r f s' kf (kb.at s);
  }

  -- The rule for a `try`: the rest may use what the body can raise.
  pub Raises-try :
      {E' : Error → Type 0} (body : Exec W A) (f : Result A → Exec W B)
      → Raises E' body
      → ((r : Result A) → Fine E' r → Raises E (f r))
      → Raises E (attempt body >>= f)
  unfolding ◌>>=◌ attempt
  Raises-try body f kb kf = record { at = λ s. let (r, s') = body s in (kf r (kb.at s)).at s' }

module _ {W : Type 0} {E : Error → Type 0} (m : Machine W) where
  pub Raises-run : (c : Command) → Raises E (run m c)
  unfolding run
  Raises-run c = record { at = λ s. tt }

  pub Raises-send : (q : Request) → Raises E (send m q)
  unfolding send
  Raises-send q = record { at = λ s. tt }

  pub Raises-time : Raises E (time m)
  unfolding time
  Raises-time = record { at = λ s. tt }

  pub Raises-sleep : (t : ℕ) → Raises E (sleep m t)
  unfolding sleep
  Raises-sleep t = record { at = λ s. tt }

  pub Raises-load : (p : Str) → Raises E (load m p)
  unfolding load
  Raises-load p = record { at = λ s. tt }

  pub Raises-write : (p : Str) (v : Value) → Raises E (write m p v)
  unfolding write
  Raises-write p v = record { at = λ s. tt }

  pub Raises-replace : (p q : Str) → Raises E (replace m p q)
  unfolding replace
  Raises-replace p q = record { at = λ s. tt }

  pub Raises-funlock : (p : Str) → Raises E (funlock m p)
  unfolding funlock
  Raises-funlock p = record { at = λ s. tt }

pub ruleset raises_rules = (
  Raises-pure, Raises-raise, Raises-resume, Raises-attempt, Raises-if, Raises-bind, Raises-run,
  Raises-send, Raises-time, Raises-sleep, Raises-load, Raises-write, Raises-replace, Raises-funlock,
)
