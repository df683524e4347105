-- ===== src/Reaper/Exec.antt =====
-- A method of the reaper: it changes the world, leaves a trace of what it asked for, and returns or
-- raises. The trace is the model's own; its latest event comes first.
pub mod Keeps
pub mod Raises
use os_autoinst_scripts.Prelude.{ℕ, ◌≡◌, refl, Bool, Option, none, some, List, ◌∷◌}
use os_autoinst_scripts.Py.Str.{Str}
use os_autoinst_scripts.Py.Json.{Value}
use os_autoinst_scripts.Reaper.Machine.{Machine, Command, Completed, Request, Reply}

pub data Event : Type 0 where
  ran : Command → Event
  sent : Request → Event
  wrote : Str → Value → Event
  replaced : Str → Str → Event
  slept : ℕ → Event
  locked : Str → Event
  unlocked : Str → Event

-- The parts of an `HmcError`.
pub data HmcFailure : Type 0 where
  no_body : ℕ → HmcFailure
  bad_status : Str → ℕ → HmcFailure
  unexpected : Str → ℕ → HmcFailure
  job_timeout : Str → HmcFailure
  job_failed : Str → Value → Value → HmcFailure
  status_timeout : Str → Str → HmcFailure

-- The exceptions. `crash` is one that no handler of the script names, such as a `TypeError`;
-- `out_of_fuel` is not Python's: the model left a loop that it did not follow to its end.
pub data Error : Type 0 where
  unreachable : Str → Error
  hmc : HmcFailure → Error
  os_error : Error
  key_error : Str → Error
  usage : Str → Error
  crash : Error
  out_of_fuel : Error

pub data Result (A : Type 0) : Type 0 where
  ok : A → Result A
  err : Error → Result A

pub record St (W : Type 0) : Type 0 where
  pub world : W
  pub trace : List Event

abbrev pub Exec : Type 0 → Type 0 → Type 0
Exec W A = St W → Result A × St W

module _ {W A : Type 0} where
  unfoldable pub pure : A → Exec W A
  pure a s = (ok a, s)

  unfoldable pub raise : Error → Exec W A
  raise e s = (err e, s)

  -- how a `try` ended
  unfoldable pub attempt : Exec W A → Exec W (Result A)
  attempt body s = let (r, s') = body s in (ok r, s')

  unfoldable pub resume : Result A → Exec W A
  resume r s = (r, s)

module _ {W A B : Type 0} where
  abbrev pub follow : Result A → (A → Exec W B) → Exec W B
  follow (ok a) f s = f a s
  follow (err e) f s = (err e, s)

  infixl 10 ◌>>=◌ ◌>>◌
  unfoldable pub ◌>>=◌ : Exec W A → (A → Exec W B) → Exec W B
  unfolding pure raise
  ◌>>=◌ body f s = let (r, s') = body s in follow r f s'

  pub >>=-follow :
      (body : Exec W A) (f : A → Exec W B) (s : St W)
      → (body >>= f) s ≡ follow (body s).0 f (body s).1
  unfolding ◌>>=◌
  >>=-follow body f s = refl

  follow-state :
      (r : Result A) (f : A → Exec W B) (s : St W)
      → ((a : A) (s' : St W) → (f a s').1 ≡ s')
      → (follow r f s).1 ≡ s
  follow-state (ok a) f s h = h a s
  follow-state (err e) f s h = refl

  -- What follows leaves the state alone.
  pub >>=-state :
      (body : Exec W A) (f : A → Exec W B) (s : St W)
      → ((a : A) (s' : St W) → (f a s').1 ≡ s')
      → ((body >>= f) s).1 ≡ (body s).1
  unfolding ◌>>=◌
  >>=-state body f s h = follow-state (body s).0 f (body s).1 h

  abbrev pub ◌>>◌ : Exec W A → Exec W B → Exec W B
  a >> b = a >>= λ _. b

module _ {W : Type 0} (m : Machine W) where
  unfoldable pub run : Command → Exec W Completed
  run c s = let (r, w) = m.run c s.world in (ok r, record { world = w; trace = ran c ∷ s.trace })

  unfoldable pub send : Request → Exec W Reply
  send q s =
      let (r, w) = m.urlopen q s.world in (ok r, record { world = w; trace = sent q ∷ s.trace })

  -- `time.time()`
  unfoldable pub time : Exec W ℕ
  time s = (ok (m.now s.world), record s { world = m.tick s.world })

  unfoldable pub sleep : ℕ → Exec W Unit
  sleep t s = (ok tt, record { world = m.sleep t s.world; trace = slept t ∷ s.trace })

  unfoldable pub load : Str → Exec W (Option Value)
  load p s = (ok (m.load p s.world), s)

  unfoldable pub write : Str → Value → Exec W Bool
  write p v s =
      let (r, w) = m.write p v s.world in (ok r, record { world = w; trace = wrote p v ∷ s.trace })

  unfoldable pub replace : Str → Str → Exec W Bool
  replace p q s =
      let (r, w) = m.replace p q s.world in
      (ok r, record { world = w; trace = replaced p q ∷ s.trace })

  abbrev pub opened : Option Bool → Result Bool
  opened none = err os_error
  opened (some b) = ok b

  unfoldable pub flock : Str → Exec W Bool
  flock p s =
      let (r, w) = m.flock p s.world in (opened r, record { world = w; trace = locked p ∷ s.trace })

  unfoldable pub funlock : Str → Exec W Unit
  funlock p s = (ok tt, record { world = m.funlock p s.world; trace = unlocked p ∷ s.trace })
