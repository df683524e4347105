-- ===== src/Reaper/Wait/Laws.antt =====
-- How the wait for a host ends.
use os_autoinst_scripts.Prelude.{
  ℕ, zero, suc, ◌+◌, ◌-◌, ◌*◌, ◌≤◌, ◌<◌, ◌≡◌, refl, ◌⊎◌, inl, inr, Bool, true, false, Option, none,
  some, arith, leb, Bool-cases, leb→le, leb→gt, if◌then◌else◌,
}
use os_autoinst_scripts.Py.Str.{Str}
use os_autoinst_scripts.Reaper.Machine.{Machine, HasClock, second}
use os_autoinst_scripts.Reaper.Exec.{St, Result, ok, ◌>>=◌, pure, run, time, sleep}
use os_autoinst_scripts.Reaper.Config.{ReaperConfig}
use os_autoinst_scripts.Reaper.Wait.{check_command, responds, wait_loop, wait_until, wait_for_host}

module _ {W : Type 0} (m : Machine W) (host : Str) (config : ReaperConfig) where
  -- The last thing that happened was a check that the host answered.
  abbrev pub Answered : St W → Type 0
  Answered s =
      (w : W) × (responds (m.run (check_command host config) w).0 ≡ true)
      × (s.world ≡ (m.run (check_command host config) w).1)

module _ {W : Type 0} (m : Machine W) (host : Str) (config : ReaperConfig) (deadline : ℕ) where
  -- The wait returned, and what it returned is true of the host or of the clock.
  abbrev pub EndsWell : Result Bool × St W → Type 0
  EndsWell (r, s) =
      ((r ≡ ok true) × Answered m host config s) ⊎ ((r ≡ ok false) × (deadline ≤ m.now s.world))

  -- The states after the check, after the clock was read and after the pause.
  abbrev checked : St W → St W
  checked s = (run m (check_command host config) s).1

  abbrev paused : St W → St W
  paused s = (sleep m (config.ssh_check_interval * second) (time m (checked s)).1).1

  -- One round of the loop.
  wait_loop_step :
      (fuel : ℕ) (s : St W)
      → wait_loop m (suc fuel) host config deadline s ≡ (
          if responds (m.run (check_command host config) s.world).0
          then (ok true, checked s)
          else if leb deadline (m.now (checked s).world)
          then (ok false, (time m (checked s)).1)
          else wait_loop m fuel host config deadline (paused s))
  unfolding wait_loop ◌>>=◌ run time sleep pure
  wait_loop_step fuel s = ground arith

  module _ (clock : HasClock m) (pause : 1 ≤ config.ssh_check_interval) where
    now-paused : (s : St W) → m.now s.world < m.now (paused s).world
    unfolding run time sleep
    now-paused s =
        let (r, w) = m.run (check_command host config) s.world in
        omega (
          arith,
          clock.run_after (check_command host config) s.world,
          clock.tick_after w,
          clock.sleep_after (config.ssh_check_interval * second) (m.tick w),
        )

    now-checked : (s : St W) → m.now s.world ≤ m.now (checked s).world
    unfolding run
    now-checked s = clock.run_after (check_command host config) s.world

    now-time : (s : St W) → m.now s.world ≤ m.now (time m s).1.world
    unfolding time
    now-time s = clock.tick_after s.world

    -- If the host does not respond and the deadline has not passed, the rest of the loop ends well.
    round-EndsWell :
        (fuel : ℕ) (s : St W)
        → (deadline < suc (m.now (checked s).world)
            ⊎ EndsWell (wait_loop m fuel host config deadline (paused s)))
        → EndsWell (wait_loop m (suc fuel) host config deadline s)
    round-EndsWell fuel s rest =
        rw wait_loop_step
          (elim (Bool-cases (responds (m.run (check_command host config) s.world).0)) [
            | inl up ↦ rw up (inl (refl, (s.world, up, unfold run in refl)))
            | inr down ↦ rw down (elim (Bool-cases (leb deadline (m.now (checked s).world))) [
              | inl late ↦
                  rw late (inr (refl, omega (arith, leb→le deadline _ late, now-time (checked s))))
              | inr early ↦ rw early (elim rest [
                | inl past ↦ absurd (omega (arith, leb→gt deadline _ early))
                | inr h ↦ h
              ])
            ])
          ])

    wait_loop-EndsWell :
        (fuel : ℕ) (s : St W)
        → deadline < suc fuel + m.now s.world
        → EndsWell (wait_loop m (suc fuel) host config deadline s)
    wait_loop-EndsWell zero s h = round-EndsWell zero s (inl (omega (arith, now-checked s)))
    wait_loop-EndsWell (suc fuel) s h =
        round-EndsWell (suc fuel) s
          (inr (wait_loop-EndsWell fuel (paused s) (omega (arith, now-paused s))))

    -- With a clock that runs and a pause of at least a second the wait ends: it returns True right
    -- after a check that the host answered, or False when the deadline has passed.
    pub wait_until-EndsWell : (s : St W) → EndsWell (wait_until m host config deadline s)
    unfolding wait_until
    wait_until-EndsWell s = wait_loop-EndsWell (suc (deadline - m.now s.world)) s (omega arith)

-- The deadline that `wait_for_host` keeps: the given one, or the configured wait from now on.
abbrev pub deadline_at : {W : Type 0} → Machine W → ReaperConfig → Option ℕ → St W → ℕ
deadline_at m config none s = m.now s.world + config.max_wait_minutes * 60 * second
deadline_at m config (some deadline) s = deadline

-- With a clock that does not go back, a sleep that lasts as long as asked, and a pause of at least a
-- second between the checks, `wait_for_host` returns, whatever the host does: True right after a
-- check that the host answered with status 0, or False once the deadline has passed.
pub wait_for_host-EndsWell :
    {W : Type 0} (m : Machine W) (host : Str) (config : ReaperConfig) (deadline : Option ℕ)
    (s : St W)
    → HasClock m
    → 1 ≤ config.ssh_check_interval
    → EndsWell m host config
        (deadline_at m config deadline s)
        (wait_for_host m host config deadline s)
unfolding wait_for_host ◌>>=◌ time
wait_for_host-EndsWell m host config none s clock pause =
    wait_until-EndsWell m host config _ clock pause _
wait_for_host-EndsWell m host config (some deadline) s clock pause =
    wait_until-EndsWell m host config deadline clock pause s
