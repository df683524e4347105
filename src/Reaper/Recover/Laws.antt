-- ===== src/Reaper/Recover/Laws.antt =====
-- What recovering a host and restarting its jobs guarantee.
use os_autoinst_scripts.Prelude.{
  ℕ, ◌+◌, ◌≤◌, ◌≡◌, inl, inr, Bool, true, false, Option, none, some, ◌∷◌, arith, if◌then◌else◌,
}
use os_autoinst_scripts.Py.Str.{Str}
use os_autoinst_scripts.Reaper.Machine.{Machine, HasClock}
use os_autoinst_scripts.Reaper.Exec.{
  Exec, St, Event, ran, Error, unreachable, hmc, os_error, key_error, usage, crash, out_of_fuel,
  Result, ok, err, ◌>>=◌, follow, pure,
}
use os_autoinst_scripts.Reaper.Exec.Raises.{Fine, Raises, raises_rules, Raises-try}
use os_autoinst_scripts.Reaper.Config.{ReaperConfig}
use os_autoinst_scripts.Reaper.Wait.Laws.{Answered, EndsWell, wait_for_host-EndsWell}
use os_autoinst_scripts.Reaper.RebootState.{record_reboot}
use os_autoinst_scripts.Reaper.RebootState.Laws.{record_reboot-ok}
use os_autoinst_scripts.Reaper.Recover.Restarts.{trace-run_cmd}
use os_autoinst_scripts.Reaper.Hmc.Laws.{FromHmc}
use os_autoinst_scripts.Reaper.Hmc.Session.{with_session-FromHmc, reset_and_load-FromHmc}
use os_autoinst_scripts.Reaper.Recover.{
  reboot_command, hmc_outcome, force_via, force_with, hmc_force_reboot, wait_for_boot, force_host,
  recover_host, issue_reboot,
}

abbrev pub IsCrash : Error → Type 0
IsCrash crash = Unit
IsCrash _ = ⊥

module _ {W : Type 0} (m : Machine W) where
  hmc_outcome-IsCrash :
      (r : Result (Unit {0})) → Fine FromHmc r → Raises {W = W} IsCrash (hmc_outcome r)
  unfolding hmc_outcome
  hmc_outcome-IsCrash (ok a) h = search raises_rules
  hmc_outcome-IsCrash (err os_error) h = search raises_rules
  hmc_outcome-IsCrash (err (hmc f)) h = search raises_rules
  hmc_outcome-IsCrash (err (key_error k)) h = search raises_rules
  hmc_outcome-IsCrash (err crash) h = search raises_rules
  hmc_outcome-IsCrash (err (unreachable _)) h = absurd h
  hmc_outcome-IsCrash (err (usage _)) h = absurd h
  hmc_outcome-IsCrash (err out_of_fuel) h = absurd h

  module _ (clock : HasClock m) where
    force_via-FromHmc :
        (hmc_host : Str) (config : ReaperConfig) (lpar : Str) (c : Str × Str)
        → Raises FromHmc (force_via m hmc_host config lpar c)
    unfolding force_via
    force_via-FromHmc hmc_host config lpar c =
        search (raises_rules, with_session-FromHmc m, reset_and_load-FromHmc m clock)

    force_with-IsCrash :
        (c : Option (Str × Str)) (h l : Option Str) (config : ReaperConfig)
        → Raises IsCrash (force_with m c h l config)
    unfolding force_with
    force_with-IsCrash (some c) (some h) (some l) config =
        Raises-try _ _ (force_via-FromHmc h config l c) hmc_outcome-IsCrash
    force_with-IsCrash _ _ _ config = search raises_rules

    -- With a clock that does not go back, the only exceptions of `hmc_force_reboot` are those that no
    -- handler of the script names.
    pub hmc_force_reboot-IsCrash :
        (host : Str) (config : ReaperConfig) (s : St W)
        → Fine IsCrash (hmc_force_reboot m host config s).0
    unfolding hmc_force_reboot
    hmc_force_reboot-IsCrash host config s = (force_with-IsCrash _ _ _ config).at s

-- A method that returned True did so right after a check that the host answered.
abbrev pub UpAfter : {W : Type 0} → Machine W → Str → ReaperConfig → Result Bool × St W → Type 0
UpAfter m host config (ok true, s) = Answered m host config s
UpAfter m host config (ok false, s) = Unit
UpAfter m host config (err e, s) = Unit

module _ {W : Type 0} (m : Machine W) (host : Str) (config : ReaperConfig) where
  up_of_ends :
      (deadline : ℕ) (r : Result Bool) (s : St W)
      → EndsWell m host config deadline (r, s)
      → UpAfter m host config (r, s)
  up_of_ends deadline (ok true) s (inl h) = h.1
  up_of_ends deadline (ok true) s (inr h) = cc
  up_of_ends deadline (ok false) s h = tt
  up_of_ends deadline (err e) s h = tt

  -- The rule for a bind: only what follows counts.
  follow-UpAfter :
      {A : Type 0} (r : Result A) (f : A → Exec W Bool) (s : St W)
      → ((a : A) (s : St W) → UpAfter m host config (f a s))
      → UpAfter m host config (follow r f s)
  follow-UpAfter (ok a) f s h = h a s
  follow-UpAfter (err e) f s h = tt

  if-UpAfter :
      (b : Bool) (x y : Exec W Bool) (s : St W)
      → ((s : St W) → UpAfter m host config (x s))
      → ((s : St W) → UpAfter m host config (y s))
      → UpAfter m host config ((if b then x else y) s)
  if-UpAfter true x y s h k = h s
  if-UpAfter false x y s h k = k s

  follow_if-UpAfter :
      (r : Result Bool) (rest : Exec W Bool) (s : St W)
      → UpAfter m host config (r, s)
      → ((s : St W) → UpAfter m host config (rest s))
      → UpAfter m host config (follow r (λ b. if b then pure true else rest) s)
  unfolding pure
  follow_if-UpAfter (ok true) rest s h k = h
  follow_if-UpAfter (ok false) rest s h k = k s
  follow_if-UpAfter (err e) rest s h k = tt

  module _ (clock : HasClock m) (pause : 1 ≤ config.ssh_check_interval) where
    wait_for_boot-UpAfter : (s : St W) → UpAfter m host config (wait_for_boot m host config s)
    unfolding wait_for_boot ◌>>=◌
    wait_for_boot-UpAfter s = follow-UpAfter _ _ _ λ deadline s.
        up_of_ends deadline _ _ (wait_for_host-EndsWell m host config (some deadline) s clock pause)

    force_host-UpAfter : (s : St W) → UpAfter m host config (force_host m host config s)
    unfolding force_host ◌>>=◌ pure
    force_host-UpAfter s =
        if-UpAfter config.hmc_fallback _ _ s
          (λ s. follow-UpAfter (record_reboot m host config s).0 _ _ λ _ s.
            follow-UpAfter (hmc_force_reboot m host config s).0 _ _
              λ forced s. if-UpAfter forced _ _ s wait_for_boot-UpAfter (λ s. tt))
          (λ s. tt)

    -- With a clock that does not go back, and a pause of at least a second between the checks: if
    -- `recover_host` returns True, the host has just answered a check over SSH, whether it came back
    -- by itself or after a reset by the HMC.
    pub recover_host-UpAfter :
        (wait_first : Bool) (s : St W)
        → UpAfter m host config (recover_host m host config wait_first s)
    unfolding recover_host ◌>>=◌
    recover_host-UpAfter false s = force_host-UpAfter s
    recover_host-UpAfter true s =
        follow_if-UpAfter _ _ _ (wait_for_boot-UpAfter s) force_host-UpAfter

-- The reboot command, and the trace that it leaves.
abbrev pub reboot_event : Str → ReaperConfig → Event
reboot_event host config = ran (record {
  line = reboot_command host config;
  input = none;
  merged = false;
  timeout = config.ssh_timeout + 15;
})

-- Without `--dry-run` a reboot is recorded first and issued then: the reboot command is the latest
-- event, and what stands before it is what `record_reboot` did. With it nothing is done at all.
pub trace-issue_reboot :
    {W : Type 0} (m : Machine W) (host : Str) (config : ReaperConfig) (s : St W)
    → (issue_reboot m host config s).1.trace ≡ (
        if config.dry_run
        then s.trace
        else reboot_event host config ∷ (record_reboot m host config s).1.trace)
unfolding issue_reboot ◌>>=◌ pure
trace-issue_reboot m host config s =
    let s1 = (record_reboot m host config s).1 in
    let line = reboot_command host config in
    ground (
      arith,
      record_reboot-ok m host config s,
      trace-run_cmd m line false (config.ssh_timeout + 15) s1,
    )
