-- ===== src/Reaper/Recover/Restarts.antt =====
-- Which jobs `trigger_actions` restarts, and when.
use os_autoinst_scripts.Prelude.{
  ℕ, ◌≡◌, refl, ap, ◌∙◌, Bool, true, false, none, List, [], ◌∷◌, filter, arith, if◌then◌else◌,
}
use os_autoinst_scripts.Py.Str.{Str, codes, starts_with}
use os_autoinst_scripts.Reaper.Machine.{
  Machine, Completed, exited, signalled, timed_out, not_started,
}
use os_autoinst_scripts.Reaper.Exec.{
  Exec, St, Event, ran, Result, ok, err, ◌>>=◌, ◌>>◌, >>=-follow, follow, pure, raise, run,
}
use os_autoinst_scripts.Reaper.Exec.Keeps.{Keeps, keeps_rules, filter-Added}
use os_autoinst_scripts.Reaper.Config.{ReaperConfig, ssh_line}
use os_autoinst_scripts.Reaper.Ssh.{run_cmd, cmd_outcome}
use os_autoinst_scripts.Reaper.Wait.{check_command}
use os_autoinst_scripts.Reaper.Recover.{
  reboot_command, retrigger_command, issue_reboot, reboot_unless_down, retrigger, recovered,
  trigger_actions,
}
use os_autoinst_scripts.Reaper.Recover.Trace.{record_reboot-Keeps, recovered-Keeps}

-- The command that restarts a job.
abbrev pub restart : ReaperConfig → ℕ → Event
restart config job = ran (record {
  line = retrigger_command job;
  input = none;
  merged = false;
  timeout = config.cmd_timeout;
})

-- Is an event a change in openQA?
abbrev pub is_restart : Event → Bool
is_restart (ran c) = starts_with c.line (codes "openqa-cli api --osd -X POST ")
is_restart _ = false

is_restart-check :
    (host : Str) (config : ReaperConfig) → is_restart (ran (check_command host config)) ≡ false
unfolding check_command ssh_line starts_with
is_restart-check host config = refl

is_restart-restart : (config : ReaperConfig) (job : ℕ) → is_restart (restart config job) ≡ true
unfolding retrigger_command starts_with
is_restart-restart config job = refl

abbrev IsOther : Event → Type 0
IsOther e = is_restart e ≡ false

module _ {W : Type 0} (m : Machine W) where
  cmd_outcome-Keeps : (b : Bool) (c : Completed) → Keeps {W = W} IsOther (cmd_outcome b c)
  unfolding cmd_outcome
  cmd_outcome-Keeps b (exited code out) = search keeps_rules
  cmd_outcome-Keeps b (signalled code out) = search keeps_rules
  cmd_outcome-Keeps b timed_out = search keeps_rules
  cmd_outcome-Keeps b not_started = search keeps_rules

  is_restart-reboot :
      (host : Str) (config : ReaperConfig) (t : ℕ)
      → is_restart (
          ran (record {
            line = reboot_command host config;
            input = none;
            merged = false;
            timeout = t;
          }))
        ≡ false
  unfolding reboot_command ssh_line starts_with
  is_restart-reboot host config t = refl

  issue_reboot-Keeps :
      (host : Str) (config : ReaperConfig) → Keeps IsOther (issue_reboot m host config)
  unfolding issue_reboot run_cmd
  issue_reboot-Keeps host config =
      search
        (
          keeps_rules,
          cmd_outcome-Keeps,
          is_restart-reboot,
          record_reboot-Keeps m IsOther (λ q. refl) (λ t. refl) (λ p v. refl) (λ p q. refl)
              is_restart-check,
        )
        depth 8

  reboot_unless_down-Keeps :
      (host : Str) (config : ReaperConfig) (down : Bool)
      → Keeps IsOther (reboot_unless_down m host config down)
  unfolding reboot_unless_down
  reboot_unless_down-Keeps host config true = search keeps_rules
  reboot_unless_down-Keeps host config false = issue_reboot-Keeps host config

  recovered-IsOther :
      (host : Str) (jobs : List ℕ) (config : ReaperConfig) (down : Bool)
      → Keeps IsOther (recovered m host jobs config down)
  recovered-IsOther =
      recovered-Keeps m IsOther (λ q. refl) (λ t. refl) (λ p v. refl) (λ p q. refl) is_restart-check

  cmd_outcome-state : (b : Bool) (c : Completed) (s : St W) → (cmd_outcome b c s).1 ≡ s
  unfolding cmd_outcome pure raise
  cmd_outcome-state b c s = ground arith

  pub trace-run_cmd :
      (cmd : Str) (b : Bool) (t : ℕ) (s : St W)
      → (run_cmd m cmd b t s).1.trace
        ≡ ran (record { line = cmd; input = none; merged = false; timeout = t }) ∷ s.trace
  unfolding run_cmd run ◌>>=◌
  trace-run_cmd cmd b t s = ap (λ (s : St W). s.trace) (cmd_outcome-state b _ _)

  module _ (config : ReaperConfig) (wet : config.dry_run ≡ false) where
    -- The trace after the jobs were restarted in their order.
    abbrev pub restarted : List ℕ → List Event → List Event
    restarted [] t = t
    restarted (j ∷ jobs) t = restarted jobs (restart config j ∷ t)

    retrigger-wet :
        (j : ℕ) (jobs : List ℕ)
        → retrigger m (j ∷ jobs) config
          ≡ (run_cmd m (retrigger_command j) true config.cmd_timeout >> retrigger m jobs config)
    unfolding retrigger
    retrigger-wet j jobs =
        ap
          (λ b.
            if b
            then retrigger m jobs config
            else (run_cmd m (retrigger_command j) true config.cmd_timeout
                >> retrigger m jobs config))
          wet

    trace-retrigger :
        (jobs : List ℕ) (s : St W)
        → (retrigger m jobs config s).0 ≡ ok tt
        → (retrigger m jobs config s).1.trace ≡ restarted jobs s.trace
    trace-retrigger [] s h = unfold retrigger pure in refl
    trace-retrigger (j ∷ jobs) s h =
        rw (retrigger-wet j jobs, >>=-follow)
          (go (first s).0 (first s).1 (trace-run_cmd _ _ _ s)
            (rw (retrigger-wet j jobs, >>=-follow) at h) (trace-retrigger jobs (first s).1))
      where
        first : St W → Result Str × St W
        first = run_cmd m (retrigger_command j) true config.cmd_timeout

        go :
            (r : Result Str) (s1 : St W)
            → s1.trace ≡ restart config j ∷ s.trace
            → (follow r (λ _. retrigger m jobs config) s1).0 ≡ ok tt
            → ((retrigger m jobs config s1).0 ≡ ok tt
                → (retrigger m jobs config s1).1.trace ≡ restarted jobs s1.trace)
            → (follow r (λ _. retrigger m jobs config) s1).1.trace ≡ restarted (j ∷ jobs) s.trace
        go (ok x) s1 e h ih = ih h ∙ ap (restarted jobs) e
        go (err x) s1 e h ih = cc

    filter-restarted :
        (jobs : List ℕ) (t : List Event)
        → filter is_restart (restarted jobs t) ≡ restarted jobs (filter is_restart t)
    filter-restarted [] t = refl
    filter-restarted (j ∷ jobs) t =
        filter-restarted jobs (restart config j ∷ t) ∙ ap (restarted jobs) (rw is_restart-restart)

    abbrev finish : List ℕ → Bool → Exec W Unit
    finish jobs back = if back then retrigger m jobs config else pure tt

    abbrev expected : Bool → List ℕ → List Event → List Event
    expected back jobs t =
        if back then restarted jobs (filter is_restart t) else filter is_restart t

    finish-restarts :
        (jobs : List ℕ) (back : Bool) (s s2 : St W)
        → filter is_restart s2.trace ≡ filter is_restart s.trace
        → (finish jobs back s2).0 ≡ ok tt
        → filter is_restart (finish jobs back s2).1.trace ≡ expected back jobs s.trace
    finish-restarts jobs true s s2 e h =
        ap (filter is_restart) (trace-retrigger jobs s2 h)
        ∙ filter-restarted jobs s2.trace
        ∙ ap (restarted jobs) e
    finish-restarts jobs false s s2 e h = unfold pure in e

    recovered-restarts :
        (jobs : List ℕ) (back : Bool) (s s2 : St W) (r : Result Bool)
        → r ≡ ok back
        → filter is_restart s2.trace ≡ filter is_restart s.trace
        → (follow r (finish jobs) s2).0 ≡ ok tt
        → filter is_restart (follow r (finish jobs) s2).1.trace ≡ expected back jobs s.trace
    recovered-restarts jobs back s s2 (ok b) r e h =
        let same_back : b ≡ back = cc r in rw (← same_back) (finish-restarts jobs b s s2 e h)
    recovered-restarts jobs back s s2 (err x) r e h = cc

    rebooted-restarts :
        (host : Str) (jobs : List ℕ) (down back : Bool) (s s1 : St W) (r : Result (Unit {0}))
        → filter is_restart s1.trace ≡ filter is_restart s.trace
        → (recovered m host jobs config down s1).0 ≡ ok back
        → (follow r (λ _. recovered m host jobs config down >>= finish jobs) s1).0 ≡ ok tt
        → filter is_restart
            (follow r (λ _. recovered m host jobs config down >>= finish jobs) s1).1.trace
          ≡ expected back jobs s.trace
    unfolding ◌>>=◌
    rebooted-restarts host jobs down back s s1 (ok x) e r h =
        recovered-restarts jobs back s _ _ r
          (filter-Added is_restart (λ e p. p) ((recovered-IsOther host jobs config down).at s1) ∙ e)
          h
    rebooted-restarts host jobs down back s s1 (err x) e r h = cc

    -- A run of `trigger_actions` without `--dry-run` that ends without an exception has restarted
    -- exactly the given jobs, each once and in their order, if the host was recovered, and no job
    -- if it was not.
    pub trigger_actions-restarts :
        (host : Str) (jobs : List ℕ) (down back : Bool) (s : St W)
        → (recovered m host jobs config down (reboot_unless_down m host config down s).1).0
          ≡ ok back
        → (trigger_actions m host jobs config down s).0 ≡ ok tt
        → filter is_restart (trigger_actions m host jobs config down s).1.trace
          ≡ (if back then restarted jobs (filter is_restart s.trace) else filter is_restart s.trace)
    unfolding trigger_actions ◌>>=◌
    trigger_actions-restarts host jobs down back s r h =
        rebooted-restarts host jobs down back s _ _
          (filter-Added is_restart (λ e p. p) ((reboot_unless_down-Keeps host config down).at s)) r
          h
