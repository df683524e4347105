-- ===== src/Reaper/DryRun.antt =====
-- `--dry-run` of s390x-qemu-zombie-reaper.py: what a run asks of the world.
pub mod Ask
use os_autoinst_scripts.Prelude.{
  ℕ, zero, suc, ◌+◌, ◌≡◌, Bool, true, false, Option, none, some, List, [], ◌∷◌, All, leb,
}
use os_autoinst_scripts.Py.Str.{Str, codes}
use os_autoinst_scripts.Py.Dict.{Dict}
use os_autoinst_scripts.Py.Json.{Value}
use os_autoinst_scripts.Reaper.Machine.{
  Machine, Command, Completed, exited, signalled, timed_out, not_started,
}
use os_autoinst_scripts.Reaper.Exec.{
  Event, ran, sent, wrote, replaced, slept, locked, unlocked, Error, unreachable, Result, ok, err,
  St, Exec, pure, ◌>>=◌,
}
use os_autoinst_scripts.Reaper.Exec.Keeps.{
  Added-All, Keeps, keeps_rules, Keeps-if, Keeps-bind, Keeps-attempt,
}
use os_autoinst_scripts.Reaper.Config.{ReaperConfig, ssh_line}
use os_autoinst_scripts.Reaper.Ssh.{run_ssh, run_cmd, ssh_outcome, cmd_outcome}
use os_autoinst_scripts.Reaper.Workers.{
  workers_command, found_jobs, decoded_jobs, running_jobs_from, get_running_jobs,
}
use os_autoinst_scripts.Reaper.Wait.{
  check_command, responds, wait_fuel, wait_loop, wait_until, wait_for_host,
}
use os_autoinst_scripts.Reaper.RebootState.{
  read_from, read_reboot_state, base_time, reboot_deadline,
}
use os_autoinst_scripts.Reaper.Recover.{
  issue_reboot, recover_for_jobs, retrigger, reboot_unless_down, recovered, trigger_actions,
}
use os_autoinst_scripts.Reaper.Check.{
  Critical, zombie_detector, health, check_libvirt_health, get_zombie_candidates, find_unhealthy,
  report_zombies, judge, verify, find_critical, second_try, when_unreachable, first_try, check_host,
  act_on, handle_host,
}
use os_autoinst_scripts.Reaper.Main.{
  Options, configure, host_names, handle_in_turn, handle_all, reap_all_hosts, with_file_lock,
  reap_locked, reap_with, reap_parsed, reap,
}
use os_autoinst_scripts.Reaper.Main.Settings.{parse_hmc_lpars}
use Ask.{ReadOnly, read_only_rules, check_host-Keeps, get_running_jobs-Keeps}

module _ {W : Type 0} (m : Machine W) where
  module _ (config : ReaperConfig) (dry : config.dry_run ≡ true) where
    issue_reboot-Keeps : (host : Str) → Keeps ReadOnly (issue_reboot m host config)
    unfolding issue_reboot
    issue_reboot-Keeps host =
        Keeps-if config.dry_run (pure tt) _ (λ _. search read_only_rules) (λ wet. absurd (cc))

    reboot_unless_down-Keeps :
        (host : Str) (down : Bool) → Keeps ReadOnly (reboot_unless_down m host config down)
    unfolding reboot_unless_down
    reboot_unless_down-Keeps host true = search read_only_rules
    reboot_unless_down-Keeps host false = search issue_reboot-Keeps

    recover_for_jobs-Keeps :
        (host : Str) (jobs : List ℕ) (down : Bool)
        → Keeps ReadOnly (recover_for_jobs m host jobs config down)
    unfolding recover_for_jobs
    recover_for_jobs-Keeps host jobs down =
        Keeps-if config.dry_run (pure true) _ (λ _. search read_only_rules) (λ wet. absurd (cc))

    recovered-Keeps :
        (host : Str) (jobs : List ℕ) (down : Bool)
        → Keeps ReadOnly (recovered m host jobs config down)
    unfolding recovered
    recovered-Keeps host [] true = search recover_for_jobs-Keeps
    recovered-Keeps host [] false = search read_only_rules
    recovered-Keeps host (j ∷ jobs) down = search recover_for_jobs-Keeps

    retrigger-Keeps : (jobs : List ℕ) → Keeps ReadOnly (retrigger m jobs config)
    unfolding retrigger
    retrigger-Keeps [] = search read_only_rules
    retrigger-Keeps (j ∷ jobs) =
        Keeps-if config.dry_run (retrigger m jobs config) _ (λ _. retrigger-Keeps jobs)
          (λ wet. absurd (cc))

    trigger_actions-Keeps :
        (host : Str) (jobs : List ℕ) (down : Bool)
        → Keeps ReadOnly (trigger_actions m host jobs config down)
    unfolding trigger_actions
    trigger_actions-Keeps host jobs down =
        search (read_only_rules, reboot_unless_down-Keeps, recovered-Keeps, retrigger-Keeps)

    act_on-Keeps :
        (host : Str) (found : Option Critical × Bool) → Keeps ReadOnly (act_on m host config found)
    unfolding act_on
    act_on-Keeps host (none, down) = search read_only_rules
    act_on-Keeps host (some critical, down) =
        search (read_only_rules, get_running_jobs-Keeps, trigger_actions-Keeps)

    handle_host-Keeps : (host : Str) → Keeps ReadOnly (handle_host m host config)
    unfolding handle_host
    handle_host-Keeps host = search (read_only_rules, check_host-Keeps, act_on-Keeps)

    handle_in_turn-Keeps : (hosts : List Str) → Keeps ReadOnly (handle_in_turn m hosts config)
    unfolding handle_in_turn
    handle_in_turn-Keeps [] = search read_only_rules
    handle_in_turn-Keeps (host ∷ hosts) =
        Keeps-bind _ _ (handle_host-Keeps host) (λ _. handle_in_turn-Keeps hosts)

    handle_all-Keeps : (hosts : List Str) → Keeps ReadOnly (handle_all m hosts config)
    unfolding handle_all
    handle_all-Keeps [] = search read_only_rules
    handle_all-Keeps (host ∷ hosts) =
        Keeps-bind _ _ (search (read_only_rules, handle_host-Keeps)) λ r.
          Keeps-bind _ _ (Keeps-attempt _ (handle_all-Keeps hosts)) λ later. search read_only_rules

    reap_all_hosts-Keeps :
        (schedule : List Str) (n : ℕ) → Keeps ReadOnly (reap_all_hosts m schedule config n)
    unfolding reap_all_hosts
    reap_all_hosts-Keeps schedule n =
        Keeps-if (leb n 1) _ _ (λ _. handle_in_turn-Keeps host_names)
          (λ _. handle_all-Keeps schedule)

    reap_locked-Keeps :
        (schedule : List Str) (n : ℕ) (acquired : Bool)
        → Keeps ReadOnly (reap_locked m schedule config n acquired)
    unfolding reap_locked
    reap_locked-Keeps schedule n true = search (read_only_rules, reap_all_hosts-Keeps)
    reap_locked-Keeps schedule n false = search read_only_rules

    reap_with-Keeps :
        (schedule : List Str) (n : ℕ) (path : Option Str)
        → Keeps ReadOnly (reap_with m schedule config n path)
    unfolding reap_with with_file_lock
    reap_with-Keeps schedule n none = search (read_only_rules, reap_all_hosts-Keeps)
    reap_with-Keeps schedule n (some path) = search (read_only_rules, reap_locked-Keeps) depth 8

  reap_parsed-Keeps :
      (schedule : List Str) (o : Options) (lpars : Option (Dict Str))
      → o.dry_run ≡ true
      → Keeps ReadOnly (reap_parsed m schedule o lpars)
  unfolding reap_parsed configure
  reap_parsed-Keeps schedule o none dry = search read_only_rules
  reap_parsed-Keeps schedule o (some lpars) dry =
      reap_with-Keeps (configure o lpars) dry schedule o.concurrency o.lock_file

-- A run that begins in a world, with nothing done yet.
abbrev pub start : {W : Type 0} → W → St W
start w = record { world = w; trace = [] }

-- With `--dry-run` a whole run, however it ends and whatever hosts, openQA and the HMC answer, does
-- nothing but list the workers, check hosts over SSH, pause and take its own lock: no reboot and no
-- job restart is issued, no HMC request is sent and the state file is not written.
pub reap_dry_run :
    {W : Type 0} (m : Machine W) (schedule : List Str) (o : Options) (w : W)
    → o.dry_run ≡ true
    → All ReadOnly (reap m schedule o (start w)).1.trace
unfolding reap
reap_dry_run m schedule o w dry =
    Added-All ((reap_parsed-Keeps m schedule o (parse_hmc_lpars o.hmc_lpar) dry).at (start w)) tt
