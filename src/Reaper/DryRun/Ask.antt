-- ===== src/Reaper/DryRun/Ask.antt =====
-- The methods of s390x-qemu-zombie-reaper.py that only ask: the worker list, the checks of a host,
-- and the waiting.
use os_autoinst_scripts.Prelude.{ℕ, Bool, true, false, Option, none, some, List, [], ◌∷◌}
use os_autoinst_scripts.Py.Str.{Str, codes}
use os_autoinst_scripts.Py.Json.{Value}
use os_autoinst_scripts.Reaper.Machine.{
  Machine, Completed, exited, signalled, timed_out, not_started,
}
use os_autoinst_scripts.Reaper.Exec.{
  Event, ran, slept, locked, unlocked, unreachable, Result, ok, err,
}
use os_autoinst_scripts.Reaper.Exec.Keeps.{Keeps, keeps_rules, Keeps-if, Keeps-bind, Keeps-attempt}
use os_autoinst_scripts.Reaper.Config.{ReaperConfig, ssh_line}
use os_autoinst_scripts.Reaper.Ssh.{run_ssh, run_cmd, ssh_outcome, cmd_outcome}
use os_autoinst_scripts.Reaper.Workers.{
  workers_command, found_jobs, decoded_jobs, running_jobs_from, get_running_jobs,
}
use os_autoinst_scripts.Reaper.Wait.{
  check_command, responds, wait_fuel, wait_loop, wait_until, wait_for_host,
}
use os_autoinst_scripts.Reaper.RebootState.{
  read_from, read_reboot_state, base_time, reboot_deadline,
}
use os_autoinst_scripts.Reaper.Check.{
  Critical, zombie_detector, health, check_libvirt_health, get_zombie_candidates, find_unhealthy,
  report_zombies, judge, verify, find_critical, second_try, when_unreachable, first_try, check_host,
}
use os_autoinst_scripts.Reaper.Wait

-- The events that change nothing on a hypervisor, in openQA or in the state file: the list of
-- workers, the three questions over SSH, a pause, and the lock of the run itself.
pub data ReadOnly : Event → Type 0 where
  list_workers :
      (t : ℕ)
      → ReadOnly
          (ran (record { line = workers_command; input = none; merged = false; timeout = t }))
  check : (host : Str) (config : ReaperConfig) → ReadOnly (ran (check_command host config))
  detect :
      (host : Str) (config : ReaperConfig) (t : ℕ)
      → ReadOnly (
          ran (record {
            line = ssh_line config host (codes "python3");
            input = some zombie_detector;
            merged = false;
            timeout = t;
          }))
  list_domains :
      (host : Str) (config : ReaperConfig)
      → ReadOnly (
          ran (record {
            line = ssh_line config host (codes "\"sudo virsh list\"");
            input = none;
            merged = true;
            timeout = 15;
          }))
  pause : (t : ℕ) → ReadOnly (slept t)
  lock : (path : Str) → ReadOnly (locked path)
  unlock : (path : Str) → ReadOnly (unlocked path)

pub ruleset read_only_rules =
    (keeps_rules, list_workers, check, detect, list_domains, pause, lock, unlock)

module _ {W : Type 0} (m : Machine W) where
  ssh_outcome-Keeps : (host : Str) (c : Completed) → Keeps {W = W} ReadOnly (ssh_outcome host c)
  unfolding ssh_outcome
  ssh_outcome-Keeps host (exited code out) = search read_only_rules
  ssh_outcome-Keeps host (signalled code out) = search read_only_rules
  ssh_outcome-Keeps host timed_out = search read_only_rules
  ssh_outcome-Keeps host not_started = search read_only_rules

  cmd_outcome-Keeps : (b : Bool) (c : Completed) → Keeps {W = W} ReadOnly (cmd_outcome b c)
  unfolding cmd_outcome
  cmd_outcome-Keeps b (exited code out) = search read_only_rules
  cmd_outcome-Keeps b (signalled code out) = search read_only_rules
  cmd_outcome-Keeps b timed_out = search read_only_rules
  cmd_outcome-Keeps b not_started = search read_only_rules

  health-Keeps : (host : Str) (c : Completed) → Keeps {W = W} ReadOnly (health host c)
  unfolding health
  health-Keeps host (exited code out) = search read_only_rules
  health-Keeps host (signalled code out) = search read_only_rules
  health-Keeps host timed_out = search read_only_rules
  health-Keeps host not_started = search read_only_rules

  found_jobs-Keeps : (jobs : Option (List ℕ)) → Keeps {W = W} ReadOnly (found_jobs jobs)
  unfolding found_jobs
  found_jobs-Keeps none = search read_only_rules
  found_jobs-Keeps (some jobs) = search read_only_rules

  decoded_jobs-Keeps : (s : Str) (v : Option Value) → Keeps {W = W} ReadOnly (decoded_jobs s v)
  unfolding decoded_jobs
  decoded_jobs-Keeps s none = search read_only_rules
  decoded_jobs-Keeps s (some v) = search found_jobs-Keeps

  running_jobs_from-Keeps : (s t : Str) → Keeps ReadOnly (running_jobs_from m s t)
  unfolding running_jobs_from
  running_jobs_from-Keeps s [] = search read_only_rules
  running_jobs_from-Keeps s (c ∷ t) = search decoded_jobs-Keeps

  pub get_running_jobs-Keeps : (host : Str) (t : ℕ) → Keeps ReadOnly (get_running_jobs m host t)
  unfolding get_running_jobs run_cmd
  get_running_jobs-Keeps host t =
      search (read_only_rules, cmd_outcome-Keeps, running_jobs_from-Keeps)

  wait_for_host-Keeps :
      (host : Str) (config : ReaperConfig) (deadline : Option ℕ)
      → Keeps ReadOnly (wait_for_host m host config deadline)
  wait_for_host-Keeps = Wait.Trace.wait_for_host-Keeps m ReadOnly pause check

  read_from-Keeps : (path : Option Str) → Keeps ReadOnly (read_from m path)
  unfolding read_from
  read_from-Keeps none = search read_only_rules
  read_from-Keeps (some path) = search read_only_rules

  base_time-Keeps : (t : Option ℕ) → Keeps ReadOnly (base_time m t)
  unfolding base_time
  base_time-Keeps none = search read_only_rules
  base_time-Keeps (some t) = search read_only_rules

  reboot_deadline-Keeps :
      (host : Str) (config : ReaperConfig) → Keeps ReadOnly (reboot_deadline m host config)
  unfolding reboot_deadline read_reboot_state
  reboot_deadline-Keeps host config = search (read_only_rules, read_from-Keeps, base_time-Keeps)

  check_libvirt_health-Keeps :
      (host : Str) (config : ReaperConfig) → Keeps ReadOnly (check_libvirt_health m host config)
  unfolding check_libvirt_health
  check_libvirt_health-Keeps host config = search (read_only_rules, health-Keeps)

  get_zombie_candidates-Keeps :
      (host : Str) (config : ReaperConfig) → Keeps ReadOnly (get_zombie_candidates m host config)
  unfolding get_zombie_candidates run_ssh
  get_zombie_candidates-Keeps host config = search (read_only_rules, ssh_outcome-Keeps)

  find_unhealthy-Keeps :
      (host : Str) (config : ReaperConfig) → Keeps ReadOnly (find_unhealthy m host config)
  unfolding find_unhealthy
  find_unhealthy-Keeps host config = search (read_only_rules, check_libvirt_health-Keeps)

  report_zombies-Keeps :
      (host : Str) (pids : Option (List Str)) → Keeps ReadOnly (report_zombies m host pids)
  unfolding report_zombies
  report_zombies-Keeps host none = search read_only_rules
  report_zombies-Keeps host (some pids) = search read_only_rules

  judge-Keeps :
      (host : Str) (config : ReaperConfig) (lines : List Str)
      → Keeps ReadOnly (judge m host config lines)
  unfolding judge
  judge-Keeps host config [] = search find_unhealthy-Keeps
  judge-Keeps host config (l ∷ ls) = search report_zombies-Keeps

  verify-Keeps :
      (host : Str) (config : ReaperConfig) (lines : List Str)
      → Keeps ReadOnly (verify m host config lines)
  unfolding verify
  verify-Keeps host config [] = search find_unhealthy-Keeps
  verify-Keeps host config (l ∷ ls) =
      search (read_only_rules, get_zombie_candidates-Keeps, judge-Keeps)

  find_critical-Keeps :
      (host : Str) (config : ReaperConfig) → Keeps ReadOnly (find_critical m host config)
  unfolding find_critical
  find_critical-Keeps host config =
      search (read_only_rules, get_zombie_candidates-Keeps, verify-Keeps)

  second_try-Keeps :
      (host : Str) (r : Result (Option Critical)) → Keeps ReadOnly (second_try m host r)
  unfolding second_try
  second_try-Keeps host (ok found) = search read_only_rules
  second_try-Keeps host (err (unreachable _)) = search read_only_rules
  second_try-Keeps host (err _) = search read_only_rules

  when_unreachable-Keeps :
      (host : Str) (config : ReaperConfig) → Keeps ReadOnly (when_unreachable m host config)
  unfolding when_unreachable
  when_unreachable-Keeps host config =
      search
        (
          read_only_rules, reboot_deadline-Keeps, wait_for_host-Keeps, find_critical-Keeps,
          second_try-Keeps,
        )
        depth 8

  first_try-Keeps :
      (host : Str) (config : ReaperConfig) (r : Result (Option Critical))
      → Keeps ReadOnly (first_try m host config r)
  unfolding first_try
  first_try-Keeps host config (ok found) = search read_only_rules
  first_try-Keeps host config (err (unreachable _)) = search when_unreachable-Keeps
  first_try-Keeps host config (err _) = search read_only_rules

  -- A check of a host is read-only with and without `--dry-run`, whatever the host answers.
  pub check_host-Keeps :
      (host : Str) (config : ReaperConfig) → Keeps ReadOnly (check_host m host config)
  unfolding check_host
  check_host-Keeps host config = search (read_only_rules, find_critical-Keeps, first_try-Keeps)
