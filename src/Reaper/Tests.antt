-- ===== src/Reaper/Tests.antt =====
-- Runs of the reaper on a small machine, and the theorems at concrete inputs.
mod Lab
mod Parts
use os_autoinst_scripts.Prelude.{
  ℕ, ◌≤◌, ◌+◌, ◌*◌, ◌≡◌, refl, Bool, true, false, ◌&&◌, Option, none, some, List, [], ◌∷◌, arith,
  All, any, filter, option_map, if◌then◌else◌,
}
use os_autoinst_scripts.Py.Str.{Str, codes, eqb, splitlines, strip, lstrip, rstrip, contains, split}
use os_autoinst_scripts.Py.Num.{decimal, all_digits, int_from}
use os_autoinst_scripts.Py.Dict.{lookup, insert, set_default, or_else}
use os_autoinst_scripts.Py.Json.{
  Value, null, int, float, text, array, object, nil, end, field, field?, put_field,
}
use os_autoinst_scripts.Reaper.Machine.{Machine, second, exited, timed_out}
use os_autoinst_scripts.Reaper.Exec.{
  St, Result, ok, err, hmc, job_timeout, pure, ◌>>=◌, time, load, write, replace, run, sleep, send,
  flock, funlock, attempt, resume, raise,
}
use os_autoinst_scripts.Reaper.Exec.Raises.{Fine}
use os_autoinst_scripts.Reaper.Config.{ReaperConfig, default_config, sysrq, ssh_line, ssh_options}
use os_autoinst_scripts.Reaper.Wait.{wait_for_host, responds, check_command, wait_until, wait_loop}
use os_autoinst_scripts.Reaper.Wait.Laws.{EndsWell, deadline_at, wait_for_host-EndsWell}
use os_autoinst_scripts.Reaper.RebootState.{record_reboot, reboot_deadline, tmp_file, as_state}
use os_autoinst_scripts.Reaper.RebootState.Laws.{
  state_in, saved, field?-record_reboot, reboot_deadline-record_reboot,
}
use os_autoinst_scripts.Reaper.Recover.{
  recover_host, issue_reboot, hmc_force_reboot, trigger_actions,
}
use os_autoinst_scripts.Reaper.Recover.Returns.{hmc_force_reboot-returns}
use os_autoinst_scripts.Reaper.Recover.Laws.{
  UpAfter, recover_host-UpAfter, reboot_event, trace-issue_reboot,
}
use os_autoinst_scripts.Reaper.Main.{Options, reap, reap_with}
use os_autoinst_scripts.Reaper.Main.Laws.{checked, finished, after_lock, reap_with_lock}
use os_autoinst_scripts.Reaper.DryRun.{start, reap_dry_run}
use os_autoinst_scripts.Reaper.DryRun.Ask.{ReadOnly}
use os_autoinst_scripts.Reaper.Check.{check_host}
use os_autoinst_scripts.Reaper.Check.Laws.{Checked, check_host-Checked}
use Lab.{World, lab, worker_list, lab-HasClock, lab-HasFiles}

abbrev zl12 : Str
zl12 = codes "s390zl12.oqa.prg2.suse.org"

abbrev state_path : Str
state_path = codes "/tmp/state.json"

abbrev config : ReaperConfig
config = record default_config { state_file = some state_path }

-- A machine on which every command succeeds, and one on which every command hangs.
abbrev healthy : Machine World
healthy = lab (exited 0 []) true null

abbrev hanging : Machine World
hanging = lab timed_out true null

abbrev world : World
world = record { clock = 1000; files = [] }

abbrev options : Options
options = record {
  dry_run = true;
  reboot_method = sysrq;
  max_wait_minutes = 0;
  stability_delay_minutes = 3;
  cmd_timeout = 60;
  hmc_fallback = true;
  hmc_host = none;
  hmc_port = 6794;
  hmc_user = none;
  hmc_password = none;
  hmc_lpar = [];
  hmc_verify_tls = true;
  hmc_ca_file = none;
  concurrency = 1;
  lock_file = none;
  state_file = none;
}

reap_dry_run_example : All ReadOnly (reap hanging [] options (start world)).1.trace
reap_dry_run_example = reap_dry_run hanging [] options world refl

wait_for_host-EndsWell_example :
    EndsWell hanging zl12 config
      (deadline_at hanging config (some 9000) (start world))
      (wait_for_host hanging zl12 config (some 9000) (start world))
wait_for_host-EndsWell_example =
    wait_for_host-EndsWell hanging zl12 config (some 9000) (start world)
      (lab-HasClock timed_out true null) (omega arith)

check_host-Checked_example : Checked zl12 (check_host healthy zl12 config (start world)).0
check_host-Checked_example = check_host-Checked healthy zl12 config (start world)

recover_host-UpAfter_example :
    UpAfter healthy zl12 config (recover_host healthy zl12 config true (start world))
recover_host-UpAfter_example =
    recover_host-UpAfter healthy zl12 config (lab-HasClock (exited 0 []) true null) (omega arith)
      true (start world)

abbrev with_hmc : ReaperConfig
with_hmc = record config {
  hmc_host = some (codes "hmc");
  hmc_user = some (codes "u");
  hmc_password = some (codes "p");
  hmc_lpars = (zl12, codes "42") ∷ [];
}

hmc_force_reboot-returns_example :
    (b : Bool) × ((hmc_force_reboot healthy zl12 with_hmc (start world)).0 ≡ ok b)
hmc_force_reboot-returns_example =
    hmc_force_reboot-returns healthy (λ q w. refl) (lab-HasClock (exited 0 []) true null) zl12
      with_hmc (start world)

field?-record_reboot_example :
    field? zl12
      (state_in healthy state_path (record_reboot healthy zl12 config (start world)).1.world)
    ≡ (if saved healthy state_path zl12 (start world) && eqb zl12 zl12
        then some (float 1000)
        else field? zl12 (state_in healthy state_path world))
field?-record_reboot_example =
    field?-record_reboot healthy state_path (lab-HasFiles (exited 0 []) true null) config refl zl12
      zl12 (start world)

reboot_deadline-record_reboot_example :
    (reboot_deadline healthy zl12 config (record_reboot healthy zl12 config (start world)).1).0
    ≡ ok (1000 + 30 * 60 * second)
unfolding as_state put_field tmp_file insert lookup eqb
reboot_deadline-record_reboot_example =
    reboot_deadline-record_reboot healthy state_path (lab-HasFiles (exited 0 []) true null) config
      refl zl12 (start world) refl

trace-issue_reboot_example :
    (issue_reboot healthy zl12 config (start world)).1.trace
    ≡ reboot_event zl12 config ∷ (record_reboot healthy zl12 config (start world)).1.trace
trace-issue_reboot_example = trace-issue_reboot healthy zl12 config (start world)

reap_with_lock_example :
    reap_with (lab timed_out false null) [] config 1 (some (codes "/tmp/lock")) (start world) ≡ (
      ok false,
      after_lock (lab timed_out false null) [] config 1 (codes "/tmp/lock") (start world),
    )
reap_with_lock_example =
    reap_with_lock (lab timed_out false null) [] config 1 (codes "/tmp/lock") (start world)
