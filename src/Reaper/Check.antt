-- ===== src/Reaper/Check.antt =====
-- `check_libvirt_health`, `get_zombie_candidates`, `find_critical`, `check_host` and `handle_host` of
-- s390x-qemu-zombie-reaper.py.
pub mod Pids
pub mod Laws
use os_autoinst_scripts.Prelude.{
  ℕ, ◌+◌, ◌*◌, ◌++◌, Bool, true, false, Option, none, some, List, [], ◌∷◌, ◌==◌, filter, map,
  if◌then◌else◌,
}
use os_autoinst_scripts.Py.Str.{Str, codes, eqb, strip, splitlines, contains, join}
use os_autoinst_scripts.Reaper.Machine.{
  Machine, Completed, exited, signalled, timed_out, not_started, second,
}
use os_autoinst_scripts.Reaper.Exec.{
  Exec, Error, unreachable, crash, Result, ok, err, pure, raise, attempt, resume, ◌>>=◌, ◌>>◌, run,
  sleep,
}
use os_autoinst_scripts.Reaper.Config.{ReaperConfig, ssh_line, ssh_err_connect, ret_success}
use os_autoinst_scripts.Reaper.Ssh.{run_ssh}
use os_autoinst_scripts.Reaper.Workers.{get_running_jobs}
use os_autoinst_scripts.Reaper.Wait.{wait_for_host}
use os_autoinst_scripts.Reaper.RebootState.{reboot_deadline}
use os_autoinst_scripts.Reaper.Recover.{trigger_actions}
use Pids.{stuck, sorted_pids}

-- The critical messages, before they are put into words.
pub data Critical : Type 0 where
  zombies : Str → List Str → Critical
  libvirt_unhealthy : Str → Critical
  host_unreachable : Str → Critical

unfoldable pub critical_message : Critical → Str
critical_message (zombies host pids) =
    codes "!!! CRITICAL: Found persistent zombie processes on "
    ++ (host ++ (codes ": " ++ join (codes ", ") pids))
critical_message (libvirt_unhealthy host) = codes "!!! CRITICAL: libvirt is unhealthy on " ++ host
critical_message (host_unreachable host) =
    codes "!!! CRITICAL: " ++ (host ++ codes " is unreachable over SSH")

-- The program that is run on the host. It prints a line for each qemu process in state Z or D.
pub zombie_detector : Str
zombie_detector =
    codes
      "import os\nfor entry in os.scandir('/proc'):\n    if not entry.name.isdigit():\n        continue\n    try:\n        with open(os.path.join(entry.path, 'stat'), 'r') as f:\n            content = f.read()\n        rparen = content.rfind(')')\n        if rparen == -1:\n            continue\n        comm = content[content.find('(') + 1 : rparen]\n        rest = content[rparen + 2 :].split()\n        if comm.startswith('qemu') and rest[0] in ('Z', 'D'):\n            print(f'{entry.name} {rest[19]} {rest[0]}')\n    except (FileNotFoundError, ProcessLookupError, PermissionError, IndexError, OSError):\n        continue"

unfoldable pub not_empty : Str → Bool
not_empty [] = false
not_empty (c ∷ s) = true

-- `[line.strip() for line in output.splitlines() if line.strip()]`
unfoldable pub candidate_lines : Str → List Str
unfolding not_empty
candidate_lines output = filter not_empty (map strip (splitlines output))

module _ {W : Type 0} where
  unfoldable pub health : Str → Completed → Exec W Bool
  health host (exited code out) =
      if code == ssh_err_connect
      then raise (unreachable host)
      else if code == ret_success
      then (if contains out (codes "error:") then pure false else pure true)
      else pure false
  health host (signalled _ out) = pure false
  health host timed_out = pure false
  health host not_started = pure false

module _ {W : Type 0} (m : Machine W) where
  unfoldable pub check_libvirt_health : Str → ReaperConfig → Exec W Bool
  unfolding health
  check_libvirt_health host config = do
    res ← run m (record {
      line = ssh_line config host (codes "\"sudo virsh list\"");
      input = none;
      merged = true;
      timeout = 15;
    })
    health host res

  unfoldable pub get_zombie_candidates : Str → ReaperConfig → Exec W (List Str)
  unfolding candidate_lines
  get_zombie_candidates host config = do
    output ←
        run_ssh m host (codes "python3") config (config.ssh_timeout + 15) (some zombie_detector)
    pure (candidate_lines output)

  -- the last part of `find_critical`
  unfoldable pub find_unhealthy : Str → ReaperConfig → Exec W (Option Critical)
  find_unhealthy host config = do
    healthy ← check_libvirt_health host config
    if healthy then pure none else pure (some (libvirt_unhealthy host))

  -- `sorted` raises where numbers and other words meet.
  unfoldable pub report_zombies : Str → Option (List Str) → Exec W (Option Critical)
  report_zombies host none = raise crash
  report_zombies host (some pids) = pure (some (zombies host pids))

  unfoldable pub judge : Str → ReaperConfig → List Str → Exec W (Option Critical)
  unfolding find_unhealthy report_zombies
  judge host config [] = find_unhealthy host config
  judge host config (c ∷ cs) = report_zombies host (sorted_pids (c ∷ cs))

  unfoldable pub verify : Str → ReaperConfig → List Str → Exec W (Option Critical)
  unfolding judge
  verify host config [] = find_unhealthy host config
  verify host config (c ∷ cs) = do
    sleep m (10 * second)
    verified ← get_zombie_candidates host config
    judge host config (stuck (c ∷ cs) verified)

  unfoldable pub find_critical : Str → ReaperConfig → Exec W (Option Critical)
  unfolding verify
  find_critical host config = do
    initial ← get_zombie_candidates host config
    verify host config initial

  -- A second `HostUnreachableError` is suppressed.
  unfoldable pub second_try : Str → Result (Option Critical) → Exec W (Option Critical × Bool)
  second_try host (ok found) = pure (found, false)
  second_try host (err (unreachable _)) = pure (some (host_unreachable host), true)
  second_try host (err e) = raise e

  unfoldable pub when_unreachable : Str → ReaperConfig → Exec W (Option Critical × Bool)
  unfolding second_try
  when_unreachable host config = do
    deadline ← reboot_deadline m host config
    back ← wait_for_host m host config (some deadline)
    if back
        then (do r ← attempt (find_critical host config); second_try host r)
        else pure (some (host_unreachable host), true)

  unfoldable pub first_try :
      Str → ReaperConfig → Result (Option Critical) → Exec W (Option Critical × Bool)
  unfolding when_unreachable
  first_try host config (ok found) = pure (found, false)
  first_try host config (err (unreachable _)) = when_unreachable host config
  first_try host config (err e) = raise e

  unfoldable pub check_host : Str → ReaperConfig → Exec W (Option Critical × Bool)
  unfolding first_try
  check_host host config = do r ← attempt (find_critical host config); first_try host config r

  unfoldable pub act_on : Str → ReaperConfig → Option Critical × Bool → Exec W Unit
  act_on host config (none, host_down) = pure tt
  act_on host config (some critical, host_down) = do
    jobs ← get_running_jobs m host config.cmd_timeout
    trigger_actions m host jobs config host_down

  unfoldable pub handle_host : Str → ReaperConfig → Exec W Unit
  unfolding act_on
  handle_host host config = do found ← check_host host config; act_on host config found
