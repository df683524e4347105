-- ===== src/Reaper/Recover.antt =====
-- `hmc_force_reboot`, `recover_host`, `reboot_command`, `issue_reboot`, `recover_for_jobs` and
-- `trigger_actions` of s390x-qemu-zombie-reaper.py. What they print is not modelled.
pub mod Laws
pub mod Trace
pub mod Restarts
pub mod Returns
use os_autoinst_scripts.Prelude.{
  ℕ, ◌+◌, ◌*◌, ◌++◌, Bool, true, false, not, ◌&&◌, ◌||◌, Option, none, some, List, [], ◌∷◌, ltb,
  if◌then◌else◌,
}
use os_autoinst_scripts.Py.Str.{Str, codes}
use os_autoinst_scripts.Py.Num.{decimal}
use os_autoinst_scripts.Py.Dict.{lookup}
use os_autoinst_scripts.Reaper.Machine.{Machine, second}
use os_autoinst_scripts.Reaper.Exec.{
  Exec, Error, unreachable, hmc, os_error, key_error, Result, ok, err, pure, raise, attempt, ◌>>=◌,
  ◌>>◌, sleep,
}
use os_autoinst_scripts.Reaper.Config.{ReaperConfig, RebootMethod, sysrq, reboot, ssh_line}
use os_autoinst_scripts.Reaper.Ssh.{run_cmd}
use os_autoinst_scripts.Reaper.Wait.{wait_for_host}
use os_autoinst_scripts.Reaper.RebootState.{record_reboot, boot_deadline}
use os_autoinst_scripts.Reaper.Hmc.{HmcSession, with_session, reset_and_load, hmc_credentials}

-- `reboot_command(host, config)[0]`
unfoldable pub remote_reboot : RebootMethod → Str
remote_reboot sysrq = codes "\"sudo bash -c 'echo c > /proc/sysrq-trigger'\""
remote_reboot reboot = codes "\"sudo reboot\""

unfoldable pub reboot_command : Str → ReaperConfig → Str
reboot_command host config = ssh_line config host (remote_reboot config.reboot_method)

unfoldable pub retrigger_command : ℕ → Str
retrigger_command job_id =
    codes "openqa-cli api --osd -X POST jobs/" ++ (decimal job_id ++ codes "/restart")

unfoldable pub hmc_session : Str → ReaperConfig → Str × Str → HmcSession
hmc_session hmc_host config (user, password) = record {
  base_url =
      codes "https://" ++ (hmc_host ++ (codes ":" ++ (decimal config.hmc_port ++ codes "/api")));
  user = user;
  password = password;
  verify_tls = config.hmc_verify_tls;
  token = none;
}

module _ {W : Type 0} where
  -- `except (OSError, HmcError, KeyError)`
  unfoldable pub hmc_outcome : Result (Unit {0}) → Exec W Bool
  hmc_outcome (ok _) = pure true
  hmc_outcome (err os_error) = pure false
  hmc_outcome (err (hmc _)) = pure false
  hmc_outcome (err (key_error _)) = pure false
  hmc_outcome (err e) = raise e

module _ {W : Type 0} (m : Machine W) where
  -- the body of the `try`: the session's TLS context is made first
  unfoldable pub force_via : Str → ReaperConfig → Str → Str × Str → Exec W Unit
  unfolding hmc_session
  force_via hmc_host config lpar_id credentials =
      if m.ca_loads config.hmc_ca_file
      then with_session m (hmc_session hmc_host config credentials)
          (λ s. reset_and_load m s (codes "/logical-partitions/" ++ lpar_id))
      else raise os_error

  unfoldable pub force_with :
      Option (Str × Str) → Option Str → Option Str → ReaperConfig → Exec W Bool
  unfolding force_via hmc_outcome
  force_with (some credentials) (some hmc_host) (some lpar_id) config = do
    r ← attempt (force_via hmc_host config lpar_id credentials)
    hmc_outcome r
  force_with _ _ _ config = pure false

  unfoldable pub hmc_force_reboot : Str → ReaperConfig → Exec W Bool
  unfolding force_with
  hmc_force_reboot host config =
      force_with (hmc_credentials m config) config.hmc_host (lookup host config.hmc_lpars) config

  unfoldable pub wait_for_boot : Str → ReaperConfig → Exec W Bool
  wait_for_boot host config = do
    deadline ← boot_deadline m config
    wait_for_host m host config (some deadline)

  -- `recover_host` from where the host did not come back by itself
  unfoldable pub force_host : Str → ReaperConfig → Exec W Bool
  unfolding wait_for_boot
  force_host host config =
      if config.hmc_fallback
      then (do
        record_reboot m host config
        forced ← hmc_force_reboot host config
        if forced then wait_for_boot host config else pure false)
      else pure false

  unfoldable pub recover_host : Str → ReaperConfig → Bool → Exec W Bool
  unfolding force_host wait_for_boot
  recover_host host config false = force_host host config
  recover_host host config true = do
    back ← wait_for_boot host config
    if back then pure true else force_host host config

  unfoldable pub issue_reboot : Str → ReaperConfig → Exec W Unit
  issue_reboot host config = if config.dry_run then pure tt else (do
    record_reboot m host config
    run_cmd m (reboot_command host config) false (config.ssh_timeout + 15)
    pure tt)

  -- `if jobs and config.stability_delay_minutes > 0`
  unfoldable pub stabilise : List ℕ → ReaperConfig → Exec W Unit
  stabilise [] config = pure tt
  stabilise (j ∷ jobs) config =
      if ltb 0 config.stability_delay_minutes
      then sleep m (config.stability_delay_minutes * 60 * second)
      else pure tt

  unfoldable pub recover_for_jobs : Str → List ℕ → ReaperConfig → Bool → Exec W Bool
  unfolding stabilise
  recover_for_jobs host jobs config host_down = if config.dry_run then pure true else (do
    back ← recover_host host config (not host_down)
    if back then stabilise jobs config >> pure true else pure false)

  unfoldable pub retrigger : List ℕ → ReaperConfig → Exec W Unit
  retrigger [] config = pure tt
  retrigger (j ∷ jobs) config =
      let rest = retrigger jobs config in
      if config.dry_run
      then rest
      else run_cmd m (retrigger_command j) true config.cmd_timeout >> rest

  unfoldable pub reboot_unless_down : Str → ReaperConfig → Bool → Exec W Unit
  reboot_unless_down host config host_down = if host_down then pure tt else issue_reboot host config

  -- `(jobs or host_down) and not recover_for_jobs(…)` is the negation of what this returns
  unfoldable pub recovered : Str → List ℕ → ReaperConfig → Bool → Exec W Bool
  recovered host [] config false = pure true
  recovered host [] config true = recover_for_jobs host [] config true
  recovered host (j ∷ jobs) config host_down = recover_for_jobs host (j ∷ jobs) config host_down

  unfoldable pub trigger_actions : Str → List ℕ → ReaperConfig → Bool → Exec W Unit
  unfolding reboot_unless_down recovered
  trigger_actions host jobs config host_down = do
    reboot_unless_down host config host_down
    back ← recovered host jobs config host_down
    if back then retrigger jobs config else pure tt
