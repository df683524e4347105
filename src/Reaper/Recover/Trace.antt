-- ===== src/Reaper/Recover/Trace.antt =====
-- What recovering a host adds to the trace, for any property of events that HMC requests, pauses,
-- the state file and the SSH checks of the host have.
use os_autoinst_scripts.Prelude.{ℕ, Bool, true, false, Option, none, some, List, [], ◌∷◌}
use os_autoinst_scripts.Py.Str.{Str}
use os_autoinst_scripts.Py.Json.{Value}
use os_autoinst_scripts.Reaper.Machine.{Machine, Request}
use os_autoinst_scripts.Reaper.Exec.{
  Event, ran, sent, wrote, replaced, slept, hmc, os_error, key_error, Result, ok, err,
}
use os_autoinst_scripts.Reaper.Exec.Keeps.{Keeps, keeps_rules}
use os_autoinst_scripts.Reaper.Config.{ReaperConfig}
use os_autoinst_scripts.Reaper.Wait.{check_command}
use os_autoinst_scripts.Reaper.RebootState.{
  read_from, save_state, record_in, record_reboot, boot_deadline,
}
use os_autoinst_scripts.Reaper.Recover.{
  hmc_outcome, force_via, force_with, hmc_force_reboot, wait_for_boot, force_host, recover_host,
  stabilise, recover_for_jobs, recovered,
}
use os_autoinst_scripts.Reaper.Hmc.Trace.{with_session-Keeps, reset_and_load-Keeps}
use os_autoinst_scripts.Reaper.Wait.Trace.{wait_for_host-Keeps}

module _ {W : Type 0} (m : Machine W) (P : Event → Type 0) where
  hmc_outcome-Keeps : (r : Result (Unit {0})) → Keeps {W = W} P (hmc_outcome r)
  unfolding hmc_outcome
  hmc_outcome-Keeps (ok a) = search keeps_rules
  hmc_outcome-Keeps (err (hmc f)) = search keeps_rules
  hmc_outcome-Keeps (err os_error) = search keeps_rules
  hmc_outcome-Keeps (err (key_error k)) = search keeps_rules
  hmc_outcome-Keeps (err _) = search keeps_rules

  module _ (on_sent : (q : Request) → P (sent q)) (on_slept : (t : ℕ) → P (slept t)) where
    force_with-Keeps :
        (c : Option (Str × Str)) (h l : Option Str) (config : ReaperConfig)
        → Keeps P (force_with m c h l config)
    unfolding force_with force_via
    force_with-Keeps (some c) (some h) (some l) config =
        search
          (
            keeps_rules,
            hmc_outcome-Keeps,
            with_session-Keeps m P on_sent on_slept,
            reset_and_load-Keeps m P on_sent on_slept,
          )
          depth 8
    force_with-Keeps _ _ _ config = search keeps_rules

    module _ (on_wrote : (p : Str) (v : Value) → P (wrote p v))
        (on_replaced : (p q : Str) → P (replaced p q))
        (on_check : (host : Str) (config : ReaperConfig)
          → P (ran (check_command host config))) where
      read_from-Keeps : (path : Option Str) → Keeps P (read_from m path)
      unfolding read_from
      read_from-Keeps none = search keeps_rules
      read_from-Keeps (some path) = search keeps_rules

      record_in-Keeps : (path : Option Str) (host : Str) → Keeps P (record_in m path host)
      unfolding record_in save_state
      record_in-Keeps none host = search keeps_rules
      record_in-Keeps (some path) host =
          search (keeps_rules, read_from-Keeps, on_wrote, on_replaced) depth 10

      pub record_reboot-Keeps :
          (host : Str) (config : ReaperConfig) → Keeps P (record_reboot m host config)
      unfolding record_reboot
      record_reboot-Keeps host config = record_in-Keeps config.state_file host

      wait_for_boot-Keeps :
          (host : Str) (config : ReaperConfig) → Keeps P (wait_for_boot m host config)
      unfolding wait_for_boot boot_deadline
      wait_for_boot-Keeps host config =
          search (keeps_rules, wait_for_host-Keeps m P on_slept on_check)

      force_host-Keeps : (host : Str) (config : ReaperConfig) → Keeps P (force_host m host config)
      unfolding force_host hmc_force_reboot
      force_host-Keeps host config =
          search (keeps_rules, record_reboot-Keeps, force_with-Keeps, wait_for_boot-Keeps) depth 8

      recover_host-Keeps :
          (host : Str) (config : ReaperConfig) (wait_first : Bool)
          → Keeps P (recover_host m host config wait_first)
      unfolding recover_host
      recover_host-Keeps host config false = force_host-Keeps host config
      recover_host-Keeps host config true =
          search (keeps_rules, wait_for_boot-Keeps, force_host-Keeps) depth 8

      stabilise-Keeps : (jobs : List ℕ) (config : ReaperConfig) → Keeps P (stabilise m jobs config)
      unfolding stabilise
      stabilise-Keeps [] config = search keeps_rules
      stabilise-Keeps (j ∷ jobs) config = search (keeps_rules, on_slept)

      recover_for_jobs-Keeps :
          (host : Str) (jobs : List ℕ) (config : ReaperConfig) (down : Bool)
          → Keeps P (recover_for_jobs m host jobs config down)
      unfolding recover_for_jobs
      recover_for_jobs-Keeps host jobs config down =
          search (keeps_rules, recover_host-Keeps, stabilise-Keeps) depth 8

      pub recovered-Keeps :
          (host : Str) (jobs : List ℕ) (config : ReaperConfig) (down : Bool)
          → Keeps P (recovered m host jobs config down)
      unfolding recovered
      recovered-Keeps host [] config true = recover_for_jobs-Keeps host [] config true
      recovered-Keeps host [] config false = search keeps_rules
      recovered-Keeps host (j ∷ jobs) config down =
          recover_for_jobs-Keeps host (j ∷ jobs) config down
