-- ===== src/Reaper/Wait/Trace.antt =====
-- What waiting for a host adds to the trace, for any property of events that pauses and the SSH checks
-- have.
use os_autoinst_scripts.Prelude.{ℕ, zero, suc, true, false, Option, none, some, leb}
use os_autoinst_scripts.Py.Str.{Str}
use os_autoinst_scripts.Reaper.Machine.{Machine}
use os_autoinst_scripts.Reaper.Exec.{Event, ran, slept, pure}
use os_autoinst_scripts.Reaper.Exec.Keeps.{Keeps, keeps_rules, Keeps-if, Keeps-bind}
use os_autoinst_scripts.Reaper.Config.{ReaperConfig}
use os_autoinst_scripts.Reaper.Wait.{
  check_command, responds, wait_fuel, wait_loop, wait_until, wait_for_host,
}

module _ {W : Type 0} (m : Machine W) (P : Event → Type 0) (on_slept : (t : ℕ) → P (slept t))
    (on_check : (host : Str) (config : ReaperConfig) → P (ran (check_command host config))) where
  wait_loop-Keeps :
      (fuel : ℕ) (host : Str) (config : ReaperConfig) (deadline : ℕ)
      → Keeps P (wait_loop m fuel host config deadline)
  unfolding wait_loop
  wait_loop-Keeps zero host config deadline = search keeps_rules
  wait_loop-Keeps (suc fuel) host config deadline =
      Keeps-bind _ _ (search (keeps_rules, on_check)) λ res.
        Keeps-if (responds res) (pure true) _ (λ _. search keeps_rules)
          λ _. Keeps-bind _ _ (search keeps_rules) λ now.
            Keeps-if (leb deadline now) (pure false) _ (λ _. search keeps_rules)
              λ _.
                Keeps-bind _ _ (search (keeps_rules, on_slept))
                  λ _. wait_loop-Keeps fuel host config deadline

  wait_until-Keeps :
      (host : Str) (config : ReaperConfig) (deadline : ℕ)
      → Keeps P (wait_until m host config deadline)
  unfolding wait_until
  wait_until-Keeps host config deadline = record {
    at = λ s. (wait_loop-Keeps (wait_fuel m deadline s) host config deadline).at s;
  }

  pub wait_for_host-Keeps :
      (host : Str) (config : ReaperConfig) (deadline : Option ℕ)
      → Keeps P (wait_for_host m host config deadline)
  unfolding wait_for_host
  wait_for_host-Keeps host config none = search (keeps_rules, wait_until-Keeps)
  wait_for_host-Keeps host config (some deadline) = search wait_until-Keeps
