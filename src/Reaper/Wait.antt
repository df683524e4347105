-- ===== src/Reaper/Wait.antt =====
-- `wait_for_host`: poll a host over SSH until it responds or a deadline passes.
pub mod Laws
pub mod Trace
use os_autoinst_scripts.Prelude.{
  ℕ, zero, suc, ◌+◌, ◌-◌, ◌*◌, Bool, true, false, Option, none, some, ◌==◌, leb, if◌then◌else◌,
}
use os_autoinst_scripts.Py.Str.{Str, codes}
use os_autoinst_scripts.Reaper.Machine.{
  Machine, Command, Completed, exited, signalled, timed_out, not_started, second,
}
use os_autoinst_scripts.Reaper.Exec.{
  Exec, St, out_of_fuel, pure, raise, ◌>>=◌, ◌>>◌, run, time, sleep,
}
use os_autoinst_scripts.Reaper.Config.{ReaperConfig, ssh_line, ret_success}

unfoldable pub check_command : Str → ReaperConfig → Command
check_command host config = record {
  line = ssh_line config host (codes "true");
  input = none;
  merged = false;
  timeout = config.ssh_timeout + 5;
}

-- Does the check count as a response? `OSError` and `TimeoutExpired` are caught.
unfoldable pub responds : Completed → Bool
responds (exited code _) = code == ret_success
responds (signalled _ _) = false
responds timed_out = false
responds not_started = false

module _ {W : Type 0} (m : Machine W) where
  -- the `while True` loop, for as many rounds as there is fuel
  unfoldable pub wait_loop : ℕ → Str → ReaperConfig → ℕ → Exec W Bool
  wait_loop zero host config deadline = raise out_of_fuel
  wait_loop (suc fuel) host config deadline =
      let again =
        sleep m (config.ssh_check_interval * second) >> wait_loop fuel host config deadline in
      do
        res ← run m (check_command host config)
        if responds res
            then pure true
            else do now ← time m; if leb deadline now then pure false else again

  -- Each round sleeps, so there are no more rounds than microseconds left, and one.
  abbrev pub wait_fuel : ℕ → St W → ℕ
  wait_fuel deadline s = suc (suc (deadline - m.now s.world))

  unfoldable pub wait_until : Str → ReaperConfig → ℕ → Exec W Bool
  unfolding wait_loop
  wait_until host config deadline s = wait_loop (wait_fuel deadline s) host config deadline s

  -- `deadline: float | None = None`
  unfoldable pub wait_for_host : Str → ReaperConfig → Option ℕ → Exec W Bool
  unfolding wait_until
  wait_for_host host config none = do
    now ← time m
    wait_until host config (now + config.max_wait_minutes * 60 * second)
  wait_for_host host config (some deadline) = wait_until host config deadline
