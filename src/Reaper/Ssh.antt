-- ===== src/Reaper/Ssh.antt =====
-- `run_ssh` and `run_cmd` of s390x-qemu-zombie-reaper.py.
use os_autoinst_scripts.Prelude.{ℕ, Bool, false, Option, none, [], ◌==◌, if◌then◌else◌}
use os_autoinst_scripts.Py.Str.{Str, strip}
use os_autoinst_scripts.Reaper.Machine.{
  Machine, Completed, exited, signalled, timed_out, not_started,
}
use os_autoinst_scripts.Reaper.Exec.{Exec, unreachable, os_error, pure, raise, ◌>>=◌, run}
use os_autoinst_scripts.Reaper.Config.{ReaperConfig, ssh_line, ssh_err_connect, ret_success}

module _ {W : Type 0} where
  unfoldable pub ssh_outcome : Str → Completed → Exec W Str
  ssh_outcome host (exited code out) =
      if code == ssh_err_connect then raise (unreachable host) else pure (strip out)
  ssh_outcome host (signalled _ out) = pure (strip out)
  ssh_outcome host timed_out = raise (unreachable host)
  ssh_outcome host not_started = raise os_error

  -- The result of `run_cmd`: a failed check and a timeout give the empty text.
  unfoldable pub cmd_outcome : Bool → Completed → Exec W Str
  cmd_outcome check (exited code out) =
      if check
      then (if code == ret_success then pure (strip out) else pure [])
      else pure (strip out)
  cmd_outcome check (signalled _ out) = if check then pure [] else pure (strip out)
  cmd_outcome check timed_out = pure []
  cmd_outcome check not_started = raise os_error

module _ {W : Type 0} (m : Machine W) where
  unfoldable pub run_ssh : Str → Str → ReaperConfig → ℕ → Option Str → Exec W Str
  run_ssh host remote_cmd config timeout cmd_input = do
    res ← run m (record {
      line = ssh_line config host remote_cmd;
      input = cmd_input;
      merged = false;
      timeout = timeout;
    })
    ssh_outcome host res

  unfoldable pub run_cmd : Str → Bool → ℕ → Exec W Str
  run_cmd cmd check timeout = do
    res ← run m (record { line = cmd; input = none; merged = false; timeout = timeout })
    cmd_outcome check res
