-- ===== src/Reaper/Main/Laws.antt =====
-- The lock of a run.
use os_autoinst_scripts.Prelude.{ℕ, ◌≡◌, Bool, true, false, Option, none, some, List, arith}
use os_autoinst_scripts.Py.Str.{Str}
use os_autoinst_scripts.Reaper.Machine.{Machine}
use os_autoinst_scripts.Reaper.Exec.{
  St, Result, ok, err, os_error, ◌>>=◌, pure, attempt, resume, flock, funlock,
}
use os_autoinst_scripts.Reaper.Config.{ReaperConfig}
use os_autoinst_scripts.Reaper.Main.{reap_all_hosts, with_file_lock, reap_locked, reap_with}

module _ {W : Type 0} (m : Machine W) (schedule : List Str) (config : ReaperConfig) (n : ℕ) where
  -- The state in which the attempt to lock leaves a run.
  abbrev pub after_lock : Str → St W → St W
  after_lock path s = (flock m path s).1

  -- The check of the hosts under the lock.
  abbrev pub checked : Str → St W → Result (Unit {0}) × St W
  checked path s = reap_all_hosts m schedule config n (after_lock path s)

  abbrev pub finished : Result (Unit {0}) → Result Bool
  finished (ok _) = ok true
  finished (err e) = err e

  -- How a run with a lock file ends, by what the attempt to lock gives.
  abbrev pub locked_run : Str → St W → Option Bool → Result Bool × St W
  locked_run path s none = (err os_error, after_lock path s)
  locked_run path s (some false) = (ok false, after_lock path s)
  locked_run path s (some true) =
      (finished (checked path s).0, (funlock m path (checked path s).1).1)

  -- A run with a lock file: if the directory cannot be made or the file not be opened, it raises an
  -- `OSError`, and if another instance holds the lock, it returns at once; no host is checked then.
  -- Otherwise the hosts are checked, the lock is released as the last thing, also behind an exception,
  -- and the run ends as the check did.
  pub reap_with_lock :
      (path : Str) (s : St W)
      → reap_with m schedule config n (some path) s ≡ locked_run path s (m.flock path s.world).0
  unfolding reap_with with_file_lock reap_locked ◌>>=◌ pure attempt resume flock funlock
  reap_with_lock path s = ground arith
