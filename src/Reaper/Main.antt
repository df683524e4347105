-- ===== src/Reaper/Main.antt =====
-- `reap_all_hosts`, `load_env_file`, `parse_hmc_lpars`, `file_lock` and `reap` of
-- s390x-qemu-zombie-reaper.py. Typer, which parses the command line, is not modelled: `reap` takes
-- the options as a record.
pub mod Settings
pub mod Laws
use os_autoinst_scripts.Prelude.{
  ℕ, Bool, true, false, Option, none, some, List, [], ◌∷◌, leb, if◌then◌else◌, map,
}
use os_autoinst_scripts.Py.Str.{Str, codes}
use os_autoinst_scripts.Py.Dict.{Dict}
use os_autoinst_scripts.Reaper.Machine.{Machine}
use os_autoinst_scripts.Reaper.Exec.{
  Exec, usage, Result, ok, err, pure, raise, attempt, resume, ◌>>=◌, ◌>>◌, flock, funlock,
}
use os_autoinst_scripts.Reaper.Config.{ReaperConfig, RebootMethod, hypervisors, default_config}
use os_autoinst_scripts.Reaper.Check.{handle_host}
use Settings.{parse_hmc_lpars}

-- The options that `reap` reads. `lock_file` is the resolved path, `none` with `--no-lock`.
pub record Options : Type 0 where
  pub dry_run : Bool
  pub reboot_method : RebootMethod
  pub max_wait_minutes : ℕ
  pub stability_delay_minutes : ℕ
  pub cmd_timeout : ℕ
  pub hmc_fallback : Bool
  pub hmc_host : Option Str
  pub hmc_port : ℕ
  pub hmc_user : Option Str
  pub hmc_password : Option Str
  pub hmc_lpar : List Str
  pub hmc_verify_tls : Bool
  pub hmc_ca_file : Option Str
  pub concurrency : ℕ
  pub lock_file : Option Str
  pub state_file : Option Str

unfoldable pub configure : Options → Dict Str → ReaperConfig
configure o lpars = record default_config {
  dry_run = o.dry_run;
  reboot_method = o.reboot_method;
  max_wait_minutes = o.max_wait_minutes;
  stability_delay_minutes = o.stability_delay_minutes;
  cmd_timeout = o.cmd_timeout;
  hmc_fallback = o.hmc_fallback;
  hmc_host = o.hmc_host;
  hmc_port = o.hmc_port;
  hmc_user = o.hmc_user;
  hmc_password = o.hmc_password;
  hmc_lpars = lpars;
  hmc_verify_tls = o.hmc_verify_tls;
  hmc_ca_file = o.hmc_ca_file;
  state_file = o.state_file;
}

abbrev pub host_names : List Str
host_names = map (λ h. h.0) hypervisors

module _ {W : Type 0} (m : Machine W) where
  -- the sequential loop: an exception of one host ends it
  unfoldable pub handle_in_turn : List Str → ReaperConfig → Exec W Unit
  handle_in_turn [] config = pure tt
  handle_in_turn (host ∷ hosts) config = handle_host m host config >> handle_in_turn hosts config

  -- The first exception in the order of completion is raised, after all tasks have ended.
  unfoldable pub first_error : Result (Unit {0}) → Result (Unit {0}) → Result (Unit {0})
  first_error (ok _) later = later
  first_error (err e) later = err e

  -- The thread pool. The tasks run whole, one after another, in the order of `schedule`.
  unfoldable pub handle_all : List Str → ReaperConfig → Exec W Unit
  unfolding first_error
  handle_all [] config = pure tt
  handle_all (host ∷ hosts) config = do
    r ← attempt (handle_host m host config)
    later ← attempt (handle_all hosts config)
    resume (first_error r later)

  unfoldable pub reap_all_hosts : List Str → ReaperConfig → ℕ → Exec W Unit
  unfolding handle_in_turn handle_all
  reap_all_hosts schedule config concurrency =
      if leb concurrency 1 then handle_in_turn host_names config else handle_all schedule config

  -- `with file_lock(path) as acquired: body`, with the release of the `finally`. Where the file cannot be
  -- opened, the body is not entered.
  unfoldable pub with_file_lock : Str → (Bool → Exec W Bool) → Exec W Bool
  with_file_lock path body = do
    acquired ← flock m path
    r ← attempt (body acquired)
    if acquired then funlock m path else pure tt
    resume r

  -- True if the hosts were checked, False if another instance holds the lock.
  unfoldable pub reap_locked : List Str → ReaperConfig → ℕ → Bool → Exec W Bool
  reap_locked schedule config concurrency acquired =
      if acquired then (reap_all_hosts schedule config concurrency >> pure true) else pure false

  unfoldable pub reap_with : List Str → ReaperConfig → ℕ → Option Str → Exec W Bool
  unfolding with_file_lock reap_locked
  reap_with schedule config concurrency none =
      reap_all_hosts schedule config concurrency >> pure true
  reap_with schedule config concurrency (some path) =
      with_file_lock path (reap_locked schedule config concurrency)

  unfoldable pub reap_parsed : List Str → Options → Option (Dict Str) → Exec W Bool
  unfolding configure reap_with
  reap_parsed schedule o none = raise (usage (codes "--hmc-lpar"))
  reap_parsed schedule o (some lpars) =
      reap_with schedule (configure o lpars) o.concurrency o.lock_file

  unfoldable pub reap : List Str → Options → Exec W Bool
  unfolding reap_parsed
  reap schedule o = reap_parsed schedule o (parse_hmc_lpars o.hmc_lpar)
