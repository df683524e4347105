-- ===== src/Reaper/RebootState.antt =====
-- `read_reboot_state`, `record_reboot`, `boot_deadline` and `reboot_deadline`: the file that holds
-- the time of the last reboot of each host. The script's `_state_lock` keeps two threads of one
-- process apart; here a method runs alone.
pub mod Laws
use os_autoinst_scripts.Prelude.{
  ℕ, ◌+◌, ◌*◌, ◌++◌, Bool, true, false, Option, none, some, if◌then◌else◌,
}
use os_autoinst_scripts.Py.Str.{Str, codes}
use os_autoinst_scripts.Py.Json.{
  Value, flag, int, float, text, object, Fields, end, field?, put_field,
}
use os_autoinst_scripts.Reaper.Machine.{Machine, second}
use os_autoinst_scripts.Reaper.Exec.{Exec, pure, ◌>>=◌, ◌>>◌, time, load, write, replace}
use os_autoinst_scripts.Reaper.Config.{ReaperConfig}

-- `data if isinstance(data, dict) else {}`, and `{}` where nothing could be read
unfoldable pub as_state : Option Value → Fields
as_state none = end
as_state (some (object fs)) = fs
as_state (some _) = end

-- `isinstance(last_reboot, int | float)`: a Python `bool` is an `int`.
unfoldable pub as_number : Option Value → Option ℕ
as_number (some (int n)) = some (n * second)
as_number (some (float t)) = some t
as_number (some (flag true)) = some second
as_number (some (flag false)) = some 0
as_number _ = none

-- `config.state_file.with_name(config.state_file.name + ".tmp")`
unfoldable pub tmp_file : Str → Str
tmp_file path = path ++ codes ".tmp"

module _ {W : Type 0} (m : Machine W) where
  unfoldable pub read_from : Option Str → Exec W Fields
  read_from none = pure end
  read_from (some path) = do content ← load m path; pure (as_state content)

  unfoldable pub read_reboot_state : ReaperConfig → Exec W Fields
  unfolding read_from
  read_reboot_state config = read_from config.state_file

  -- `tmp_file.write_text(json.dumps(state)); tmp_file.replace(path)`, with the `OSError` caught
  unfoldable pub save_state : Str → Fields → Exec W Unit
  save_state path state = do
    written ← write m (tmp_file path) (object state)
    if written then replace m (tmp_file path) path >> pure tt else pure tt

  unfoldable pub record_in : Option Str → Str → Exec W Unit
  unfolding read_from save_state
  record_in none host = pure tt
  record_in (some path) host = do
    state ← read_from (some path)
    now ← time m
    save_state path (put_field host (float now) state)

  unfoldable pub record_reboot : Str → ReaperConfig → Exec W Unit
  unfolding record_in
  record_reboot host config = record_in config.state_file host

  unfoldable pub boot_deadline : ReaperConfig → Exec W ℕ
  boot_deadline config = do now ← time m; pure (now + config.boot_wait_minutes * 60 * second)

  -- `last_reboot if isinstance(last_reboot, int | float) else time.time()`
  unfoldable pub base_time : Option ℕ → Exec W ℕ
  base_time none = time m
  base_time (some t) = pure t

  unfoldable pub reboot_deadline : Str → ReaperConfig → Exec W ℕ
  unfolding read_reboot_state base_time
  reboot_deadline host config = do
    state ← read_reboot_state config
    base ← base_time (as_number (field? host state))
    pure (base + config.max_wait_minutes * 60 * second)
