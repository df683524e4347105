-- ===== src/Reaper/RebootState/Laws.antt =====
-- What the state file holds after a reboot was recorded.
use os_autoinst_scripts.Prelude.{
  ℕ, ◌+◌, ◌*◌, ◌≡◌, refl, ◌≢◌, ap, Bool, true, ◌&&◌, Option, none, some, arith, length,
  length-append, if◌then◌else◌,
}
use os_autoinst_scripts.Py.Str.{Str, codes, eqb, eqb_refl}
use os_autoinst_scripts.Py.Json.{Value, float, object, Fields, field?, put_field, field?-put_field}
use os_autoinst_scripts.Reaper.Machine.{Machine, HasFiles, second}
use os_autoinst_scripts.Reaper.Exec.{St, ok, ◌>>=◌, pure, time, load, write, replace}
use os_autoinst_scripts.Reaper.Config.{ReaperConfig}
use os_autoinst_scripts.Reaper.RebootState.{
  as_state, as_number, tmp_file, read_from, read_reboot_state, record_in, record_reboot,
  reboot_deadline,
}

tmp_file-ne : (path : Str) → tmp_file path ≢ path
unfolding tmp_file
tmp_file-ne path e = absurd (omega (arith, ap length e, length-append path (codes ".tmp")))

module _ {W : Type 0} (m : Machine W) (path : Str) where
  -- What `read_reboot_state` returns in a world.
  abbrev pub state_in : W → Fields
  state_in w = as_state (m.load path w)

  -- The new text of the file, and the worlds in which it is written and moved.
  abbrev updated : Str → St W → Value
  updated host s = object (put_field host (float (m.now s.world)) (state_in s.world))

  abbrev written : Str → St W → Bool × W
  written host s = m.write (tmp_file path) (updated host s) (m.tick s.world)

  abbrev moved : Str → St W → Bool × W
  moved host s = m.replace (tmp_file path) path (written host s).1

  -- Did the file system take the new state?
  abbrev pub saved : Str → St W → Bool
  saved host s = (written host s).0 && (moved host s).0

  module _ (files : HasFiles m) where
    state-record_in :
        (host : Str) (s : St W)
        → state_in (record_in m (some path) host s).1.world ≡ (
            if saved host s
            then put_field host (float (m.now s.world)) (state_in s.world)
            else state_in s.world)
    unfolding record_in as_state ◌>>=◌ load time write replace pure
    state-record_in host s = ground (
      arith,
      files.load-write (tmp_file path) (updated host s) (m.tick s.world),
      files.load-write_ne (tmp_file path) path (updated host s) (m.tick s.world) (tmp_file-ne path),
      files.load-replace (tmp_file path) path (written host s).1,
      files.load-replace_failed (tmp_file path) path path (written host s).1,
      files.load-tick path s.world,
    )

    module _ (config : ReaperConfig) (named : config.state_file ≡ some path) where
      -- With a state file, and files that hold what was written and moved, the state of every host
      -- is after `record_reboot` what it was, but that of the rebooted one is the time of the call if
      -- both file operations succeed; if one fails nothing has changed.
      pub field?-record_reboot :
          (host other : Str) (s : St W)
          → field? other (state_in (record_reboot m host config s).1.world) ≡ (
              if saved host s && eqb host other
              then some (float (m.now s.world))
              else field? other (state_in s.world))
      unfolding record_reboot
      field?-record_reboot host other s =
          rw (named, record_reboot)
            (ground (
              arith,
              state-record_in host s,
              field?-put_field host other (float (m.now s.world)) (state_in s.world),
            ))

      read_reboot_state-some : read_reboot_state m config ≡ read_from m (some path)
      unfolding read_reboot_state
      read_reboot_state-some = ap (read_from m) named

      reboot_deadline-number :
          (host : Str) (t : ℕ) (s : St W)
          → as_number (field? host (state_in s.world)) ≡ some t
          → (reboot_deadline m host config s).0 ≡ ok (t + config.max_wait_minutes * 60 * second)
      unfolding reboot_deadline
      reboot_deadline-number host t s e =
          rw (read_reboot_state-some, reboot_deadline) (unfold ◌>>=◌ load pure in ground (arith, e))

      -- With a state file, and files that hold what was written and moved: if the reboot of a host
      -- could be recorded, its deadline is from then on `max_wait_minutes` after the time of the
      -- record.
      pub reboot_deadline-record_reboot :
          (host : Str) (s : St W)
          → saved host s ≡ true
          → (reboot_deadline m host config (record_reboot m host config s).1).0
            ≡ ok (m.now s.world + config.max_wait_minutes * 60 * second)
      unfolding as_number
      reboot_deadline-record_reboot host s done =
          reboot_deadline-number host (m.now s.world) _
            (rw (field?-record_reboot host host s, done, eqb_refl host))

-- A failure to save the state is not raised.
pub record_reboot-ok :
    {W : Type 0} (m : Machine W) (host : Str) (config : ReaperConfig) (s : St W)
    → (record_reboot m host config s).0 ≡ ok tt
unfolding record_reboot
record_reboot-ok m host config s = go config.state_file
  where
    go : (path : Option Str) → (record_in m path host s).0 ≡ ok tt
    go none = unfold record_in pure in refl
    go (some path) = unfold record_in ◌>>=◌ pure load time write replace in ground arith
