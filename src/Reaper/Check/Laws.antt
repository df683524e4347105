-- ===== src/Reaper/Check/Laws.antt =====
-- What `check_host` can return and raise.
use os_autoinst_scripts.Prelude.{
  ℕ, zero, suc, ◌*◌, leb, ◌≡◌, refl, Bool, true, false, Option, none, some, List, [], ◌∷◌,
  if◌then◌else◌,
}
use os_autoinst_scripts.Py.Str.{Str}
use os_autoinst_scripts.Reaper.Machine.{Machine, second}
use os_autoinst_scripts.Reaper.Exec.{
  Exec, St, Error, unreachable, hmc, os_error, key_error, usage, crash, out_of_fuel, Result, ok,
  err, ◌>>=◌, follow, pure, raise, attempt, sleep,
}
use os_autoinst_scripts.Reaper.Exec.Raises.{Fine, Raises, raises_rules, Raises-bind, Raises-if}
use os_autoinst_scripts.Reaper.Config.{ReaperConfig}
use os_autoinst_scripts.Reaper.Wait.{responds, wait_fuel, wait_loop, wait_until, wait_for_host}
use os_autoinst_scripts.Reaper.RebootState.{
  read_from, read_reboot_state, base_time, reboot_deadline,
}
use os_autoinst_scripts.Reaper.Check.Pids.{stuck, sorted_pids}
use os_autoinst_scripts.Reaper.Check.{
  Critical, zombies, libvirt_unhealthy, host_unreachable, find_unhealthy, report_zombies, judge,
  verify, get_zombie_candidates, check_libvirt_health, find_critical, second_try, when_unreachable,
  first_try, check_host,
}

-- A message that `find_critical` gives: one of its two kinds, about the host that was checked.
abbrev pub Found : Str → Result (Option Critical) → Type 0
Found host (ok none) = Unit
Found host (ok (some (zombies h pids))) = h ≡ host
Found host (ok (some (libvirt_unhealthy h))) = h ≡ host
Found host (ok (some (host_unreachable h))) = ⊥
Found host (err e) = Unit

-- The rest of a method decides what it returns; an exception is always allowed.
follow-Found :
    {W A : Type 0} (host : Str) (r : Result A) (f : A → Exec W (Option Critical)) (s : St W)
    → ((a : A) (s : St W) → Found host (f a s).0)
    → Found host (follow r f s).0
follow-Found host (ok a) f s h = h a s
follow-Found host (err e) f s h = tt

module _ {W : Type 0} (m : Machine W) (host : Str) (config : ReaperConfig) where
  find_unhealthy-Found : (s : St W) → Found host (find_unhealthy m host config s).0
  unfolding find_unhealthy ◌>>=◌ pure
  find_unhealthy-Found s =
      follow-Found host (check_libvirt_health m host config s).0 _ _ λ healthy s. answer healthy s
    where
      answer :
          (healthy : Bool) (s : St W)
          → Found host ((if healthy then pure none else pure (some (libvirt_unhealthy host))) s).0
      answer true s = tt
      answer false s = refl

  judge-Found : (lines : List Str) (s : St W) → Found host (judge m host config lines s).0
  unfolding judge
  judge-Found [] s = find_unhealthy-Found s
  judge-Found (l ∷ ls) s = reported (sorted_pids (l ∷ ls)) s
    where
      reported : (pids : Option (List Str)) (s : St W) → Found host (report_zombies m host pids s).0
      reported none s = unfold report_zombies raise in tt
      reported (some pids) s = unfold report_zombies pure in refl

  verify-Found : (lines : List Str) (s : St W) → Found host (verify m host config lines s).0
  unfolding verify ◌>>=◌
  verify-Found [] s = find_unhealthy-Found s
  verify-Found (l ∷ ls) s = follow-Found host (sleep m (10 * second) s).0 _ _ λ _ s.
      follow-Found host (get_zombie_candidates m host config s).0 _ _
        λ verified s. judge-Found (stuck (l ∷ ls) verified) s

  find_critical-Found : (s : St W) → Found host (find_critical m host config s).0
  unfolding find_critical ◌>>=◌
  find_critical-Found s =
      follow-Found host (get_zombie_candidates m host config s).0 _ _
        λ initial s. verify-Found initial s

-- Any exception but a `HostUnreachableError`.
abbrev Allowed : Error → Type 0
Allowed (unreachable h) = ⊥
Allowed _ = Unit

-- The outcome of `check_host`: a host is down exactly if the message says that it is unreachable,
-- any other message is one of `find_critical`, and no `HostUnreachableError` gets out.
abbrev pub Checked : Str → Result (Option Critical × Bool) → Type 0
Checked host (ok (none, true)) = ⊥
Checked host (ok (some (zombies h pids), true)) = ⊥
Checked host (ok (some (libvirt_unhealthy h), true)) = ⊥
Checked host (ok (some (host_unreachable h), true)) = h ≡ host
Checked host (ok (found, false)) = Found host (ok found)
Checked host (err (unreachable h)) = ⊥
Checked host (err _) = Unit

follow-Checked :
    {W A : Type 0} (host : Str) (r : Result A) (f : A → Exec W (Option Critical × Bool)) (s : St W)
    → Fine Allowed r
    → ((a : A) (s : St W) → Checked host (f a s).0)
    → Checked host (follow r f s).0
follow-Checked host (ok a) f s e h = h a s
follow-Checked host (err (unreachable h')) f s e h = absurd e
follow-Checked host (err (hmc x)) f s e h = tt
follow-Checked host (err os_error) f s e h = tt
follow-Checked host (err (key_error k)) f s e h = tt
follow-Checked host (err (usage x)) f s e h = tt
follow-Checked host (err crash) f s e h = tt
follow-Checked host (err out_of_fuel) f s e h = tt

second_try-Checked :
    {W : Type 0} (m : Machine W) (host : Str) (r : Result (Option Critical)) (s : St W)
    → Found host r
    → Checked host (second_try m host r s).0
unfolding second_try pure raise
second_try-Checked m host (ok found) s h = h
second_try-Checked m host (err (unreachable h')) s h = refl
second_try-Checked m host (err (hmc x)) s h = tt
second_try-Checked m host (err os_error) s h = tt
second_try-Checked m host (err (key_error k)) s h = tt
second_try-Checked m host (err (usage x)) s h = tt
second_try-Checked m host (err crash) s h = tt
second_try-Checked m host (err out_of_fuel) s h = tt

module _ {W : Type 0} (m : Machine W) (host : Str) (config : ReaperConfig) where
  wait_loop-Allowed : (fuel deadline : ℕ) → Raises Allowed (wait_loop m fuel host config deadline)
  unfolding wait_loop
  wait_loop-Allowed zero deadline = search raises_rules
  wait_loop-Allowed (suc fuel) deadline = Raises-bind _ _ (search raises_rules) λ res.
      Raises-if (responds res) (pure true) _ (search raises_rules) (
        Raises-bind _ _ (search raises_rules) λ now.
          Raises-if (leb deadline now) (pure false) _ (search raises_rules)
            (Raises-bind _ _ (search raises_rules) λ _. wait_loop-Allowed fuel deadline))

  wait_for_host-Allowed :
      (deadline : ℕ) → Raises Allowed (wait_for_host m host config (some deadline))
  unfolding wait_for_host wait_until
  wait_for_host-Allowed deadline = record {
    at = λ s. (wait_loop-Allowed (wait_fuel m deadline s) deadline).at s;
  }

  read_from-Allowed : (path : Option Str) → Raises Allowed (read_from m path)
  unfolding read_from
  read_from-Allowed none = search raises_rules
  read_from-Allowed (some path) = search raises_rules

  base_time-Allowed : (t : Option ℕ) → Raises Allowed (base_time m t)
  unfolding base_time
  base_time-Allowed none = search raises_rules
  base_time-Allowed (some t) = search raises_rules

  reboot_deadline-Allowed : Raises Allowed (reboot_deadline m host config)
  unfolding reboot_deadline read_reboot_state
  reboot_deadline-Allowed = search (raises_rules, read_from-Allowed, base_time-Allowed)

  -- what follows the wait
  after_wait :
      (back : Bool) (s : St W)
      → Checked host
          ((if back
              then (attempt (find_critical m host config) >>= second_try m host)
              else pure (some (host_unreachable host), true))
            s).0
  unfolding ◌>>=◌ attempt pure
  after_wait true s = second_try-Checked m host _ _ (find_critical-Found m host config s)
  after_wait false s = refl

  when_unreachable-Checked : (s : St W) → Checked host (when_unreachable m host config s).0
  unfolding when_unreachable ◌>>=◌
  when_unreachable-Checked s =
      follow-Checked host (reboot_deadline m host config s).0 _ _ (reboot_deadline-Allowed.at s)
        λ deadline s.
          follow-Checked host (wait_for_host m host config (some deadline) s).0 _ _
            ((wait_for_host-Allowed deadline).at s) after_wait

  first_try-Checked :
      (r : Result (Option Critical)) (s : St W)
      → Found host r
      → Checked host (first_try m host config r s).0
  unfolding first_try pure raise
  first_try-Checked (ok found) s h = h
  first_try-Checked (err (unreachable h')) s h = when_unreachable-Checked s
  first_try-Checked (err (hmc x)) s h = tt
  first_try-Checked (err os_error) s h = tt
  first_try-Checked (err (key_error k)) s h = tt
  first_try-Checked (err (usage x)) s h = tt
  first_try-Checked (err crash) s h = tt
  first_try-Checked (err out_of_fuel) s h = tt

  -- Whatever the host does, `check_host` never raises a `HostUnreachableError`. It reports the host
  -- as down exactly with the message that it is unreachable, and every other message is about
  -- zombies or libvirt on this host.
  pub check_host-Checked : (s : St W) → Checked host (check_host m host config s).0
  unfolding check_host ◌>>=◌ attempt
  check_host-Checked s = first_try-Checked _ _ (find_critical-Found m host config s)
