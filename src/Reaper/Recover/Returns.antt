-- ===== src/Reaper/Recover/Returns.antt =====
-- `hmc_force_reboot` of s390x-qemu-zombie-reaper.py, on answers of the HMC that can be read.
use os_autoinst_scripts.Prelude.{◌≡◌, refl, Bool, true, false, Option, some}
use os_autoinst_scripts.Py.Str.{Str}
use os_autoinst_scripts.Reaper.Machine.{Machine, HasClock, Request}
use os_autoinst_scripts.Reaper.Exec.{St, crash, hmc, key_error, os_error, Result, ok, err}
use os_autoinst_scripts.Reaper.Exec.Raises.{Fine}
use os_autoinst_scripts.Reaper.Config.{ReaperConfig}
use os_autoinst_scripts.Reaper.Recover.{hmc_outcome, force_via, force_with, hmc_force_reboot}
use os_autoinst_scripts.Reaper.Recover.Laws.{IsCrash, hmc_force_reboot-IsCrash}
use os_autoinst_scripts.Reaper.Hmc.Tidy.{
  Any, Post, Tidy, is_readable, Tidy-pure, Tidy-raise, Tidy-attempt, Tidy-if, Tidy-bind,
  Tidy-with_session, Tidy-reset,
}

module _ {W : Type 0} (m : Machine W)
    (readable : (q : Request) (w : W) → is_readable (m.urlopen q w).0 ≡ true) where
  Tidy-outcome : (r : Result (Unit {0})) → Post Any r → Tidy Any (hmc_outcome {W = W} r)
  unfolding hmc_outcome
  Tidy-outcome (ok a) h = Tidy-pure Any true tt
  Tidy-outcome (err os_error) h = Tidy-pure Any false tt
  Tidy-outcome (err (hmc f)) h = Tidy-pure Any false tt
  Tidy-outcome (err (key_error k)) h = Tidy-pure Any false tt
  Tidy-outcome (err e) h = Tidy-raise Any e h

  Tidy-force_with :
      (c : Option (Str × Str)) (h l : Option Str) (config : ReaperConfig)
      → Tidy Any (force_with m c h l config)
  unfolding force_with force_via
  Tidy-force_with (some c) (some h) (some l) config =
      Tidy-bind (Post Any) Any _ _
        (Tidy-attempt Any _ (
          Tidy-if Any _ _ _ (Tidy-with_session m readable _ _ (λ s. Tidy-reset m readable s _))
            (Tidy-raise Any _ tt)))
        Tidy-outcome
  Tidy-force_with _ _ _ config = Tidy-pure Any false tt

  -- With a clock that does not go back, `hmc_force_reboot` ends with True or False, whatever fails and
  -- whatever the settings are, if every answer of the HMC can be read: it is an error of HTTP or of the
  -- network, or its body is empty, a JSON object or null.
  pub hmc_force_reboot-returns :
      (clock : HasClock m) (host : Str) (config : ReaperConfig) (s : St W)
      → (b : Bool) × ((hmc_force_reboot m host config s).0 ≡ ok b)
  unfolding hmc_force_reboot
  hmc_force_reboot-returns clock host config s =
      go (hmc_force_reboot m host config s).0 (hmc_force_reboot-IsCrash m clock host config s)
        ((Tidy-force_with _ _ _ config).at s)
    where
      go : (r : Result Bool) → Fine IsCrash r → Post Any r → (b : Bool) × (r ≡ ok b)
      go (ok b) h k = (b, refl)
      go (err crash) h k = absurd k
      go (err e) h k = absurd h
