-- ===== src/PowerManagement/Tests.antt =====
-- Runs of openqa-powermanagement.py.
use os_autoinst_scripts.Prelude.{◌≡◌, refl, true, false, Option, some, List, [], ◌∷◌, ◌++◌, All}
use os_autoinst_scripts.Py.Str.{Str, codes}
use os_autoinst_scripts.PowerManagement.{Worker, manage_power, power_off, power_on}
use os_autoinst_scripts.PowerManagement.Laws.{Allowed, manage_power-Allowed}

abbrev worker : Str → Str → Worker
worker host status = record { host = host; status = status; worker_class = codes "qemu_x86_64,tap" }

abbrev workers : List Worker
workers =
    worker (codes "b") (codes "dead")
    ∷ worker (codes "a") (codes "idle")
    ∷ worker (codes "c") (codes "dead")
    ∷ worker (codes "c") (codes "running")
    ∷ worker (codes "d") (codes "dead")
    ∷ worker (codes "d") (codes "broken")
    ∷ worker (codes "d") (codes "running")
    ∷ []

abbrev config : Str → Option Str
config key = some (codes "ipmi " ++ key)

abbrev classes : List Str
classes = codes "tap" ∷ codes "qemu_x86_64,tap" ∷ codes "s390x" ∷ []

manage_power-Allowed_example :
    All
      (Allowed false config classes workers)
      (manage_power (λ a. true) false config classes workers).0
manage_power-Allowed_example = manage_power-Allowed false config classes workers (λ a. true)

-- A machine with a broken worker is powered off although another worker of it runs a job.
broken_test : manage_power (λ a. true) false config classes workers ≡ (
  power_on (codes "b") (codes "ipmi b_POWER_ON")
      ∷ power_off (codes "a") (codes "ipmi a_POWER_OFF")
      ∷ power_off (codes "d") (codes "ipmi d_POWER_OFF")
      ∷ [],
  true,
)
unfolding manage_power
broken_test = refl

dry_run_test : (manage_power (λ a. true) true config classes workers).0 ≡ []
unfolding manage_power
dry_run_test = refl

failing_test :
    manage_power (λ a. false) false config classes workers
    ≡ (power_on (codes "b") (codes "ipmi b_POWER_ON") ∷ [], false)
unfolding manage_power
failing_test = refl
