-- ===== src/PowerManagement/Laws.antt =====
-- Which machines openqa-powermanagement.py powers on and off.
use os_autoinst_scripts.Prelude.{
  ◌≡◌, refl, Bool, true, false, ◌&&◌, ◌||◌, not, Option, none, some, List, [], ◌∷◌, ◌++◌, map,
  arith, if◌then◌else◌, filter, any, All, All-append, any-append, Bool-cases, inl, inr,
}
use os_autoinst_scripts.Py.Str.{Str, codes, eqb, eqb_iff, eqb_refl}
use os_autoinst_scripts.Py.Text.{in_lines}
use os_autoinst_scripts.PowerManagement.{
  Action, Worker, power_on, power_off, sorted_set, machines_of, can_run, wanted_hosts, command_for,
  action_if, power_on_actions, power_off_actions, plan, run_all, manage_power, Machines,
}
use os_autoinst_scripts.PowerManagement.Counts.{
  in_lines-sorted_set, has, idle, dead, running, broken, in_lines-idle, in_lines-offline,
  in_lines-broken,
}

-- A worker of the machine can run one of the classes.
abbrev pub can_serve : Str → List Str → List Worker → Bool
can_serve m classes workers =
    any (λ (w : Worker). eqb m w.host && any (can_run w.worker_class) classes) workers

in_lines-append :
    (m : Str) (xs ys : List Str) → in_lines m (xs ++ ys) ≡ (in_lines m xs || in_lines m ys)
unfolding in_lines
in_lines-append m xs ys = any-append (eqb m) xs ys

-- The host stands in the list as often as the worker can run a class.
repeated_host :
    (m host : Str) (p : Str → Bool) (classes : List Str)
    → in_lines m (map (λ c. host) (filter p classes)) ≡ (eqb m host && any p classes)
unfolding in_lines
repeated_host m host p [] = ground arith
repeated_host m host p (c ∷ classes) = ground (arith, repeated_host m host p classes)

in_lines-wanted_hosts :
    (m : Str) (classes offline : List Str) (workers : List Worker)
    → in_lines m (wanted_hosts classes offline workers)
      ≡ (in_lines m offline && can_serve m classes workers)
unfolding wanted_hosts
in_lines-wanted_hosts m classes offline [] = ground arith
in_lines-wanted_hosts m classes offline (w ∷ workers) = ground (
  arith,
  in_lines-append m
      (if in_lines w.host offline
        then map (λ c. w.host) (filter (can_run w.worker_class) classes)
        else [])
      (wanted_hosts classes offline workers),
  repeated_host m w.host (can_run w.worker_class) classes,
  in_lines-wanted_hosts m classes offline workers,
  eqb_iff m w.host,
)

-- What must hold for a command to be run.
module _ (dry_run : Bool) (config : Str → Option Str) (classes : List Str)
    (workers : List Worker) where
  abbrev pub Allowed : Action → Type 0
  Allowed (power_on m command) =
      (dry_run ≡ false)
      × (command_for config m (codes "_POWER_ON") ≡ some command)
      × (has m dead workers ≡ true)
      × (has m running workers ≡ false)
      × (has m idle workers ≡ false)
      × (has m broken workers ≡ false)
      × (can_serve m (sorted_set classes) workers ≡ true)
  Allowed (power_off m command) =
      (dry_run ≡ false)
      × (command_for config m (codes "_POWER_OFF") ≡ some command)
      × (((has m idle workers && not (has m running workers)) || has m broken workers) ≡ true)

  abbrev machines : Machines
  machines = machines_of workers

  abbrev wanted : List Str
  wanted = wanted_hosts (sorted_set classes) machines.offline workers

  -- A machine that can serve a scheduled job and is not broken.
  on-Allowed :
      (m : Str)
      → in_lines m (sorted_set wanted) ≡ true
      → in_lines m machines.broken ≡ false
      → All Allowed (action_if (power_on m) dry_run (command_for config m (codes "_POWER_ON")))
  on-Allowed m h k = go dry_run (command_for config m (codes "_POWER_ON")) refl refl
    where
      go :
          (dry : Bool) (o : Option Str)
          → dry_run ≡ dry
          → command_for config m (codes "_POWER_ON") ≡ o
          → All Allowed (action_if (power_on m) dry o)
      go true o d e = tt
      go false none d e = tt
      go false (some command) d e =
          let listed = in_lines-sorted_set m wanted in
          let served = in_lines-wanted_hosts m (sorted_set classes) machines.offline workers in
          let off = in_lines-offline m workers in
          let no_broken = in_lines-broken m workers in
          (
            (
              d,
              e,
              ground (arith, h, listed, served, off),
              ground (arith, h, listed, served, off),
              ground (arith, h, listed, served, off),
              ground (arith, k, no_broken),
              ground (arith, h, listed, served),
            ),
            tt,
          )

  unless :
      (b : Bool) (actions : List Action)
      → (b ≡ false → All Allowed actions)
      → All Allowed (if b then [] else actions)
  unless true actions h = tt
  unless false actions h = h refl

  power_on_actions-Allowed :
      (ms : List Str)
      → ((m : Str) → in_lines m ms ≡ true → in_lines m (sorted_set wanted) ≡ true)
      → All Allowed (power_on_actions dry_run config machines.broken ms)
  unfolding power_on_actions in_lines
  power_on_actions-Allowed [] h = tt
  power_on_actions-Allowed (m ∷ ms) h =
      All-append Allowed
        (if in_lines m machines.broken
          then []
          else action_if (power_on m) dry_run (command_for config m (codes "_POWER_ON")))
        (power_on_actions dry_run config machines.broken ms)
        (unless (in_lines m machines.broken)
          (action_if (power_on m) dry_run (command_for config m (codes "_POWER_ON")))
          (on-Allowed m (h m (ground (arith, eqb_refl m)))))
        (power_on_actions-Allowed ms (λ k e. h k (ground (arith, e))))

  -- A machine that is idle or broken.
  off-Allowed :
      (m : Str)
      → in_lines m (machines.idle ++ machines.broken) ≡ true
      → All Allowed (action_if (power_off m) dry_run (command_for config m (codes "_POWER_OFF")))
  off-Allowed m h = go dry_run (command_for config m (codes "_POWER_OFF")) refl refl
    where
      go :
          (dry : Bool) (o : Option Str)
          → dry_run ≡ dry
          → command_for config m (codes "_POWER_OFF") ≡ o
          → All Allowed (action_if (power_off m) dry o)
      go true o d e = tt
      go false none d e = tt
      go false (some command) d e = (
        (
          d,
          e,
          ground (
            arith,
            h,
            in_lines-append m machines.idle machines.broken,
            in_lines-idle m workers,
            in_lines-broken m workers,
          ),
        ),
        tt,
      )

  power_off_actions-Allowed :
      (ms : List Str)
      → ((m : Str) → in_lines m ms ≡ true → in_lines m (machines.idle ++ machines.broken) ≡ true)
      → All Allowed (power_off_actions dry_run config ms)
  unfolding power_off_actions in_lines
  power_off_actions-Allowed [] h = tt
  power_off_actions-Allowed (m ∷ ms) h =
      All-append Allowed
        (action_if (power_off m) dry_run (command_for config m (codes "_POWER_OFF")))
        (power_off_actions dry_run config ms) (off-Allowed m (h m (ground (arith, eqb_refl m))))
        (power_off_actions-Allowed ms (λ k e. h k (ground (arith, e))))

  run_all-Allowed :
      (succeeds : Action → Bool) (actions : List Action)
      → All Allowed actions
      → All Allowed (run_all succeeds actions).0
  unfolding run_all
  run_all-Allowed succeeds [] h = tt
  run_all-Allowed succeeds (a ∷ actions) h = elim (Bool-cases (succeeds a)) [
    | inl e ↦ rw e (h.0, run_all-Allowed succeeds actions h.1)
    | inr e ↦ rw e (h.0, tt)
  ]

  -- Every command that is run is the configured one for its machine, and none is with --dry-run. A
  -- machine is powered on only if it has a dead worker, no running, idle or broken one, and a worker
  -- that can run a class of a scheduled job. It is powered off only if it has an idle worker and no
  -- running one, or if it has a broken worker.
  pub manage_power-Allowed :
      (succeeds : Action → Bool)
      → All Allowed (manage_power succeeds dry_run config classes workers).0
  unfolding manage_power plan
  manage_power-Allowed succeeds = run_all-Allowed succeeds (plan dry_run config classes workers) (
      All-append Allowed (power_on_actions dry_run config machines.broken (sorted_set wanted))
        (power_off_actions dry_run config (machines.idle ++ machines.broken))
        (power_on_actions-Allowed (sorted_set wanted) (λ m h. h))
        (power_off_actions-Allowed (machines.idle ++ machines.broken) (λ m h. h)))
