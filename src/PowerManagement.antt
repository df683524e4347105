-- ===== src/PowerManagement.antt =====
-- openqa-powermanagement.py: which machines are powered on and off. The answers of openQA are given
-- decoded, and the configuration by what its section `power_management` answers. What is logged is
-- left out.
pub mod Counts
pub mod Laws
pub mod Tests
use os_autoinst_scripts.Prelude.{
  Bool, true, false, not, Option, none, some, List, [], ◌∷◌, ◌++◌, map, if◌then◌else◌, filter, all,
}
use os_autoinst_scripts.Py.Str.{Str, codes, eqb, split}
use os_autoinst_scripts.Py.Sort.{sort_by}
use os_autoinst_scripts.Py.Text.{in_lines, leb_text, unique}

-- What the script reads of a worker.
pub record Worker : Type 0 where
  pub host : Str
  pub status : Str
  pub worker_class : Str

-- A command that the script runs, with the machine that it is for.
pub data Action : Type 0 where
  power_on : Str → Str → Action
  power_off : Str → Str → Action

-- `sorted(set(xs))`
unfoldable pub sorted_set : List Str → List Str
unfolding sort_by leb_text unique
sorted_set xs = sort_by leb_text (unique xs)

unfoldable pub hosts_with : Str → List Worker → List Str
unfolding eqb
hosts_with status workers =
    map (λ (w : Worker). w.host) (filter (λ (w : Worker). eqb w.status status) workers)

-- `xs.remove(machine)`, where the machine is in the list
unfoldable pub remove_first : Str → List Str → List Str
unfolding eqb
remove_first machine [] = []
remove_first machine (x ∷ xs) =
    let rest = remove_first machine xs in if eqb x machine then xs else x ∷ rest

unfoldable pub remove_each : List Str → List Str → List Str
unfolding in_lines remove_first
remove_each [] xs = xs
remove_each (machine ∷ machines) xs =
    remove_each machines (if in_lines machine xs then remove_first machine xs else xs)

-- The lists of machines, as they are after the clean-up.
pub record Machines : Type 0 where
  pub idle : List Str
  pub offline : List Str
  pub broken : List Str
  pub busy : List Str

unfoldable pub machines_of : List Worker → Machines
unfolding sorted_set hosts_with remove_each
machines_of workers =
    let busy = sorted_set (hosts_with (codes "running") workers) in
    let idle = remove_each busy (sorted_set (hosts_with (codes "idle") workers)) in
    let offline = remove_each busy (sorted_set (hosts_with (codes "dead") workers)) in
    record {
      idle = idle;
      offline = remove_each idle offline;
      broken = sorted_set (hosts_with (codes "broken") workers);
      busy = busy;
    }

-- `set(classes.split(",")).issubset(worker_class.split(","))`
unfoldable pub can_run : Str → Str → Bool
unfolding in_lines split
can_run worker_class classes = all (λ c. in_lines c (split b',' worker_class)) (split b',' classes)

-- The host of an offline worker, for each of the classes of the scheduled jobs that it can run.
unfoldable pub wanted_hosts : List Str → List Str → List Worker → List Str
unfolding in_lines can_run
wanted_hosts classes offline [] = []
wanted_hosts classes offline (w ∷ workers) =
    (if in_lines w.host offline
      then map (λ c. w.host) (filter (can_run w.worker_class) classes)
      else [])
    ++ wanted_hosts classes offline workers

-- `config["power_management"].get(machine + suffix)`, if it is a text that is not empty
abbrev pub command_for : (Str → Option Str) → Str → Str → Option Str
command_for config machine suffix = elim (config (machine ++ suffix)) [
  | none ↦ none
  | some [] ↦ none
  | some (c ∷ s) ↦ some (c ∷ s)
]

abbrev pub action_if : (Str → Action) → Bool → Option Str → List Action
action_if action true command = []
action_if action false none = []
action_if action false (some command) = action command ∷ []

unfoldable pub power_on_actions : Bool → (Str → Option Str) → List Str → List Str → List Action
unfolding in_lines
power_on_actions dry_run config broken [] = []
power_on_actions dry_run config broken (machine ∷ machines) =
    (if in_lines machine broken
      then []
      else action_if (power_on machine) dry_run (command_for config machine (codes "_POWER_ON")))
    ++ power_on_actions dry_run config broken machines

unfoldable pub power_off_actions : Bool → (Str → Option Str) → List Str → List Action
power_off_actions dry_run config [] = []
power_off_actions dry_run config (machine ∷ machines) =
    action_if (power_off machine) dry_run (command_for config machine (codes "_POWER_OFF"))
    ++ power_off_actions dry_run config machines

-- All commands in order, from the classes of the scheduled jobs and the workers.
unfoldable pub plan : Bool → (Str → Option Str) → List Str → List Worker → List Action
unfolding machines_of sorted_set wanted_hosts power_on_actions power_off_actions
plan dry_run config jobs_worker_classes workers =
    let machines = machines_of workers in
    let wanted = wanted_hosts (sorted_set jobs_worker_classes) machines.offline workers in
    power_on_actions dry_run config machines.broken (sorted_set wanted)
    ++ power_off_actions dry_run config (machines.idle ++ machines.broken)

-- `subprocess.run(command, check=True)` raises if a command fails, which ends the script: the commands
-- that have been run, and whether all have succeeded.
unfoldable pub run_all : (Action → Bool) → List Action → List Action × Bool
run_all succeeds [] = ([], true)
run_all succeeds (a ∷ actions) =
    let (done, ok) = run_all succeeds actions in
    if succeeds a then (a ∷ done, ok) else (a ∷ [], false)

unfoldable pub manage_power :
    (Action → Bool) → Bool → (Str → Option Str) → List Str → List Worker → List Action × Bool
unfolding plan run_all
manage_power succeeds dry_run config jobs_worker_classes workers =
    run_all succeeds (plan dry_run config jobs_worker_classes workers)
