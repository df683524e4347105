-- ===== src/Reaper/Tests/Parts.antt =====
-- The theorems on the parts of the reaper, at concrete inputs.
use os_autoinst_scripts.Prelude.{
  ℕ, ◌≡◌, refl, true, false, none, some, List, [], ◌∷◌, arith, any, filter, option_map,
  if◌then◌else◌,
}
use os_autoinst_scripts.Py.Str.{Str, codes, eqb, splitlines, contains}
use os_autoinst_scripts.Py.Dict.{lookup, insert, or_else}
use os_autoinst_scripts.Py.Json.{null, int, text, object, Items, nil, cons, end, field, field?}
use os_autoinst_scripts.Reaper.Machine.{Machine, exited, timed_out}
use os_autoinst_scripts.Reaper.Exec.{St, job_timeout, pure, ◌>>=◌, time, run, sleep}
use os_autoinst_scripts.Reaper.Config.{default_config}
use os_autoinst_scripts.Reaper.Ssh.{run_cmd, cmd_outcome}
use os_autoinst_scripts.Reaper.Wait.{wait_for_host, responds}
use os_autoinst_scripts.Reaper.RebootState.{record_reboot, boot_deadline}
use os_autoinst_scripts.Reaper.Recover.{
  recovered, reboot_unless_down, trigger_actions, retrigger, recover_for_jobs, recover_host,
  issue_reboot,
}
use os_autoinst_scripts.Reaper.Recover.Restarts.{restarted, is_restart, trigger_actions-restarts}
use os_autoinst_scripts.Reaper.Hmc.{HmcSession, enter, with_session, poll_until}
use os_autoinst_scripts.Reaper.Hmc.Laws.{ends_well, poll_until-ends_well}
use os_autoinst_scripts.Reaper.Hmc.Session.{SessionEnds, with_session-ends}
use os_autoinst_scripts.Reaper.Workers.{jobs_in, member, get_from, workers_of}
use os_autoinst_scripts.Reaper.Workers.Laws.{IsDistinct, runs_on, jobs_in_lem}
use os_autoinst_scripts.Reaper.Main.Settings.{add_entry, parse_hmc_lpars, load_env_file}
use os_autoinst_scripts.Reaper.Main.Settings.Laws.{
  is_malformed, last_for, parse_hmc_lpars_lem, first_for, load_env_file_lem,
}
use os_autoinst_scripts.Reaper.Tests.Lab.{World, lab, worker_list, lab-HasClock}

abbrev healthy : Machine World
healthy = lab (exited 0 []) true null

abbrev begin : St World
begin = record { world = record { clock = 1000; files = [] }; trace = [] }

abbrev host : Str
host = codes "s390zl12"

trigger_actions-restarts_example :
    filter is_restart (trigger_actions healthy host (7 ∷ 9 ∷ []) default_config false begin).1.trace
    ≡ restarted healthy default_config refl (7 ∷ 9 ∷ []) []
unfolding reboot_unless_down issue_reboot record_reboot run_cmd cmd_outcome recovered
    recover_for_jobs recover_host boot_deadline wait_for_host responds trigger_actions retrigger run
    time sleep pure ◌>>=◌
trigger_actions-restarts_example =
    trigger_actions-restarts healthy default_config refl host (7 ∷ 9 ∷ []) false true begin refl
      refl

abbrev session : HmcSession
session = record {
  base_url = codes "https://hmc:6794/api";
  user = codes "u";
  password = codes "p";
  verify_tls = true;
  token = none;
}

-- An HMC that answers every request with a session and the status that is waited for.
abbrev hmc_up : Machine World
hmc_up = lab timed_out true (
    object (
      field (codes "api-session") (text (codes "t"))
        (field (codes "status") (text (codes "operating")) end)))

with_session-ends_example :
    SessionEnds hmc_up
      (λ s. pure tt)
      (enter hmc_up session begin)
      (with_session hmc_up session (λ s. pure tt) begin)
with_session-ends_example = with_session-ends hmc_up session (λ s. pure tt) begin

poll_until-ends_well_example :
    ends_well
      (codes "operating")
      (poll_until hmc_up session
        (codes "/lpar")
        (codes "operating")
        9000
        10
        (job_timeout [])
        begin).0
    ≡ true
poll_until-ends_well_example =
    poll_until-ends_well hmc_up session (codes "/lpar") (codes "operating") 9000 10 (job_timeout [])
      begin (lab-HasClock timed_out true _) (omega arith)

abbrev workers : Items
workers =
    cons
      (object (
        field (codes "jobid") (int 7) (
          field (codes "properties")
            (object (field (codes "WORKER_CLASS") (text (codes "s390-kvm,s390zl12")) end)) end)))
      nil

jobs_in_lem_example : IsDistinct (7 ∷ []) × ((n : ℕ) → member n (7 ∷ []) ≡ runs_on host n workers)
unfolding get_from workers_of jobs_in field? eqb contains
jobs_in_lem_example = jobs_in_lem host worker_list workers (7 ∷ []) refl refl

abbrev entries : List Str
entries = codes "a=1" ∷ codes " a = 2 " ∷ []

parse_hmc_lpars_lem_example :
    option_map (lookup (codes "a")) (parse_hmc_lpars entries)
    ≡ (if any is_malformed entries then none else some (last_for (codes "a") entries))
parse_hmc_lpars_lem_example = parse_hmc_lpars_lem (codes "a") entries

parse_hmc_lpars_test :
    option_map (lookup (codes "a")) (parse_hmc_lpars entries) ≡ some (some (codes "2"))
unfolding parse_hmc_lpars add_entry insert lookup eqb
parse_hmc_lpars_test = refl

load_env_file_lem_example :
    option_map
      (lookup (codes "A"))
      (load_env_file true (some (codes "export A='x'\nA=y\n")) ((codes "B", codes "z") ∷ []))
    ≡ some (
        or_else
          (lookup (codes "A") ((codes "B", codes "z") ∷ []))
          (first_for (codes "A") (splitlines (codes "export A='x'\nA=y\n"))))
load_env_file_lem_example =
    load_env_file_lem (codes "A") true (codes "export A='x'\nA=y\n") ((codes "B", codes "z") ∷ [])
