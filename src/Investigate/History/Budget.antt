-- ===== src/Investigate/History/Budget.antt =====
-- How many details of jobs `run_history` fetches.
use os_autoinst_scripts.Prelude.{
  ℕ, zero, suc, ◌-◌, ◌≤◌, Bool, true, false, Option, none, some, List, [], ◌∷◌, map, arith, length,
  length-take_le, take, filter, ltb,
}
use os_autoinst_scripts.Py.Str.{Str, codes}
use os_autoinst_scripts.Py.Text.{or_empty}
use os_autoinst_scripts.Py.Sort.{sort_by}
use os_autoinst_scripts.Investigate.History.{
  Server, Row, Sibling, Failed, history_max_fetches, to_fetch, failure_groups, Group, latest_of,
  has_modules, kinds, ranked,
}
use os_autoinst_scripts.Investigate.History.Runs.{
  runs_text, side, failed_part, neighbour_summary, as_failed, has_failed, done_rows, geb_id, leb_id,
  fetch_rows,
}
use os_autoinst_scripts.Investigate.History.Siblings.{
  Job, siblings_text, if_others, from_answer, in_group, sibling_summary, run_history,
}

length-to_fetch :
    (n : ℕ) (groups : List Group) → length (to_fetch n groups) ≤ history_max_fetches - n
unfolding to_fetch
length-to_fetch n groups =
    length-take_le (history_max_fetches - n)
      (map (λ g. (latest_of g).id) (filter has_modules groups))

failure_groups-budget :
    (server : Server) (n : ℕ) (jobs : List Failed) (with_test : Bool)
    → n ≤ history_max_fetches
    → (failure_groups server n jobs with_test).1 ≤ history_max_fetches
unfolding failure_groups
failure_groups-budget server n jobs with_test h =
    omega (arith, length-to_fetch n (ranked (kinds with_test [] jobs)))

failed_part-budget :
    (server : Server) (n : ℕ) (jobs : List Failed)
    → n ≤ history_max_fetches
    → (failed_part server n jobs).1 ≤ history_max_fetches
failed_part-budget server n [] h = h
failed_part-budget server n (j ∷ jobs) h = failure_groups-budget server n (j ∷ jobs) false h

side-budget :
    (server : Server) (n : ℕ) (label : Str) (runs : List Row)
    → n ≤ history_max_fetches
    → (side server n label runs).1 ≤ history_max_fetches
unfolding runs_text
side-budget server n label [] h = h
side-budget server n label (j ∷ runs) h =
    failed_part-budget server n (map as_failed (filter has_failed (take 5 (j ∷ runs)))) h

neighbour_summary-budget :
    (server : Server) (rows : List Row) (cur n : ℕ)
    → n ≤ history_max_fetches
    → (neighbour_summary server rows cur n).1 ≤ history_max_fetches
unfolding neighbour_summary
neighbour_summary-budget server rows cur n h =
    let done = done_rows cur [] rows in
    let prev = sort_by geb_id (filter (λ (j : Row). ltb j.id cur) done) in
    let nxt = sort_by leb_id (filter (λ (j : Row). ltb cur j.id) done) in
    side-budget server (side server n (codes "previous") prev).1 (codes "next") nxt
      (side-budget server n (codes "previous") prev h)

siblings_text-budget :
    (server : Server) (n gid : ℕ) (build : Str) (flavor : Option Str) (others : List Sibling)
    (failed : List Failed)
    → n ≤ history_max_fetches
    → (siblings_text server n gid build flavor others failed).1 ≤ history_max_fetches
unfolding siblings_text
siblings_text-budget server n gid build flavor others [] h = h
siblings_text-budget server n gid build flavor others (j ∷ failed) h =
    failure_groups-budget server n (j ∷ failed) true h

if_others-budget :
    (server : Server) (n gid : ℕ) (build : Str) (flavor : Option Str) (others : List Sibling)
    → n ≤ history_max_fetches
    → (if_others server n gid build flavor others).1 ≤ history_max_fetches
if_others-budget server n gid build flavor [] h = h
if_others-budget server n gid build flavor (j ∷ others) h =
    siblings_text-budget server n gid build flavor (j ∷ others) _ h

from_answer-budget :
    (server : Server) (n job_id gid : ℕ) (build : Str) (flavor : Option Str)
    (answer : Option (List Sibling))
    → n ≤ history_max_fetches
    → (from_answer server n job_id gid build flavor answer).1 ≤ history_max_fetches
from_answer-budget server n job_id gid build flavor none h = h
from_answer-budget server n job_id gid build flavor (some jobs) h =
    if_others-budget server n gid build flavor _ h

in_group-budget :
    (server : Server) (n job_id : ℕ) (job : Job) (gid : Option ℕ) (build : Str)
    → n ≤ history_max_fetches
    → (in_group server n job_id job gid build).1 ≤ history_max_fetches
in_group-budget server n job_id job none build h = h
in_group-budget server n job_id job (some zero) build h = h
in_group-budget server n job_id job (some (suc g)) [] h = h
in_group-budget server n job_id job (some (suc g)) (c ∷ build) h =
    from_answer-budget server n job_id (suc g) (c ∷ build) job.flavor _ h

-- The three parts of the history together count at most eight fetches.
pub count-budget :
    (server : Server) (job_id : ℕ) (job : Job)
    → (run_history server job_id job).1 ≤ history_max_fetches
unfolding run_history sibling_summary
count-budget server job_id job =
    let rows = fetch_rows server job_id true in
    let before = neighbour_summary-budget server rows job_id 0 (omega arith) in
    in_group-budget server _ job_id job job.group_id (or_empty job.build) before
