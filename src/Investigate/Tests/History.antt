-- ===== src/Investigate/Tests/History.antt =====
-- A run of openqa_llm_investigate/history.py on small inputs.
use Prim.Native.String.{String}
use os_autoinst_scripts.Prelude.{ℕ, length, ◌≤◌, ◌≡◌, true, false, none, some, List, [], ◌∷◌}
use os_autoinst_scripts.Py.Str.{codes}
use os_autoinst_scripts.Investigate.History.{Row, Server, history_max_fetches}
use os_autoinst_scripts.Investigate.History.Siblings.{Job, run_history}
use os_autoinst_scripts.Investigate.History.Reads.{Agrees, run_history-reads}
use os_autoinst_scripts.Investigate.Tests.{modules}

abbrev row : ℕ → String → String → Row
row n result bug = record {
  id = n;
  state = codes "done";
  result = codes result;
  build = none;
  failedmodules = codes "a" ∷ [];
  comment_data = some (record { bugs = codes bug ∷ []; label = none; reviewed = true });
  iscurrent = false;
}

abbrev rows : List Row
rows = row 9 "failed" "bsc#1" ∷ row 8 "failed" "bsc#2" ∷ row 7 "failed" "bsc#1" ∷ []

abbrev server : Server
server = record { details = λ id. some modules; rows = λ query. some rows; jobs = λ query. none }

abbrev group_job : Job
group_job = record { group_id = some 1; build = some (codes "42"); flavor = none; version = none }

run_history-reads_example :
    (ids : List ℕ) × (length ids ≤ history_max_fetches)
    × ((other : Server)
        → Agrees server ids other
        → run_history other 10 group_job ≡ run_history server 10 group_job)
run_history-reads_example = run_history-reads server 10 group_job
