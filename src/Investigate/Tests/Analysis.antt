-- ===== src/Investigate/Tests/Analysis.antt =====
-- Runs of openqa_llm_investigate/analysis.py.
use os_autoinst_scripts.Prelude.{◌≡◌, refl, true, false, Option, none, some, List, [], ◌∷◌, map}
use os_autoinst_scripts.Py.Str.{Str, codes, eqb, join}
use os_autoinst_scripts.Py.Dict.{Dict}
use os_autoinst_scripts.Investigate.Step.{Step}
use os_autoinst_scripts.Investigate.Failures.Modules.{Module}
use os_autoinst_scripts.Investigate.Http.{Client}
use os_autoinst_scripts.Investigate.Http.Extends.{Extends}
use os_autoinst_scripts.Investigate.Http.Refines.{Request, job_files, job_files-refines, served}
use os_autoinst_scripts.Investigate.Tests.{step}
use os_autoinst_scripts.Investigate.Analysis.Cached.{analyze_job-Extends}
use os_autoinst_scripts.Investigate.Analysis.Cluster.{steps_until_commands}
use os_autoinst_scripts.Investigate.Analysis.Context.{marker_step}
use os_autoinst_scripts.Investigate.Analysis.Marker.{Marked, marker_step-Marked}
use os_autoinst_scripts.Investigate.Analysis.Outcome.{Expected, analyze_job-Expected}
use os_autoinst_scripts.Investigate.Analysis.Report.{OpenQa}
use os_autoinst_scripts.Investigate.Analysis.{analyze_job, failed, no_modules, text}

abbrev shown : List Step
shown =
    step 1 "ok" "start" "x"
    ∷ step 2 "fail" "screen" ""
    ∷ step 3 "fail" "screen" ""
    ∷ step 4 "fail" "wait_serial" "error"
    ∷ []

abbrev failing : Step
failing = step 4 "fail" "wait_serial" "error"

marker_step-Marked_example : Marked shown failing (marker_step shown failing)
marker_step-Marked_example = marker_step-Marked shown failing refl

marker_test : marker_step shown failing ≡ some (step 2 "fail" "screen" "")
unfolding marker_step eqb
marker_test = refl

until_test :
    steps_until_commands
      (step 1 "ok" "a" "# Command: ls"
        ∷ step 2 "ok" "b" ""
        ∷ step 3 "ok" "c" "# Command: id"
        ∷ step 4 "ok" "d" ""
        ∷ [])
      2
    ≡ step 1 "ok" "a" "# Command: ls" ∷ step 2 "ok" "b" "" ∷ step 3 "ok" "c" "# Command: id" ∷ []
unfolding steps_until_commands
until_test = refl

abbrev client : Client
client = record {
  get = λ path. none;
  stream = λ path. some (codes "line 1\n# ls /x\nno such file\n" ∷ []);
  decode = λ bytes. bytes;
}

abbrev requests : List Request
requests = (codes "1", codes "a") ∷ (codes "1", codes "b") ∷ (codes "1", codes "a") ∷ []

job_files-refines_example : (job_files client 100 requests []).0 ≡ map (served client 100) requests
job_files-refines_example = job_files-refines client 100 requests

abbrev boot : Module
boot = record {
  place = 1;
  name = some (codes "boot");
  category = some (codes "core");
  result = some (codes "failed");
  details =
      some
        (step 1 "ok" "start" "" ∷ step 2 "fail" "died" "# Test died: command 'ls /x' failed" ∷ []);
}

abbrev first_module : Module
first_module = record {
  place = 0;
  name = some (codes "prepare");
  category = none;
  result = some (codes "ok");
  details = none;
}

abbrev openqa : Option (List Module) → OpenQa
openqa modules = record {
  client = client;
  server = record { details = λ id. modules; rows = λ path. none; jobs = λ path. none };
  api_job = λ id. none;
  loads = λ s. none;
}

abbrev job : OpenQa
job = openqa (some (first_module ∷ boot ∷ []))

abbrev cache : Dict Str
cache = (codes "/tests/7/file/serial0.txt", codes "booted") ∷ []

analyze_job-Extends_example : Extends cache (analyze_job job 7 5 false none cache).1
analyze_job-Extends_example = analyze_job-Extends job 7 5 false none cache

analyze_job-Expected_example :
    Expected job 7 5 false none cache
      (job.server.details 7)
      (analyze_job job 7 5 false none cache).0
analyze_job-Expected_example = analyze_job-Expected job 7 5 false none cache

unreachable_test :
    (analyze_job (openqa none) 7 5 true none []).0
    ≡ failed (codes "OpenQA Failed/Softfailed Job Analysis:\n\n")
unfolding analyze_job
unreachable_test = refl

passed_test :
    (analyze_job (openqa (some (first_module ∷ []))) 7 5 false none []).0
    ≡ no_modules (
        codes
          "OpenQA Failed Job Analysis:\n\nModules: 0 failed / 0 softfailed / 0 skipped\n\nNo failed modules found in this test job.\n")
unfolding analyze_job
passed_test = refl

abbrev report : List Str
report =
    codes "OpenQA Failed Job Analysis:"
    ∷ []
    ∷ codes "Modules: 1 failed / 0 softfailed / 0 skipped"
    ∷ []
    ∷ codes "Found 1 failed module(s)"
    ∷ []
    ∷ codes "================================================================================"
    ∷ codes "Failed Module: core/boot"
    ∷ codes "================================================================================"
    ∷ []
    ∷ codes "Previous modules: prepare (ok)"
    ∷ []
    ∷ codes "The module has been failed by: \"ls /x\" command."
    ∷ []
    ∷ codes "Step context (last 20 command/needle/record_info steps)"
    ∷ codes "  #1  start"
    ∷ codes "  >>> The next step is the one that failed the test <<<"
    ∷ codes "  #2 [FAIL]  died  # Test died: command 'ls /x' failed"
    ∷ codes "    no such file"
    ∷ []
    ∷ codes "--- autoinst-log.txt (step context) ---"
    ∷ codes "# ls /x"
    ∷ codes "--- End of Log Section ---"
    ∷ []
    ∷ []
    ∷ []

report_test : (analyze_job job 7 5 false none []).0 ≡ text (join (10 ∷ []) report)
unfolding analyze_job join
report_test = refl
