-- ===== src/Investigate/Analysis.antt =====
-- The failure analysis of a job: openqa_llm_investigate/analysis.py. `details` of the server are the
-- modules of `details_ajax`, and a job is given by the number that its paths show in decimal.
pub mod Section
pub mod Title
pub mod Bodies
pub mod Cluster
pub mod Context
pub mod Marker
pub mod Failing
pub mod Report
pub mod Outcome
pub mod Cached
use os_autoinst_scripts.Prelude.{
  ℕ, Bool, true, false, Option, none, some, List, [], ◌∷◌, ◌++◌, map, ltb, if◌then◌else◌, length,
  take, drop,
}
use os_autoinst_scripts.Prelude.Maybe.{◌>>=◌}
use os_autoinst_scripts.Py.Str.{Str, codes, join}
use os_autoinst_scripts.Py.Num.{decimal}
use os_autoinst_scripts.Py.Dict.{Dict, lookup, or_else}
use os_autoinst_scripts.Investigate.Text.Redact.{redact}
use os_autoinst_scripts.Investigate.Http.{job_file, job_file_max_bytes}
use os_autoinst_scripts.Investigate.History.Header.{
  ApiJob, has_fields, job_header, no_job, or_default, settings_job,
}
use os_autoinst_scripts.Investigate.History.Siblings.{run_history}
use os_autoinst_scripts.Investigate.Failures.Modules.{
  Module, extract_failed_modules, module_key, sorted_in_place,
}
use os_autoinst_scripts.Investigate.Logs.Job.{job_level_failure}
use os_autoinst_scripts.Investigate.Analysis.Bodies.{Job}
use os_autoinst_scripts.Investigate.Analysis.Report.{OpenQa, Preamble, module_report, preamble}

-- How `_analyze` ends, with the lines put out so far: it returns, raises an `AnalyzerError` or a
-- `NoFailedModulesError`, or lets out the `ValueError` of `condense_log`.
pub data Ending : Type 0 where
  returned : List Str → Ending
  analyzer_error : List Str → Ending
  no_failed_modules : List Str → Ending
  value_error : Ending

-- `fetch_job`
unfoldable pub fetch_job : OpenQa → ℕ → ApiJob
fetch_job oqa job_id = elim (oqa.api_job job_id) [ none ↦ no_job | some job ↦ job ]

-- `api_job or fetch_job(oqa, job_id)`
abbrev pub or_fetched : OpenQa → ℕ → Option ApiJob → ApiJob
or_fetched oqa job_id none = fetch_job oqa job_id
or_fetched oqa job_id (some job) = if has_fields job then job else fetch_job oqa job_id

abbrev pub title : Bool → Str
title true = codes "OpenQA Failed/Softfailed Job Analysis:"
title false = codes "OpenQA Failed Job Analysis:"

abbrev pub no_modules_message : Bool → Str
no_modules_message true = codes "No failed or softfailed modules found in this test job."
no_modules_message false = codes "No failed modules found in this test job."

-- The end for a job without failed modules, from the lines of `job_level_failure`.
abbrev pub without_modules : List Str → Bool → List Str → Ending
without_modules out include_softfailed [] =
    no_failed_modules (out ++ (no_modules_message include_softfailed ∷ []))
without_modules out include_softfailed (l ∷ lines) = returned (out ++ (l ∷ lines))

abbrev pub or_no_logs : Option (Dict (List Str)) → Dict (List Str)
or_no_logs none = []
or_no_logs (some logs) = logs

unfoldable pub module_reports :
    Job → Dict (Dict (List Str)) → List Module → List Module → Option (List Str)
unfolding module_report lookup module_key
module_reports job uploads all_modules [] = some []
module_reports job uploads all_modules (m ∷ modules) = do
  report ← module_report job m (or_no_logs (lookup (module_key m) uploads)) all_modules
  rest ← module_reports job uploads all_modules modules
  some (report ++ rest)

abbrev pub name_or_unknown : Module → Str
name_or_unknown m = or_default (codes "unknown") m.name

abbrev pub rest_lines : List Module → List Str
rest_lines [] = []
rest_lines (m ∷ modules) =
    (codes "... "
      ++ (decimal (length (m ∷ modules))
          ++ (codes " more failed modules not analyzed: "
              ++ join (codes ", ") (map name_or_unknown (m ∷ modules)))))
    ∷ []
    ∷ []

abbrev pub with_reports : List Str → List Module → Option (List Str) → Ending
with_reports out failed_modules none = value_error
with_reports out failed_modules (some reports) =
    returned (out ++ (reports ++ rest_lines (drop 3 failed_modules)))

abbrev pub job_with : Str → Str → ℕ → Job
job_with serial autoinst context_lines = record {
  serial = serial;
  autoinst = autoinst;
  context_lines = context_lines;
  booted_to_login = false;
}

-- The end for a job with failed modules.
unfoldable pub analyze_modules :
    OpenQa → Str → ℕ → List Str → Bool → List Module → List Module → Dict Str → Ending × Dict Str
unfolding job_file preamble module_reports decimal join
analyze_modules oqa job_id context_lines out include_softfailed all_modules failed_modules cache =
    let (serial, cache) =
      job_file oqa.client job_id (codes "serial_terminal.txt") job_file_max_bytes cache in
    let (autoinst, cache) =
      job_file oqa.client job_id (codes "autoinst-log.txt") job_file_max_bytes cache in
    let job = job_with serial autoinst context_lines in
    let (found, cache) = preamble oqa job_id job failed_modules include_softfailed cache in
    let booted : Job = record job { booted_to_login = found.booted_to_login } in
    (
      with_reports (out ++ found.lines) failed_modules
          (module_reports booted found.uploads all_modules (take 3 failed_modules)),
      cache,
    )

-- The lines on the job before those on its modules.
unfoldable pub opening : OpenQa → ℕ → Bool → ApiJob → List Module → List Str
unfolding job_header run_history
opening oqa job_id include_softfailed api_job modules =
    title include_softfailed
    ∷ []
    ∷ (job_header api_job modules ++ (run_history oqa.server job_id (settings_job api_job)).0)

abbrev pub analyze_found :
    OpenQa → ℕ → ℕ → Bool → ApiJob → List Module → List Module → Dict Str → Ending × Dict Str
analyze_found oqa job_id context_lines include_softfailed api_job modules [] cache =
    let (lines, cache) = job_level_failure oqa.client (decimal job_id) api_job cache in
    (
      without_modules (opening oqa job_id include_softfailed api_job modules) include_softfailed
          lines,
      cache,
    )
analyze_found oqa job_id context_lines include_softfailed api_job modules (m ∷ failed) cache =
    analyze_modules oqa (decimal job_id) context_lines
      (opening oqa job_id include_softfailed api_job modules) include_softfailed modules
      (m ∷ failed) cache

abbrev pub analyze_details :
    OpenQa → ℕ → ℕ → Bool → Option ApiJob → Option (List Module) → Dict Str → Ending × Dict Str
analyze_details oqa job_id context_lines include_softfailed api_job none cache =
    (analyzer_error (title include_softfailed ∷ [] ∷ []), cache)
analyze_details oqa job_id context_lines include_softfailed api_job (some modules) cache =
    analyze_found oqa job_id context_lines include_softfailed (or_fetched oqa job_id api_job)
      (sorted_in_place modules include_softfailed)
      (extract_failed_modules modules include_softfailed) cache

-- `_analyze`
unfoldable pub analyze : OpenQa → ℕ → ℕ → Bool → Option ApiJob → Dict Str → Ending × Dict Str
unfolding fetch_job opening job_level_failure analyze_modules extract_failed_modules sorted_in_place
    decimal
analyze oqa job_id context_lines include_softfailed api_job cache =
    analyze_details oqa job_id context_lines include_softfailed api_job (oqa.server.details job_id)
      cache

-- The text of an analysis, or an error with its `partial_output`.
pub data Analysis : Type 0 where
  text : Str → Analysis
  failed : Str → Analysis
  no_modules : Str → Analysis
  crashed : Analysis

abbrev pub redacted : List Str → Str
redacted out = redact (join (10 ∷ []) out ++ codes "\n")

unfoldable pub analysis_of : Ending → Analysis
unfolding redact join
analysis_of (returned out) = text (redacted out)
analysis_of (analyzer_error out) = failed (redacted out)
analysis_of (no_failed_modules out) = no_modules (redacted out)
analysis_of value_error = crashed

unfoldable pub analyze_job : OpenQa → ℕ → ℕ → Bool → Option ApiJob → Dict Str → Analysis × Dict Str
unfolding analyze analysis_of
analyze_job oqa job_id context_lines include_softfailed job cache =
    let (ending, cache) = analyze oqa job_id context_lines include_softfailed job cache in
    (analysis_of ending, cache)
