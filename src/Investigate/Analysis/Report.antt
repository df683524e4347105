-- ===== src/Investigate/Analysis/Report.antt =====
-- The reports on the failed modules, and what stands before them:
-- openqa_llm_investigate/analysis.py.
use os_autoinst_scripts.Prelude.{
  ℕ, Bool, true, false, ◌&&◌, Option, none, some, List, [], ◌∷◌, ◌++◌, ltb, if◌then◌else◌, length,
  take, last_n, any,
}
use os_autoinst_scripts.Prelude.Maybe.{◌>>=◌}
use os_autoinst_scripts.Py.Str.{Str, codes, contains, eqb, join, rstrip, split}
use os_autoinst_scripts.Py.Num.{decimal}
use os_autoinst_scripts.Py.Dict.{Dict, insert}
use os_autoinst_scripts.Py.Json.{Value}
use os_autoinst_scripts.Py.Text.{or_empty}
use os_autoinst_scripts.Py.Regex.{Regex, star, at_end, is_some, search_in, literal, seqs}
use os_autoinst_scripts.Investigate.Step.{Step}
use os_autoinst_scripts.Investigate.Text.Classes.{space}
use os_autoinst_scripts.Investigate.Text.Redact.{redact}
use os_autoinst_scripts.Investigate.Http.{Client}
use os_autoinst_scripts.Investigate.History.{Server}
use os_autoinst_scripts.Investigate.History.Header.{ApiJob, or_default}
use os_autoinst_scripts.Investigate.Failures.Commands.{failing_command_line}
use os_autoinst_scripts.Investigate.Failures.Modules.{Module, details_of, module_key}
use os_autoinst_scripts.Investigate.Failures.Repeats.{failing_cluster}
use os_autoinst_scripts.Investigate.Failures.Xfstests.{xfstests_lines}
use os_autoinst_scripts.Investigate.Logs.Crash.{rule}
use os_autoinst_scripts.Investigate.Logs.Job.{scan_kernel_crash}
use os_autoinst_scripts.Investigate.Logs.Signals.{last_test_died, summarize_key_error}
use os_autoinst_scripts.Investigate.Uploads.{select_console_files}
use os_autoinst_scripts.Investigate.Uploads.Collect.{
  collect_job_level_logs, collect_uploaded_logs, format_uploaded_logs, list_job_files,
}
use os_autoinst_scripts.Investigate.Analysis.Title.{module_title, previous_modules_line}
use os_autoinst_scripts.Investigate.Analysis.Bodies.{Job, ipa_report, is_category}
use os_autoinst_scripts.Investigate.Analysis.Cluster.{cluster_report}
use os_autoinst_scripts.Investigate.Analysis.Failing.{failing_step_texts, key_error_signals}

-- `OpenQA`: the client, what its answers decode to (none where it raises an `AnalyzerError`), and the
-- JSON decoder.
pub record OpenQa : Type 0 where
  pub client : Client
  pub server : Server
  pub api_job : ℕ → Option ApiJob
  pub loads : Str → Option Value

abbrev pub command_lines : Option Str → List Str
command_lines none = []
command_lines (some line) = redact line ∷ [] ∷ []

-- The report behind the head of a module that has a failing cluster or none.
abbrev pub report_body :
    Job → Module → Dict (List Str) → List Str → Option (List Step × List ℕ) → Option (List Str)
report_body job m uploads head none =
    if is_category (codes "xfstests") m.category
    then some (head ++ xfstests_lines (details_of m))
    else if is_category (codes "IPA") m.category
    then (do
      ipa ← ipa_report job (details_of m) (or_default (codes "unknown") m.name)
      some (head ++ ipa))
    else some (head ++ format_uploaded_logs uploads (codes "uploaded log"))
report_body job m uploads head (some (cluster, retries)) =
    let lines = head ++ command_lines (failing_command_line cluster) in
    if is_category (codes "IPA") m.category
    then (do
      ipa ← ipa_report job (details_of m) (or_default (codes "unknown") m.name)
      some (lines ++ ipa))
    else (do
      report ← cluster_report job (details_of m) cluster retries m.category
      some (lines ++ (report ++ format_uploaded_logs uploads (codes "uploaded log"))))

unfoldable pub module_report : Job → Module → Dict (List Str) → List Module → Option (List Str)
unfolding module_title previous_modules_line failing_cluster failing_command_line redact eqb
    xfstests_lines ipa_report cluster_report format_uploaded_logs
module_report job m uploads all_modules =
    let head =
      rule
      ∷ (codes "Failed Module: " ++ module_title m)
      ∷ rule
      ∷ []
      ∷ previous_modules_line all_modules m
      ∷ []
      ∷ [] in
    report_body job m uploads head (failing_cluster (details_of m))

-- `login:\s*$`
abbrev pub login_prompt_re : Regex
login_prompt_re = seqs (literal (codes "login:") ∷ star space ∷ at_end ∷ [])

unfoldable pub ends_at_login : Str → Bool
unfolding rstrip join search_in split
ends_at_login boot_log =
    is_some (search_in login_prompt_re (join (10 ∷ []) (last_n 10 (split 10 (rstrip boot_log)))))

-- The uploads of the modules, by their keys.
unfoldable pub collect_for_modules :
    OpenQa
    → Str
    → List Str
    → List Module
    → Dict (Dict (List Str))
    → Dict Str
    → Dict (Dict (List Str)) × Dict Str
unfolding collect_uploaded_logs insert module_key
collect_for_modules oqa job_id names [] uploads cache = (uploads, cache)
collect_for_modules oqa job_id names (m ∷ modules) uploads cache =
    let (logs, cache) =
      collect_uploaded_logs oqa.client oqa.loads job_id names (or_empty m.name) cache in
    collect_for_modules oqa job_id names modules (insert (module_key m) logs uploads) cache

abbrev pub key_error_lines : Option Str → List Str
key_error_lines none = []
key_error_lines (some key_error) = redact (codes "Key error: " ++ key_error) ∷ [] ∷ []

abbrev pub died_lines : Option (Str × ℕ) → List Str
died_lines none = []
died_lines (some (died, n)) =
    if ltb 1 n
    then redact
        (codes "Last test died (" ++ (decimal n ++ (codes " in autoinst-log.txt): " ++ died)))
      ∷ []
      ∷ []
    else []

abbrev pub is_selinux_check : Module → Bool
is_selinux_check m =
    contains (or_empty m.name) (codes "selinux") && eqb (or_empty m.result) (codes "failed")

abbrev pub kind : Bool → Str
kind true = codes "failed/softfailed"
kind false = codes "failed"

-- The lines before the reports, the uploads of the modules, and whether serial0.txt ends at a login.
pub record Preamble : Type 0 where
  pub lines : List Str
  pub uploads : Dict (Dict (List Str))
  pub booted_to_login : Bool

-- The lines, from what has been fetched.
unfoldable pub preamble_lines :
    Job
    → List Module
    → Bool
    → Str
    → List Str
    → Dict (List Str)
    → Dict (List Str)
    → Dict (Dict (List Str))
    → List Str
unfolding key_error_signals failing_step_texts summarize_key_error last_test_died contains eqb
    redact format_uploaded_logs decimal join
preamble_lines job failed_modules include_softfailed boot_log boot_report consoles job_files
      uploads =
    let analyzed = take 3 failed_modules in
    let signals =
      join (10 ∷ [])
        (key_error_signals failed_modules boot_log (consoles ∷ job_files ∷ []) uploads) in
    let failing = failing_step_texts job analyzed in
    key_error_lines (summarize_key_error signals failing (any is_selinux_check analyzed))
    ++ (died_lines (last_test_died job.autoinst)
        ++ ((codes "Found "
              ++ (decimal (length failed_modules)
                  ++ (codes " " ++ (kind include_softfailed ++ codes " module(s)"))))
            ∷ []
            ∷ (boot_report
                ++ (format_uploaded_logs consoles (codes "console warnings")
                    ++ format_uploaded_logs job_files (codes "uploaded log")))))

unfoldable pub preamble : OpenQa → Str → Job → List Module → Bool → Dict Str → Preamble × Dict Str
unfolding list_job_files scan_kernel_crash select_console_files ends_at_login collect_job_level_logs
    collect_for_modules preamble_lines
preamble oqa job_id job failed_modules include_softfailed cache =
    let (names, cache) = list_job_files oqa.client job_id cache in
    let (boot, cache) =
      scan_kernel_crash oqa.client job_id job.context_lines (select_console_files names) cache in
    let (logs, cache) = collect_job_level_logs oqa.client job_id names cache in
    let (uploads, cache) = collect_for_modules oqa job_id names (take 3 failed_modules) [] cache in
    (
      record {
        lines =
            preamble_lines job failed_modules include_softfailed boot.0 boot.1 logs.0 logs.1
              uploads;
        uploads = uploads;
        booted_to_login = ends_at_login boot.0;
      },
      cache,
    )
