-- ===== src/Investigate/Analysis/Cached.antt =====
-- An analysis never changes what the client of openqa_llm_investigate/http.py has in its cache.
use os_autoinst_scripts.Prelude.{
  ℕ, Bool, true, false, ◌&&◌, not, Option, none, some, List, [], ◌∷◌, ◌++◌, if◌then◌else◌, take,
}
use os_autoinst_scripts.Py.Str.{Str, codes}
use os_autoinst_scripts.Py.Num.{decimal}
use os_autoinst_scripts.Py.Dict.{Dict}
use os_autoinst_scripts.Py.Json.{Value}
use os_autoinst_scripts.Py.Text.{in_lines, not_empty_text, or_empty}
use os_autoinst_scripts.Investigate.Http.{Client, job_file, job_file_max_bytes}
use os_autoinst_scripts.Investigate.Http.Extends.{
  Extends, Extends-refl, Extends-trans, job_file-Extends, text_or_empty-Extends,
}
use os_autoinst_scripts.Investigate.History.Header.{ApiJob, or_default}
use os_autoinst_scripts.Investigate.Failures.Modules.{
  Module, extract_failed_modules, sorted_in_place,
}
use os_autoinst_scripts.Investigate.Logs.Job.{
  job_level_failure, no_failure, or_destroy_console, scan_files, scan_kernel_crash,
}
use os_autoinst_scripts.Investigate.Uploads.{select_console_files, select_uploaded_logs}
use os_autoinst_scripts.Investigate.Uploads.Collect.{
  cloudregister, collect_consoles, collect_job_level_logs, collect_uploaded_logs, collect_uploads,
  list_job_files,
}
use os_autoinst_scripts.Investigate.Analysis.Bodies.{Job}
use os_autoinst_scripts.Investigate.Analysis.Report.{OpenQa, collect_for_modules, preamble}
use os_autoinst_scripts.Investigate.Analysis.{
  analyze, analyze_details, analyze_found, analyze_job, analyze_modules, job_with, opening,
  or_fetched,
}

-- A file is fetched, and what follows goes on with the cache behind it.
via_job_file :
    (client : Client) (job_id name : Str) (c d : Dict Str)
    → Extends (job_file client job_id name job_file_max_bytes c).1 d
    → Extends c d
via_job_file client job_id name c d h =
    let fetched = (job_file client job_id name job_file_max_bytes c).1 in
    Extends-trans c fetched d (job_file-Extends client job_id name job_file_max_bytes c) h

list_job_files-Extends :
    (client : Client) (job_id : Str) (c : Dict Str) → Extends c (list_job_files client job_id c).1
unfolding list_job_files
list_job_files-Extends client job_id c =
    text_or_empty-Extends client (codes "/tests/" ++ (job_id ++ codes "/downloads_ajax")) c

scan_files-Extends :
    (client : Client) (job_id : Str) (n : ℕ) (names : List Str) (c : Dict Str)
    → Extends c (scan_files client job_id n names c).1
unfolding scan_files
scan_files-Extends client job_id n [] c = Extends-refl c
scan_files-Extends client job_id n (name ∷ names) c =
    via_job_file client job_id name c _ (scan_files-Extends client job_id n names _)

scan_kernel_crash-Extends :
    (client : Client) (job_id : Str) (n : ℕ) (names : List Str) (c : Dict Str)
    → Extends c (scan_kernel_crash client job_id n names c).1
unfolding scan_kernel_crash
scan_kernel_crash-Extends client job_id n names c =
    via_job_file client job_id (codes "serial0.txt") c _
      (scan_files-Extends client job_id n (or_destroy_console names) _)

collect_consoles-Extends :
    (client : Client) (job_id : Str) (names : List Str) (logs : Dict (List Str)) (c : Dict Str)
    → Extends c (collect_consoles client job_id names logs c).1
unfolding collect_consoles
collect_consoles-Extends client job_id [] logs c = Extends-refl c
collect_consoles-Extends client job_id (n ∷ names) logs c =
    via_job_file client job_id n c _ (collect_consoles-Extends client job_id names _ _)

collect_uploads-Extends :
    (client : Client) (loads : Str → Option Value) (job_id : Str) (names : List Str)
    (logs : Dict (List Str)) (c : Dict Str)
    → Extends c (collect_uploads client loads job_id names logs c).1
unfolding collect_uploads
collect_uploads-Extends client loads job_id [] logs c = Extends-refl c
collect_uploads-Extends client loads job_id (n ∷ names) logs c =
    via_job_file client job_id n c _ (collect_uploads-Extends client loads job_id names _ _)

-- Either branch of a test.
if-Extends {ℓ} :
    {A : Type ℓ} (b : Bool) (c : Dict Str) (r s : A × Dict Str)
    → Extends c r.1
    → Extends c s.1
    → Extends c (if b then r else s).1
if-Extends true c r s h k = h
if-Extends false c r s h k = k

collect_job_level_logs-Extends :
    (client : Client) (job_id : Str) (names : List Str) (c : Dict Str)
    → Extends c (collect_job_level_logs client job_id names c).1
unfolding collect_job_level_logs
collect_job_level_logs-Extends client job_id names c =
    let consoles = collect_consoles client job_id (select_console_files names) [] c in
    let kept = collect_consoles-Extends client job_id (select_console_files names) [] c in
    if-Extends (in_lines cloudregister names) c _ _
      (Extends-trans c consoles.1 _ kept
        (job_file-Extends client job_id cloudregister job_file_max_bytes consoles.1))
      kept

collect_for_modules-Extends :
    (oqa : OpenQa) (job_id : Str) (names : List Str) (modules : List Module)
    (uploads : Dict (Dict (List Str))) (c : Dict Str)
    → Extends c (collect_for_modules oqa job_id names modules uploads c).1
unfolding collect_for_modules collect_uploaded_logs
collect_for_modules-Extends oqa job_id names [] uploads c = Extends-refl c
collect_for_modules-Extends oqa job_id names (m ∷ modules) uploads c =
    Extends-trans c _ _
      (collect_uploads-Extends oqa.client oqa.loads job_id
        (select_uploaded_logs names (or_empty m.name)) [] c)
      (collect_for_modules-Extends oqa job_id names modules _ _)

preamble-Extends :
    (oqa : OpenQa) (job_id : Str) (job : Job) (failed_modules : List Module) (soft : Bool)
    (c : Dict Str)
    → Extends c (preamble oqa job_id job failed_modules soft c).1
unfolding preamble
preamble-Extends oqa job_id job failed_modules soft c =
    let listed = list_job_files oqa.client job_id c in
    let boot =
      scan_kernel_crash oqa.client job_id job.context_lines (select_console_files listed.0)
        listed.1 in
    let logs = collect_job_level_logs oqa.client job_id listed.0 boot.1 in
    Extends-trans c listed.1 _ (list_job_files-Extends oqa.client job_id c) (
      Extends-trans listed.1 boot.1 _
        (scan_kernel_crash-Extends oqa.client job_id job.context_lines
          (select_console_files listed.0) listed.1)
        (Extends-trans boot.1 logs.1 _
          (collect_job_level_logs-Extends oqa.client job_id listed.0 boot.1)
          (collect_for_modules-Extends oqa job_id listed.0 (take 3 failed_modules) [] logs.1)))

job_level_failure-Extends :
    (client : Client) (job_id : Str) (job : ApiJob) (c : Dict Str)
    → Extends c (job_level_failure client job_id job c).1
unfolding job_level_failure
job_level_failure-Extends client job_id job c =
    if-Extends
      (in_lines (or_default (codes "none") job.result) no_failure
        && not (not_empty_text (or_empty job.reason)))
      c _ _ (Extends-refl c)
      (job_file-Extends client job_id (codes "autoinst-log.txt") job_file_max_bytes c)

analyze_modules-Extends :
    (oqa : OpenQa) (job_id : Str) (n : ℕ) (out : List Str) (soft : Bool)
    (all_modules failed_modules : List Module) (c : Dict Str)
    → Extends c (analyze_modules oqa job_id n out soft all_modules failed_modules c).1
unfolding analyze_modules
analyze_modules-Extends oqa job_id n out soft all_modules failed_modules c =
    let serial = job_file oqa.client job_id (codes "serial_terminal.txt") job_file_max_bytes c in
    let autoinst =
      job_file oqa.client job_id (codes "autoinst-log.txt") job_file_max_bytes serial.1 in
    via_job_file oqa.client job_id (codes "serial_terminal.txt") c _ (
      via_job_file oqa.client job_id (codes "autoinst-log.txt") serial.1 _ (
        preamble-Extends oqa job_id (job_with serial.0 autoinst.0 n) failed_modules soft
          autoinst.1))

analyze_details-Extends :
    (oqa : OpenQa) (job_id n : ℕ) (soft : Bool) (job : Option ApiJob)
    (details : Option (List Module)) (c : Dict Str)
    → Extends c (analyze_details oqa job_id n soft job details c).1
analyze_details-Extends oqa job_id n soft job none c = Extends-refl c
analyze_details-Extends oqa job_id n soft job (some modules) c =
    go (extract_failed_modules modules soft)
  where
    go :
        (failed : List Module)
        → Extends c
            (analyze_found oqa job_id n soft
              (or_fetched oqa job_id job)
              (sorted_in_place modules soft)
              failed
              c).1
    go [] = job_level_failure-Extends oqa.client (decimal job_id) (or_fetched oqa job_id job) c
    go (m ∷ failed) =
        analyze_modules-Extends oqa (decimal job_id) n
          (opening oqa job_id soft (or_fetched oqa job_id job) (sorted_in_place modules soft)) soft
          (sorted_in_place modules soft) (m ∷ failed) c

-- Whatever an analysis finds and however it ends, every answer that was in the cache before is in it
-- afterwards and has not changed, so that all parts of a report read the same files.
pub analyze_job-Extends :
    (oqa : OpenQa) (job_id context_lines : ℕ) (include_softfailed : Bool) (job : Option ApiJob)
    (cache : Dict Str)
    → Extends cache (analyze_job oqa job_id context_lines include_softfailed job cache).1
unfolding analyze_job analyze
analyze_job-Extends oqa job_id context_lines include_softfailed job cache =
    analyze_details-Extends oqa job_id context_lines include_softfailed job
      (oqa.server.details job_id) cache
