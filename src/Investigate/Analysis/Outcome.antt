-- ===== src/Investigate/Analysis/Outcome.antt =====
-- How an analysis ends: openqa_llm_investigate/analysis.py.
use os_autoinst_scripts.Prelude.{
  ℕ, ◌≡◌, refl, Bool, true, false, ◌&&◌, Option, none, some, List, [], ◌∷◌,
}
use os_autoinst_scripts.Py.Str.{Str}
use os_autoinst_scripts.Py.Num.{decimal}
use os_autoinst_scripts.Py.Dict.{Dict}
use os_autoinst_scripts.Py.Regex.{is_empty_list}
use os_autoinst_scripts.Investigate.History.Header.{ApiJob}
use os_autoinst_scripts.Investigate.Failures.Modules.{
  Module, extract_failed_modules, sorted_in_place,
}
use os_autoinst_scripts.Investigate.Logs.Job.{job_level_failure}
use os_autoinst_scripts.Investigate.Analysis.Report.{OpenQa}
use os_autoinst_scripts.Investigate.Analysis.{
  Analysis, text, failed, no_modules, crashed, analysis_of, analyze, analyze_details, analyze_found,
  analyze_job, analyze_modules, opening, or_fetched, redacted, title, with_reports, without_modules,
}

-- The text that the caller gets: the report, or the `partial_output` of the error.
abbrev pub output_of : Analysis → Option Str
output_of (text s) = some s
output_of (failed s) = some s
output_of (no_modules s) = some s
output_of crashed = none

abbrev pub is_failure : Analysis → Bool
is_failure (failed s) = true
is_failure _ = false

abbrev pub is_without_modules : Analysis → Bool
is_without_modules (no_modules s) = true
is_without_modules _ = false

abbrev pub is_crash : Analysis → Bool
is_crash crashed = true
is_crash _ = false

-- The lines on a job as a whole, which may have no failed module.
abbrev pub job_lines : OpenQa → ℕ → Option ApiJob → Dict Str → List Str
job_lines oqa job_id job cache =
    (job_level_failure oqa.client (decimal job_id) (or_fetched oqa job_id job) cache).0

module _ (oqa : OpenQa) (job_id context_lines : ℕ) (soft : Bool) (job : Option ApiJob)
    (cache : Dict Str) where
  -- What is expected of an ending, from the failed modules and the lines on the job.
  abbrev pub Ends : List Module → List Str → Analysis → Type 0
  Ends failed_modules lines r =
      (is_failure r ≡ false)
      × (is_without_modules r ≡ (is_empty_list failed_modules && is_empty_list lines))
      × (is_crash r ≡ true → is_empty_list failed_modules ≡ false)

  -- The same from the modules that the server lists, if they can be fetched.
  abbrev pub Expected : Option (List Module) → Analysis → Type 0
  Expected none r = r ≡ failed (redacted (title soft ∷ [] ∷ []))
  Expected (some modules) r =
      Ends (extract_failed_modules modules soft) (job_lines oqa job_id job cache) r

  abbrev start : List Module → List Str
  start modules = opening oqa job_id soft (or_fetched oqa job_id job) (sorted_in_place modules soft)

  with_reports-ends :
      (out : List Str) (failed_modules : List Module) (reports : Option (List Str))
      → (is_failure (analysis_of (with_reports out failed_modules reports)) ≡ false)
        × (is_without_modules (analysis_of (with_reports out failed_modules reports)) ≡ false)
  unfolding analysis_of
  with_reports-ends out failed_modules none = (refl, refl)
  with_reports-ends out failed_modules (some reports) = (refl, refl)

  without_modules-Ends :
      (out lines : List Str) → Ends [] lines (analysis_of (without_modules out soft lines))
  unfolding analysis_of
  without_modules-Ends out [] = (refl, refl, λ h. absurd (cc h))
  without_modules-Ends out (l ∷ lines) = (refl, refl, λ h. absurd (cc h))

  found-Ends :
      (modules failed_modules : List Module)
      → Ends failed_modules (job_lines oqa job_id job cache) (
          analysis_of
            (analyze_found oqa job_id context_lines soft
              (or_fetched oqa job_id job)
              (sorted_in_place modules soft)
              failed_modules
              cache).0)
  unfolding analyze_modules
  found-Ends modules [] = without_modules-Ends (start modules) (job_lines oqa job_id job cache)
  found-Ends modules (m ∷ failed_modules) =
      let (sound, complete) = with_reports-ends _ (m ∷ failed_modules) _ in
      (sound, complete, λ h. refl)

  details-Expected :
      (details : Option (List Module))
      → Expected details
          (analysis_of (analyze_details oqa job_id context_lines soft job details cache).0)
  unfolding analysis_of
  details-Expected none = refl
  details-Expected (some modules) = found-Ends modules (extract_failed_modules modules soft)

  -- An analysis fails with an `AnalyzerError` exactly if the modules cannot be fetched, and its partial
  -- output is then the title. Else it ends with a `NoFailedModulesError` exactly if no module has failed
  -- and there are no lines on the job as a whole, and only with a failed module can it crash; in all
  -- other cases it returns a report.
  pub analyze_job-Expected :
      Expected (oqa.server.details job_id) (analyze_job oqa job_id context_lines soft job cache).0
  unfolding analyze_job analyze
  analyze_job-Expected = details-Expected (oqa.server.details job_id)
