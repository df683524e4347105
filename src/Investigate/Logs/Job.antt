-- ===== src/Investigate/Logs/Job.antt =====
-- What openqa_llm_investigate/logs.py reports of a job as a whole.
use os_autoinst_scripts.Prelude.{
  ℕ, zero, suc, Bool, ◌&&◌, ◌||◌, not, List, [], ◌∷◌, ◌++◌, map, if◌then◌else◌, take, last_n,
  filter, ◌==◌,
}
use os_autoinst_scripts.Py.Str.{Str, codes, contains, rstrip, split}
use os_autoinst_scripts.Py.Num.{is_digit}
use os_autoinst_scripts.Py.Dict.{Dict}
use os_autoinst_scripts.Py.Text.{in_lines, not_empty_text, or_empty}
use os_autoinst_scripts.Py.Regex.{
  Regex, one, alt, star, word_edge, is_some, search_in, sub, literal, seqs,
}
use os_autoinst_scripts.Investigate.Text.Classes.{alts}
use os_autoinst_scripts.Investigate.Text.Commands.{is_boilerplate_log_line, without_escapes}
use os_autoinst_scripts.Investigate.Text.Lines.{is_text}
use os_autoinst_scripts.Investigate.Text.Redact.{redact}
use os_autoinst_scripts.Investigate.Http.{Client, job_file, job_file_max_bytes}
use os_autoinst_scripts.Investigate.History.Header.{ApiJob, or_default}
use os_autoinst_scripts.Investigate.Logs.Crash.{crash_report, rule}

abbrev pub report_of : Str → Str → ℕ → List Str
report_of name text context_lines =
    crash_report name (map without_escapes (split 10 text)) context_lines

unfoldable pub scan_files : Client → Str → ℕ → List Str → Dict Str → List Str × Dict Str
unfolding job_file crash_report without_escapes split
scan_files client job_id context_lines [] cache = ([], cache)
scan_files client job_id context_lines (name ∷ names) cache =
    let (text, cache) = job_file client job_id name job_file_max_bytes cache in
    let (report, cache) = scan_files client job_id context_lines names cache in
    (report_of name text context_lines ++ report, cache)

-- `console_files or ["destroy-console.txt"]`
abbrev pub or_destroy_console : List Str → List Str
or_destroy_console [] = codes "destroy-console.txt" ∷ []
or_destroy_console (n ∷ names) = n ∷ names

unfoldable pub scan_kernel_crash :
    Client → Str → ℕ → List Str → Dict Str → (Str × List Str) × Dict Str
unfolding job_file crash_report without_escapes scan_files split
scan_kernel_crash client job_id context_lines console_files cache =
    let (serial0, cache) = job_file client job_id (codes "serial0.txt") job_file_max_bytes cache in
    let (report, cache) =
      scan_files client job_id context_lines (or_destroy_console console_files) cache in
    ((serial0, report_of (codes "serial0.txt") serial0 context_lines ++ report), cache)

-- `\[(?:warn|error)\]|!!!|\bdied\b|Unable to|Failed to|No such file`
abbrev pub job_log_signal_re : Regex
job_log_signal_re = alts (
    seqs (
      literal (codes "[")
      ∷ alt (literal (codes "warn")) (literal (codes "error"))
      ∷ literal (codes "]")
      ∷ [])
    ∷ literal (codes "!!!")
    ∷ seqs (word_edge ∷ literal (codes "died") ∷ word_edge ∷ [])
    ∷ literal (codes "Unable to")
    ∷ literal (codes "Failed to")
    ∷ literal (codes "No such file")
    ∷ [])

-- `\x1b\[[0-9;]*m`
abbrev pub ansi_re : Regex
ansi_re = seqs (
    literal (codes "\u{1b}[")
    ∷ star (one (λ c. is_digit c || (c == b';')))
    ∷ literal (codes "m")
    ∷ [])

unfoldable pub job_log_line : Str → Str
unfolding sub rstrip
job_log_line line = take 300 (rstrip (sub ansi_re (λ c. []) line))

unfoldable pub is_signal : Str → Bool
unfolding search_in contains
is_signal line =
    is_some (search_in job_log_signal_re line)
    && not (contains line (codes "make your needles more specific"))

-- The lines from a signal to the second behind it; `left` lines are still to be kept.
unfoldable pub kept_lines : ℕ → List Str → List Str
unfolding is_signal
kept_lines left [] = []
kept_lines zero (line ∷ lines) =
    let kept = kept_lines 2 lines in
    let rest = kept_lines 0 lines in if is_signal line then line ∷ kept else rest
kept_lines (suc left) (line ∷ lines) =
    let kept = kept_lines 2 lines in
    let rest = kept_lines left lines in line ∷ (if is_signal line then kept else rest)

unfoldable pub extract_job_log_excerpt : Str → List Str
unfolding kept_lines job_log_line is_text is_boilerplate_log_line split
extract_job_log_excerpt log =
    let lines = kept_lines 0 (map job_log_line (split 10 log)) in
    last_n 60 (filter (λ line. is_text line && not (is_boilerplate_log_line line)) lines)

-- The tail of the log, where it has no signal.
abbrev pub or_tail : List Str → Str → List Str
or_tail [] log = last_n 30 (filter is_text (map job_log_line (split 10 log)))
or_tail (l ∷ excerpt) log = l ∷ excerpt

abbrev pub excerpt_lines : List Str → List Str
excerpt_lines [] = []
excerpt_lines (l ∷ excerpt) =
    []
    ∷ codes "--- autoinst-log.txt (relevant lines) ---"
    ∷ (map redact (l ∷ excerpt) ++ (codes "--- End of Log Section ---" ∷ []))

unfoldable pub failure_lines : ApiJob → Str → List Str
unfolding extract_job_log_excerpt job_log_line is_text redact split
failure_lines job log =
    let reason = or_empty job.reason in
    if not_empty_text reason || is_text log
    then rule
      ∷ codes "Failed Module: Job"
      ∷ rule
      ∷ []
      ∷ (codes "Job result: "
          ++ (or_default (codes "none") job.result
              ++ (codes " (state " ++ (or_default (codes "unknown") job.state ++ codes ")"))))
      ∷ ((if not_empty_text reason then (codes "Reason: " ++ redact reason) ∷ [] else [])
          ++ (excerpt_lines (or_tail (extract_job_log_excerpt log) log) ++ ([] ∷ [])))
    else []

abbrev pub no_failure : List Str
no_failure = codes "passed" ∷ codes "softfailed" ∷ codes "none" ∷ []

unfoldable pub job_level_failure : Client → Str → ApiJob → Dict Str → List Str × Dict Str
unfolding in_lines job_file failure_lines
job_level_failure client job_id job cache =
    let result = or_default (codes "none") job.result in
    let (log, fetched) =
      job_file client job_id (codes "autoinst-log.txt") job_file_max_bytes cache in
    if in_lines result no_failure && not (not_empty_text (or_empty job.reason))
    then ([], cache)
    else (failure_lines job log, fetched)
