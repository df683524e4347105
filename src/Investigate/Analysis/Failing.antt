-- ===== src/Investigate/Analysis/Failing.antt =====
-- The texts that openqa_llm_investigate/analysis.py searches for the key error of a job.
use mathlib.Core.List.{reverse}
use os_autoinst_scripts.Prelude.{
  ℕ, Bool, ◌&&◌, ◌||◌, Option, none, some, List, [], ◌∷◌, ◌++◌, map, ltb, if◌then◌else◌, length,
  any, find,
}
use os_autoinst_scripts.Py.Str.{Str, codes, starts_with, ends_with}
use os_autoinst_scripts.Py.Num.{is_digit}
use os_autoinst_scripts.Py.Dict.{Dict}
use os_autoinst_scripts.Py.Text.{or_empty}
use os_autoinst_scripts.Py.Regex.{
  Regex, one, seq, alt, is_some, match_at_start, literal, seqs, plus, optional,
}
use os_autoinst_scripts.Investigate.Step.{Step, num_of, text_of, title_of}
use os_autoinst_scripts.Investigate.Text.Classes.{not_space, text_end}
use os_autoinst_scripts.Investigate.Text.Commands.{parse_command_from_text_data}
use os_autoinst_scripts.Investigate.Text.Died.{parse_command_from_test_died}
use os_autoinst_scripts.Investigate.Failures.Modules.{Module, details_of}
use os_autoinst_scripts.Investigate.Failures.Repeats.{failing_cluster}
use os_autoinst_scripts.Investigate.Logs.Crash.{kdump_oops_symbol}
use os_autoinst_scripts.Investigate.Logs.Signals.{dialog_signal}
use os_autoinst_scripts.Investigate.Analysis.Bodies.{
  Job, died_in, is_category, needle_in, same_step,
}

-- `f"{title}\n{text}"`
abbrev pub title_and_text : Step → Str
title_and_text d = title_of d ++ (10 ∷ text_of d)

abbrev pub texts_of_modules : List Module → List Str
texts_of_modules [] = []
texts_of_modules (m ∷ modules) = map title_and_text (details_of m) ++ texts_of_modules modules

abbrev pub all_lines : Dict (List Str) → List Str
all_lines [] = []
all_lines ((name, lines) ∷ logs) = lines ++ all_lines logs

abbrev pub lines_of_all : List (Dict (List Str)) → List Str
lines_of_all [] = []
lines_of_all (logs ∷ rest) = all_lines logs ++ lines_of_all rest

abbrev pub text_if : Str → Option Str → List Str
text_if start none = []
text_if start (some s) = (start ++ s) ∷ []

abbrev pub dialog_lines : Str → List Str → List Str
dialog_lines name lines =
    if ends_with name (codes "-widgets.json") then text_if [] (dialog_signal lines) else []

abbrev pub upload_signals : Dict (List Str) → List Str
upload_signals [] = []
upload_signals ((name, lines) ∷ logs) = lines ++ (dialog_lines name lines ++ upload_signals logs)

abbrev pub uploads_signals : Dict (Dict (List Str)) → List Str
uploads_signals [] = []
uploads_signals ((key, logs) ∷ uploads) = upload_signals logs ++ uploads_signals uploads

unfoldable pub key_error_signals :
    List Module → Str → List (Dict (List Str)) → Dict (Dict (List Str)) → List Str
unfolding kdump_oops_symbol ends_with dialog_signal
key_error_signals failed_modules boot_log job_level uploads =
    texts_of_modules failed_modules
    ++ (boot_log
        ∷ (lines_of_all job_level
            ++ (text_if (codes "KDUMP_OOPS: ") (kdump_oops_symbol boot_log)
                ++ uploads_signals uploads)))

-- `(?:timeout -k \d+ (?:\S+ )?\d+ )?COMMAND(?: ?\| (?:cat|tee \S+))?`
-- `(?: ?; \( exit \$\{PIPESTATUS\[0\]\} \))?`, to the end of the text
abbrev pub typed_command_re : Str → Regex
typed_command_re command =
    let number = plus (one is_digit) in
    let space = literal (codes " ") in
    seqs (
      optional (
        seqs (
          literal (codes "timeout -k ")
          ∷ number
          ∷ space
          ∷ optional (seq (plus not_space) space)
          ∷ number
          ∷ space
          ∷ []))
      ∷ literal command
      ∷ optional (
          seqs (
            optional space
            ∷ literal (codes "| ")
            ∷ alt (literal (codes "cat")) (seq (literal (codes "tee ")) (plus not_space))
            ∷ []))
      ∷ optional (seq (optional space) (literal (codes "; ( exit ${PIPESTATUS[0]} )")))
      ∷ text_end
      ∷ [])

unfoldable pub ran_command : Step → Str → Bool
unfolding starts_with match_at_start parse_command_from_text_data
ran_command step command =
    starts_with (text_of step) (codes "# Command:")
    && is_some (
        match_at_start (typed_command_re command)
          (or_empty (parse_command_from_text_data (text_of step))))

abbrev pub run_before : List Step → ℕ → Str → Option Step
run_before details num command =
    if ltb (length command) 5
    then none
    else find (λ d. ltb (num_of d) num && ran_command d command) (reverse details)

abbrev pub run_of : Job → List Step → Option Step → Option Str → Option Step
run_of job details none category = none
run_of job details (some died) category =
    if is_category (codes "publiccloud") category || is_some (needle_in job (text_of died))
    then none
    else run_before details (num_of died) (or_empty (parse_command_from_test_died (text_of died)))

unfoldable pub died_command_run : Job → List Step → List Step → Option Str → Option Step
unfolding died_in needle_in parse_command_from_test_died ran_command
died_command_run job details cluster category = run_of job details (died_in cluster) category

abbrev pub with_run : List Step → Option Step → List Step
with_run cluster none = cluster
with_run cluster (some run) =
    if any (λ d. same_step d run) cluster then cluster else cluster ++ (run ∷ [])

abbrev pub texts_of_cluster : Job → Module → Option (List Step × List ℕ) → List Str
texts_of_cluster job m none = []
texts_of_cluster job m (some (cluster, retries)) =
    map title_and_text (with_run cluster (died_command_run job (details_of m) cluster m.category))

unfoldable pub failing_step_texts : Job → List Module → List Str
unfolding failing_cluster died_command_run
failing_step_texts job [] = []
failing_step_texts job (m ∷ modules) =
    texts_of_cluster job m (failing_cluster (details_of m)) ++ failing_step_texts job modules
