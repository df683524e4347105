-- ===== src/Investigate/Tests.antt =====
-- Runs of openqa_llm_investigate/failures.py and verdict.py on small inputs.
pub mod Text
pub mod History
pub mod Logs
pub mod Http
pub mod Uploads
pub mod Commits
pub mod Signals
pub mod Analysis
use mathlib.Core.List.{reverse}
use Prim.Native.String.{String}
use os_autoinst_scripts.Prelude.{
  ℕ, ◌≤◌, ◌<◌, ◌≡◌, refl, Bool, true, false, none, some, List, [], ◌∷◌, map, arith, filter, length,
  All, all, last?, option_map,
}
use os_autoinst_scripts.Py.Str.{
  Str, codes, splitlines, contains, rstrip, eqb, is_space, starts_with, strip, contains,
}
use os_autoinst_scripts.Py.Dict.{lookup, keys}
use os_autoinst_scripts.Py.Text.{unique}
use os_autoinst_scripts.Py.Str.{join}
use os_autoinst_scripts.Py.Num.{decimal, is_digit}
use os_autoinst_scripts.Py.Regex.{match_at_start, sub, group_of}
use os_autoinst_scripts.Py.Sort.{is_sorted}
use os_autoinst_scripts.Investigate.Text.Classes.{is_letter, is_hex}
use os_autoinst_scripts.Investigate.Text.Died.{parse_command_from_test_died}
use os_autoinst_scripts.Investigate.Text.Commands.{without_escapes, parse_command_from_text_data}
use os_autoinst_scripts.Investigate.Step.{Step, num_of, is_fail}
use os_autoinst_scripts.Investigate.Text.Redact.{redact}
use os_autoinst_scripts.Investigate.Text.Lines.{trim_stack_frames, squeeze_blank, is_text}
use os_autoinst_scripts.Investigate.Text.Lines.Frames.{Within, shown_frames, trim_stack_frames_lem}
use os_autoinst_scripts.Investigate.Text.Lines.Blank.{tidy, starts_in_text, squeeze_blank_lem}
use os_autoinst_scripts.Investigate.Text.Noise.{split_died_text}
use os_autoinst_scripts.Investigate.Text.Summary.{step_output_tail}
use os_autoinst_scripts.Investigate.Text.Bounds.{split_died_text-bounds, step_output_tail-bound}
use os_autoinst_scripts.Investigate.Failures.{
  group_failures_by_proximity, get_context_steps, post_fail_start,
}
use os_autoinst_scripts.Investigate.Failures.Clusters.{
  together, is_close, are_apart, group_failures_by_proximity_lem,
}
use os_autoinst_scripts.Investigate.Failures.Around.{get_context_steps_lem}
use os_autoinst_scripts.Investigate.Failures.Repeats.{failure_key, repeats_by_key, failing_cluster}
use os_autoinst_scripts.Investigate.Failures.Repeats.Laws.{as_group, repeats_by_key_lem}
use os_autoinst_scripts.Investigate.Failures.Repeats.Last.{failing_cluster-last}
use os_autoinst_scripts.Investigate.Failures.Modules.{
  Module, fails_first, has_failed, is_unordered, with_sorted_details, extract_failed_modules,
  extract_failed_modules_lem,
}
use os_autoinst_scripts.Investigate.History.{Row, Server, history_max_fetches}
use os_autoinst_scripts.Investigate.History.Runs.{reviews_of}
use os_autoinst_scripts.Investigate.History.Reviews.{first_review}
use os_autoinst_scripts.Investigate.History.Siblings.{Job, run_history}
use os_autoinst_scripts.Investigate.Text.Condense.{condense_log}
use os_autoinst_scripts.Investigate.Text.Condense.Returns.{is_scored, condense_log-returns}
use os_autoinst_scripts.Investigate.Verdict.{
  is_yes, bisect_verdict, enforce_history_rules, restart_re,
}
use os_autoinst_scripts.Investigate.Verdict.Laws.{NotYes, enforce_history_rules-forbids}

abbrev verdict : Str
verdict = codes "BISECT: YES\nRestart: **yes**"

enforce_history_rules-forbids_example :
    (is_yes (bisect_verdict (enforce_history_rules verdict (some 4))) ≡ false)
    × All (NotYes restart_re) (splitlines (enforce_history_rules verdict (some 4)))
enforce_history_rules-forbids_example = enforce_history_rules-forbids verdict 4 (omega arith)

abbrev pub step : ℕ → String → String → String → Step
step n result title text = record {
  place = n;
  num = some n;
  result = some (codes result);
  display_title = some (codes title);
  text_data = some (codes text);
  screenshot = none;
  needle = none;
  tags = [];
  area = [];
}

abbrev pub steps : List Step
steps =
    step 1 "ok" "start" ""
    ∷ step 2 "fail" "wait_serial" "error 17"
    ∷ step 3 "fail" "wait_serial" "error 18"
    ∷ step 20 "fail" "run" "# Test died: command 'ls' failed"
    ∷ step 21 "ok" "Post-fail" ""
    ∷ step 22 "fail" "hook" "no route"
    ∷ []

group_failures_by_proximity_lem_example :
    (together (group_failures_by_proximity steps 5) ≡ filter is_fail steps)
    × (all (is_close 5) (group_failures_by_proximity steps 5) ≡ true)
    × (are_apart 5 (group_failures_by_proximity steps 5) ≡ true)
group_failures_by_proximity_lem_example = group_failures_by_proximity_lem steps 5

get_context_steps_lem_example :
    let shown = get_context_steps steps 20 20 3 2 in
    (length shown.0 ≤ 3)
    × (length shown.1 ≤ 2)
    × All (λ d. num_of d < 20) shown.0
    × All (λ d. 20 < num_of d) shown.1
get_context_steps_lem_example = get_context_steps_lem steps 20 20 3 2

repeats_by_key_lem_example :
    (keys (repeats_by_key steps) ≡ unique (map failure_key steps))
    × ((key : Str)
        → lookup key (repeats_by_key steps)
          ≡ as_group (filter (λ d. eqb (failure_key d) key) steps))
repeats_by_key_lem_example = repeats_by_key_lem steps

failing_cluster-last_example :
    option_map (λ (found : List Step × List ℕ). found.0) (failing_cluster steps)
    ≡ some (step 20 "fail" "run" "# Test died: command 'ls' failed" ∷ [])
unfolding group_failures_by_proximity post_fail_start contains
failing_cluster-last_example = failing_cluster-last steps

abbrev pub modules : List Module
modules =
    record {
      place = 0;
      name = some (codes "a");
      category = none;
      result = some (codes "failed");
      details = some steps;
    }
    ∷ record {
      place = 1;
      name = some (codes "b");
      category = none;
      result = some (codes "passed");
      details = none;
    }
    ∷ []

extract_failed_modules_lem_example :
    let found = extract_failed_modules modules false in
    (is_sorted fails_first found ≡ true)
    × (length (filter is_unordered found) ≡ 0)
    × ((p : Module → Bool)
        → length (filter p found)
          ≡ length (filter p (map with_sorted_details (filter (has_failed false) modules))))
extract_failed_modules_lem_example = extract_failed_modules_lem modules false

key_test : failure_key (step 2 "fail" "t" "at 12 of 5") ≡ codes "t|at N of N"
unfolding group_failures_by_proximity post_fail_start contains failure_key is_hex
key_test = refl

bisect_test : bisect_verdict (codes "1. **BISECT**: yes\nRestart: NO") ≡ some true
unfolding bisect_verdict splitlines match_at_start is_space eqb group_of
bisect_test = refl

enforce_test :
    enforce_history_rules (codes "* BISECT: YES, new\nRestart: yes") (some 4)
    ≡ codes
        "BISECT: NO — failed at least 4 times in a row\nRestart: NO — failed at least 4 times in a row"
unfolding enforce_history_rules decimal join splitlines match_at_start is_space eqb group_of
enforce_test = refl
