-- ===== src/Investigate/Analysis/Context.antt =====
-- The steps around a cluster, and its report: openqa_llm_investigate/analysis.py.
use os_autoinst_scripts.Prelude.{
  ℕ, zero, suc, ◌-◌, Bool, false, ◌&&◌, not, Option, none, some, List, [], ◌∷◌, ◌++◌, map, leb, ltb,
  ◌==◌, if◌then◌else◌, length, take, drop, last_n, filter, any, last?,
}
use os_autoinst_scripts.Py.Dict.{or_else}
use os_autoinst_scripts.Py.Str.{Str, codes, contains}
use os_autoinst_scripts.Py.Num.{decimal}
use os_autoinst_scripts.Py.Text.{not_empty_text}
use os_autoinst_scripts.Investigate.Step.{Step, num_of, is_fail, text_of, title_of}
use os_autoinst_scripts.Investigate.Text.Commands.{has_command}
use os_autoinst_scripts.Investigate.Text.Lines.{is_text}
use os_autoinst_scripts.Investigate.Text.Redact.{redact}
use os_autoinst_scripts.Investigate.Text.Summary.{
  format_step_summary_line, record_info_body, shown_num, step_output_tail,
}
use os_autoinst_scripts.Investigate.History.{squeeze_spaces, drop_space, member}
use os_autoinst_scripts.Investigate.Failures.{is_secondary, post_fail_start}
use os_autoinst_scripts.Investigate.Failures.Commands.{
  failing_step, is_command_step, is_record_info,
}
use os_autoinst_scripts.Investigate.Analysis.Bodies.{same_step, is_step}

-- The first line goes if the line of the step shows it.
abbrev pub without_shown : Str → List Str → List Str
without_shown head [] = []
without_shown head (l ∷ body) = if contains head l then body else l ∷ body

abbrev pub or_lines : List Str → List Str → List Str
or_lines [] other = other
or_lines (l ∷ lines) other = l ∷ lines

-- The line of a step, and those under it.
abbrev pub step_text : Step → Bool → ℕ → Str → List Str → Str × List Str
step_text step output info_lines fail_label failure =
    let head = format_step_summary_line step fail_label in
    let body = without_shown head (filter is_text failure) in
    if is_record_info step
    then (
      codes "#"
          ++ (shown_num step.num
              ++ (codes "  " ++ drop_space (squeeze_spaces false (title_of step)))),
      record_info_body (text_of step) info_lines,
    )
    else (head, or_lines body (if output then step_output_tail (text_of step) 5 else []))

unfoldable pub step_lines : Step → Bool → ℕ → Str → List Str → List Str
unfolding is_record_info squeeze_spaces record_info_body format_step_summary_line is_text contains
    step_output_tail redact
step_lines step output info_lines fail_label failure =
    let (head, body) = step_text step output info_lines fail_label failure in
    (codes "  " ++ redact head) ∷ map (λ line. codes "    " ++ redact line) body

-- A failed step without a text.
abbrev pub is_bare : Step → Bool
is_bare d = is_fail d && not (not_empty_text (text_of d))

abbrev pub first_bare : Option Step → Step → Option Step
first_bare run d = if is_bare d then or_else run (some d) else none

-- `run` is the first of the bare failed steps that stand right above.
unfoldable pub marker_from : Option Step → List Step → Step → Option Step
unfolding is_fail
marker_from run [] failing = none
marker_from run (d ∷ shown) failing =
    let later = marker_from (first_bare run d) shown failing in
    if same_step d failing then or_else run (some d) else later

unfoldable pub marker_step : List Step → Step → Option Step
unfolding marker_from
marker_step shown failing = marker_from none shown failing

abbrev pub marker_in : List Step → Option Step → Option Step
marker_in shown none = none
marker_in shown (some failing) = marker_step shown failing

unfoldable pub fail_label : Step → List Step → Option ℕ → Str
unfolding is_secondary
fail_label step cluster post_start =
    if any (λ d. same_step d step) cluster
    then codes "FAIL"
    else if is_secondary step post_start
    then codes "FAIL, post-fail hook"
    else codes "FAIL, non-fatal"

abbrev pub body_at : ℕ → List (ℕ × List Str) → Option (List Str)
body_at n [] = none
body_at n ((k, body) ∷ bodies) = elim (body_at n bodies) [
  | some later ↦ some later
  | none ↦ if k == n then some body else none
]

abbrev pub has : ℕ → List (ℕ × List Str) → Bool
has n bodies = any (λ (b : ℕ × List Str). b.0 == n) bodies

abbrev pub places : List Step → List ℕ
places steps = map (λ (d : Step). d.place) steps

-- The sets of `_step_context`, and what it calls for each step.
pub record Plan : Type 0 where
  pub marker : Option Step
  pub hidden : List ℕ
  pub with_output : List ℕ
  pub with_info : List ℕ
  pub post_start : Option ℕ
  pub bodies : List (ℕ × List Str)

-- `steps[half:-half]` of a long cluster, without the steps that have a body and the marked one
abbrev pub hidden_places : List Step → List (ℕ × List Str) → Option Step → List ℕ
hidden_places steps bodies marker =
    if ltb 8 (length steps)
    then places (
        filter (λ d. not (has d.place bodies) && not (is_step d marker))
          (take (length steps - 8) (drop 4 steps)))
    else []

unfoldable pub plan_of :
    List Step → List Step → List Step → List Step → List Step → List (ℕ × List Str) → Plan
unfolding marker_step failing_step is_command_step is_record_info has_command post_fail_start
plan_of all_details cluster before steps after bodies =
    let marker = marker_in (before ++ (steps ++ after)) (failing_step cluster) in
    record {
      marker = marker;
      hidden = hidden_places steps bodies marker;
      with_output =
          places (last_n 5 (filter is_command_step before))
          ++ places (filter (λ d. has_command (text_of d)) after);
      with_info = places (last_n 5 (filter is_record_info before)) ++ places after;
      post_start = post_fail_start all_details;
      bodies = bodies;
    }

abbrev pub omitted : ℕ → List Str
omitted zero = []
omitted (suc n) = (codes "  ... (" ++ (decimal (suc n) ++ codes " steps omitted)")) ∷ []

abbrev pub failure_marker : Str
failure_marker = codes "  >>> The next step is the one that failed the test <<<"

abbrev pub or_no_lines : Option (List Str) → List Str
or_no_lines none = []
or_no_lines (some lines) = lines

abbrev pub lines_of_step : Plan → List Step → Step → List Str
lines_of_step plan cluster step =
    (if is_step step plan.marker then failure_marker ∷ [] else [])
    ++ step_lines step (member step.place plan.with_output)
        (if member step.place plan.with_info then 30 else 2)
        (fail_label step cluster plan.post_start) (or_no_lines (body_at step.place plan.bodies))

-- The loop, with how many steps have been skipped since the last that is shown.
unfoldable pub shown_steps : Plan → List Step → ℕ → List Step → List Str
unfolding step_lines fail_label decimal
shown_steps plan cluster skipped [] = []
shown_steps plan cluster skipped (step ∷ steps) =
    let skip = shown_steps plan cluster (suc skipped) steps in
    let show = shown_steps plan cluster 0 steps in
    if member step.place plan.hidden
    then skip
    else omitted skipped ++ (lines_of_step plan cluster step ++ show)

-- The numbers of the first and the last step of a cluster.
abbrev pub low_of : List Step → ℕ
low_of [] = 0
low_of (d ∷ ds) = num_of d

abbrev pub high_of : List Step → ℕ
high_of cluster = elim (last? cluster) [ none ↦ 0 | some d ↦ num_of d ]

abbrev pub cluster_span : List Step → List Step → List Step
cluster_span all_details cluster =
    filter (λ d. leb (low_of cluster) (num_of d) && leb (num_of d) (high_of cluster)) all_details

unfoldable pub step_context :
    List Step → List Step → List Step → List Step → List (ℕ × List Str) → List Str
unfolding plan_of shown_steps
step_context all_details cluster before after bodies =
    let steps = cluster_span all_details cluster in
    let plan = plan_of all_details cluster before steps after bodies in
    codes "Step context (last 20 command/needle/record_info steps)"
    ∷ (shown_steps plan cluster 0 (before ++ (steps ++ after)) ++ ([] ∷ []))
