-- ===== src/Investigate/Analysis/Cluster.antt =====
-- The report on a cluster: openqa_llm_investigate/analysis.py.
use os_autoinst_scripts.Prelude.{
  ℕ, suc, ◌-◌, ◌*◌, Bool, true, not, Option, none, some, List, [], ◌∷◌, ◌++◌, map, leb, ltb, ◌==◌,
  if◌then◌else◌, length, take, last_n, filter, last?, find, option_map,
}
use os_autoinst_scripts.Prelude.Maybe.{◌>>=◌}
use os_autoinst_scripts.Py.Dict.{or_else}
use os_autoinst_scripts.Py.Str.{Str, codes, join}
use os_autoinst_scripts.Py.Num.{decimal}
use os_autoinst_scripts.Py.Text.{not_empty_text}
use os_autoinst_scripts.Investigate.Step.{Step, num_of, text_of}
use os_autoinst_scripts.Investigate.Text.Commands.{first_of, has_command}
use os_autoinst_scripts.Investigate.Text.Condense.{condense_log}
use os_autoinst_scripts.Investigate.Text.Died.{if_text}
use os_autoinst_scripts.Investigate.Text.Search.{extract_search_string_from_step}
use os_autoinst_scripts.Investigate.Logs.{find_log_range}
use os_autoinst_scripts.Investigate.History.{member}
use os_autoinst_scripts.Investigate.Failures.{get_context_steps}
use os_autoinst_scripts.Investigate.Failures.Commands.{is_noise_step}
use os_autoinst_scripts.Investigate.Failures.Repeats.{Group, group_repeated_failures, repeat_note}
use os_autoinst_scripts.Investigate.Analysis.Section.{section, masked}
use os_autoinst_scripts.Investigate.Analysis.Bodies.{Job, step_bodies}
use os_autoinst_scripts.Investigate.Analysis.Context.{
  has, or_no_lines, low_of, high_of, step_context,
}

abbrev own_num : List ℕ → List Step → Option ℕ
own_num nums shown = option_map num_of (find (λ s. member (num_of s) nums) shown)

abbrev pub note_of : List ℕ → List ℕ → Option ℕ → List Str
note_of nums repeats none = []
note_of nums [] (some own) = []
note_of nums (n ∷ repeats) (some own) = repeat_note (filter (λ k. not (k == own)) nums) ∷ []

abbrev pub notes_of : List Step → List Group → List Str
notes_of shown [] = []
notes_of shown ((first, repeats) ∷ groups) =
    let nums = num_of first ∷ repeats in
    note_of nums repeats (own_num nums shown) ++ notes_of shown groups

unfoldable pub repeat_notes : List Step → List Step → List Str
unfolding group_repeated_failures repeat_note
repeat_notes cluster shown = notes_of shown (group_repeated_failures cluster)

-- `steps[-n:] and cluster[0]`
abbrev pub first_list : List Step → List Step
first_list [] = []
first_list (d ∷ ds) = d ∷ []

abbrev pub or_last : List Step → List Step → Option Step
or_last after cluster = or_else (last? after) (last? cluster)

abbrev pub section_if : List Str → List Str
section_if [] = []
section_if (l ∷ lines) = section (codes "autoinst-log.txt (step context)") (masked (l ∷ lines))

unfoldable pub autoinst_range : Job → List Step → List Step → List Step → Option (List Str)
unfolding extract_search_string_from_step first_of find_log_range condense_log section masked
autoinst_range job cluster before after =
    let anchors = last_n 5 before ++ first_list cluster in
    let start = first_of (λ d. if_text (extract_search_string_from_step (some d))) anchors in
    let end = extract_search_string_from_step (or_last after cluster) in
    let log_range = find_log_range job.autoinst start end (some (2 * job.context_lines)) in
    let lines = condense_log (or_no_lines log_range) true (some job.context_lines) in
    if not_empty_text job.autoinst then option_map section_if lines else some []

-- The loop, with how many commands have been seen.
unfoldable pub until_commands : ℕ → ℕ → List Step → List Step
unfolding has_command
until_commands n seen [] = []
until_commands n seen (step ∷ steps) =
    let one_more = until_commands n (suc seen) steps in
    let same = until_commands n seen steps in
    if has_command (text_of step)
    then (if leb n (suc seen) then step ∷ [] else step ∷ one_more)
    else if leb n seen
    then step ∷ []
    else step ∷ same

unfoldable pub steps_until_commands : List Step → ℕ → List Step
unfolding until_commands
steps_until_commands steps n = until_commands n 0 steps

abbrev pub retry_lines : List ℕ → List Str
retry_lines [] = []
retry_lines (n ∷ retries) =
    let all = n ∷ retries in
    (codes "The failure below was retried "
      ++ (decimal (length all)
          ++ (codes " more times before this attempt: "
              ++ (join (codes ", ") (map (λ n. codes "#" ++ decimal n) (take 5 all))
                  ++ (if ltb 5 (length all)
                      then codes " ... (+" ++ (decimal (length all - 5) ++ codes ")")
                      else [])))))
    ∷ []
    ∷ []

abbrev pub is_shown_step : Step → Bool
is_shown_step d = not (is_noise_step d)

unfoldable pub cluster_report :
    Job → List Step → List Step → List ℕ → Option Str → Option (List Str)
unfolding get_context_steps is_noise_step steps_until_commands step_bodies repeat_notes step_context
    autoinst_range decimal join
cluster_report job all_details cluster retries category = do
  let around = get_context_steps all_details (low_of cluster) (high_of cluster) 70 30
  let before = last_n 20 (filter is_shown_step around.0)
  let after = steps_until_commands (filter is_shown_step around.1) 3
  found ← step_bodies job cluster category
  range ← autoinst_range job cluster before (take 3 after)
  some (
      retry_lines retries
      ++ (repeat_notes cluster (filter (λ d. has d.place found.0) cluster)
          ++ (step_context all_details cluster before after found.0 ++ (range ++ found.1))))
