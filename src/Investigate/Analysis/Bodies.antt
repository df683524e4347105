-- ===== src/Investigate/Analysis/Bodies.antt =====
-- The text under the failing and the died step of a cluster, and the sections that follow the step
-- context: openqa_llm_investigate/analysis.py. A result is none where `condense_log` raises.
use mathlib.Core.List.{reverse}
use os_autoinst_scripts.Prelude.{
  ℕ, Bool, true, false, ◌&&◌, ◌||◌, Option, none, some, List, [], ◌∷◌, ◌++◌, ◌==◌, if◌then◌else◌,
  filter, any, find, option_map,
}
use os_autoinst_scripts.Prelude.Maybe.{◌>>=◌}
use os_autoinst_scripts.Py.Str.{Str, codes, eqb, strip, split}
use os_autoinst_scripts.Py.Num.{decimal}
use os_autoinst_scripts.Py.Repr.{repr}
use os_autoinst_scripts.Py.Text.{not_empty_text, or_empty}
use os_autoinst_scripts.Py.Regex.{Regex, one, group, search_in, literal, seqs, plus, none_of}
use os_autoinst_scripts.Investigate.Step.{Step, is_fail, text_of, title_of}
use os_autoinst_scripts.Investigate.Text.Commands.{
  group_1, parse_command_from_text_data, filter_text_data_lines,
}
use os_autoinst_scripts.Investigate.Text.Condense.{condense_log}
use os_autoinst_scripts.Investigate.Text.Died.{if_text, parse_command_from_test_died}
use os_autoinst_scripts.Investigate.Text.Noise.{split_died_text}
use os_autoinst_scripts.Investigate.Text.Search.{ipa_search_key}
use os_autoinst_scripts.Investigate.Text.Summary.{step_output_tail}
use os_autoinst_scripts.Investigate.Logs.{
  LogContext, find_in_log, format_log_context, get_serial_tail, log_lines, matched_line,
  command_output,
}
use os_autoinst_scripts.Investigate.History.Header.{or_default}
use os_autoinst_scripts.Investigate.Failures.Commands.{has_died, failing_step}
use os_autoinst_scripts.Investigate.Analysis.Section.{section, masked, stack_trace}

-- `_Job`: the logs of a job and what the sections of its report need
pub record Job : Type 0 where
  pub serial : Str
  pub autoinst : Str
  pub context_lines : ℕ
  pub booted_to_login : Bool

-- `a is b`
abbrev pub same_step : Step → Step → Bool
same_step a b = a.place == b.place

abbrev pub is_step : Step → Option Step → Bool
is_step a none = false
is_step a (some b) = same_step a b

abbrev pub ipa_body : Str → Str → Option LogContext → Option (List Str)
ipa_body key text (some context) = format_log_context context
ipa_body key text none = some (
    (codes "('"
      ++ (key
          ++ (codes "' not found in serial log; raw step result: "
              ++ (repr (strip text) ++ codes ")"))))
    ∷ [])

unfoldable pub ipa_sections : Job → List Step → Str → Option (List Str)
unfolding ipa_search_key find_in_log format_log_context repr strip section
ipa_sections job [] name = some []
ipa_sections job (d ∷ details) name = do
  let step_name = or_default name d.display_title
  let key = ipa_search_key step_name
  body ←
      ipa_body key (text_of d)
        (find_in_log job.serial (some key) job.context_lines (some job.context_lines))
  out ← ipa_sections job details name
  some (section (codes "Serial Terminal Log (IPA test: " ++ (step_name ++ codes ")")) body ++ out)

unfoldable pub ipa_report : Job → List Step → Str → Option (List Str)
unfolding ipa_sections is_fail
ipa_report job all_details name = ipa_sections job (filter is_fail all_details) name

unfoldable pub serial_tail : Job → Option (List Str)
unfolding log_lines get_serial_tail section decimal
serial_tail job =
    option_map
      (section
        (codes "Serial Terminal Log (last " ++ (decimal job.context_lines ++ codes " lines)")))
      (log_lines (get_serial_tail job.serial job.context_lines))

-- The section on a context in the log, if it was found.
abbrev pub context_section : Str → Option LogContext → Option (List Str)
context_section title none = some []
context_section title (some context) = option_map (section title) (format_log_context context)

unfoldable pub publiccloud_context : Job → Option (List Str)
unfolding find_in_log format_log_context section
publiccloud_context job =
    context_section (codes "Serial Terminal Log (img-proof run summary)")
      (find_in_log job.serial (some (codes "FAILED tests=")) job.context_lines (some 5))

abbrev pub autoinst_section : Option LogContext → Option (List Str)
autoinst_section none = some []
autoinst_section (some context) = do
  before ← condense_log context.before true none
  after ← condense_log context.after true none
  some (
      section (codes "autoinst-log.txt (searching for needle failure)")
        (masked before ++ (matched_line context.matched ++ masked after)))

abbrev pub login_note : Bool → List Str
login_note false = []
login_note true =
    codes
      "Note: serial0.txt ends at a login prompt: the system booted but the needle did not match."
    ∷ []
    ∷ []

unfoldable pub needle_context : Job → Str → Option (List Str)
unfolding find_in_log condense_log masked matched_line section
needle_context job needle = do
  out ←
      autoinst_section
        (find_in_log job.autoinst (some needle) job.context_lines (some job.context_lines))
  some (out ++ login_note job.booted_to_login)

-- `no candidate needle with tag\(s\) '[^']+'`, with the match in a group
abbrev pub needle_re : Regex
needle_re = group 1 (
    seqs (
      literal (codes "no candidate needle with tag(s) '")
      ∷ plus (one (none_of (codes "'")))
      ∷ literal (codes "'")
      ∷ []))

-- The needle that a message names, for a job with an autoinst log.
unfoldable pub needle_in : Job → Str → Option Str
unfolding search_in
needle_in job text_data =
    if not_empty_text job.autoinst then option_map group_1 (search_in needle_re text_data) else none

abbrev pub trace_section : List Str → List Str
trace_section [] = []
trace_section (l ∷ trace) = section stack_trace (masked (l ∷ trace))

-- The body of a step and the sections behind it.
abbrev pub Shown : Type 0
Shown = List Str × List Str

abbrev pub with_output : Job → Str → Shown → List Str → Option Shown
with_output job command (body, sections) (l ∷ output) = some (body ++ (l ∷ output), sections)
with_output job command (body, sections) [] = do
  found ←
      context_section (codes "Serial Terminal Log (searching for: " ++ (command ++ codes ")"))
        (find_in_log job.serial (some command) job.context_lines (some job.context_lines))
  some (body, sections ++ found)

abbrev pub died_of_command : Job → Shown → Option Str → Option Shown
died_of_command job (body, sections) none = do tail ← serial_tail job; some (body, sections ++ tail)
died_of_command job shown (some command) = do
  output ← command_output job.serial command 50
  with_output job command shown output

abbrev pub died_of : Job → Str → Shown → Option Str → Option Shown
died_of job text_data (body, sections) (some needle) = do
  context ← needle_context job needle
  some (body, sections ++ context)
died_of job text_data shown none =
    died_of_command job shown (if_text (parse_command_from_test_died text_data))

abbrev pub is_category : Str → Option Str → Bool
is_category name none = false
is_category name (some category) = eqb category name

unfoldable pub died_step : Job → Step → Option Str → Option Shown
unfolding split_died_text section masked publiccloud_context needle_in needle_context
    parse_command_from_test_died command_output find_in_log format_log_context serial_tail eqb
died_step job detail category =
    let text_data = text_of detail in
    let (body, trace) = split_died_text text_data 30 in
    let shown : Shown = (body, trace_section trace) in
    if is_category (codes "publiccloud") category
    then option_map (λ context. (body, trace_section trace ++ context)) (publiccloud_context job)
    else died_of job text_data shown (needle_in job text_data)

abbrev pub command_context : Job → Option Str → Option LogContext
command_context job command = find_in_log job.serial command job.context_lines none

abbrev pub around_command : Job → Str → Option LogContext → Option Shown
around_command job text_data none = some (split 10 (filter_text_data_lines text_data), [])
around_command job text_data (some context) =
    option_map
      (λ lines. (
        [],
        section
            (codes "Serial Terminal Log ("
              ++ (decimal job.context_lines ++ codes " lines before/after)"))
            lines,
      ))
      (format_log_context context)

abbrev pub or_context : Job → Str → List Str → Option Shown
or_context job text_data (l ∷ output) = some (l ∷ output, [])
or_context job text_data [] =
    around_command job text_data (command_context job (parse_command_from_text_data text_data))

unfoldable pub wait_serial_step : Job → Step → Option Shown
unfolding step_output_tail parse_command_from_text_data find_in_log format_log_context section
    filter_text_data_lines decimal split
wait_serial_step job detail = or_context job (text_of detail) (step_output_tail (text_of detail) 50)

unfoldable pub other_step : Job → Step → List Step → Option Shown
unfolding split_died_text section masked has_died serial_tail
other_step job detail cluster =
    let (body, trace) = split_died_text (text_of detail) 30 in
    if not_empty_text (text_of detail)
    then some (body, trace_section trace)
    else if not_empty_text (or_empty detail.screenshot) && any has_died cluster
    then some ([], [])
    else option_map (λ tail. ([], tail)) (serial_tail job)

-- The last step of the cluster that died.
unfoldable pub died_in : List Step → Option Step
unfolding has_died
died_in cluster = find has_died (reverse cluster)

abbrev pub shown_step : Job → List Step → Option Str → Step → Option Shown
shown_step job cluster category step =
    if is_step step (died_in cluster)
    then died_step job step category
    else if eqb (title_of step) (codes "wait_serial")
    then wait_serial_step job step
    else other_step job step cluster

-- The bodies by the places of their steps, and the sections of all of them.
abbrev pub Bodies : Type 0
Bodies = List (ℕ × List Str) × List Str

unfoldable pub bodies_of : Job → List Step → Option Str → List Step → Option Bodies
unfolding died_in died_step wait_serial_step other_step eqb
bodies_of job cluster category [] = some ([], [])
bodies_of job cluster category (step ∷ steps) = do
  shown ← shown_step job cluster category step
  rest ← bodies_of job cluster category steps
  some ((step.place, shown.0) ∷ rest.0, shown.1 ++ rest.1)

-- A body belongs to the failing step and to the died one, which may be the same.
abbrev pub has_body : List Step → Step → Bool
has_body cluster d = is_step d (failing_step cluster) || is_step d (died_in cluster)

unfoldable pub step_bodies : Job → List Step → Option Str → Option Bodies
unfolding failing_step died_in bodies_of
step_bodies job cluster category =
    bodies_of job cluster category (filter (has_body cluster) cluster)
