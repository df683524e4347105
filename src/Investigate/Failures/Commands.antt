-- ===== src/Investigate/Failures/Commands.antt =====
-- The command of a failing step, and the kinds of steps: openqa_llm_investigate/failures.py.
use mathlib.Core.List.{reverse}
use os_autoinst_scripts.Prelude.{
  Bool, true, false, ◌&&◌, ◌||◌, not, Option, none, some, List, [], ◌∷◌, ◌++◌, if◌then◌else◌,
  filter, any, find, drop, last?, option_map,
}
use os_autoinst_scripts.Py.Dict.{or_else}
use os_autoinst_scripts.Py.Str.{Str, codes, eqb, starts_with, contains, strip, split}
use os_autoinst_scripts.Py.Text.{not_empty_text, in_lines, or_empty}
use os_autoinst_scripts.Py.Regex.{
  Regex, Cursor, one, seq, alt, at_end, is_some, match_at_start, search_in, literal, seqs, plus,
  one_of,
}
use os_autoinst_scripts.Investigate.Text.Classes.{not_space}
use os_autoinst_scripts.Investigate.Text.Redact.{redact}
use os_autoinst_scripts.Investigate.Text.Lines.{is_text}
use os_autoinst_scripts.Investigate.Text.Commands.{
  group_1, has_command, parse_command_from_text_data, parse_exit_code_from_text_data,
}
use os_autoinst_scripts.Investigate.Text.Died.{quoted, if_text, parse_command_from_test_died}
use os_autoinst_scripts.Investigate.Step.{Step, is_fail, text_of, title_of}

abbrev pub testapi_screen_calls : List Str
testapi_screen_calls =
    codes "assert_screen"
    ∷ codes "check_screen"
    ∷ codes "assert_and_click"
    ∷ codes "wait_screen_change"
    ∷ codes "assert_screen_change"
    ∷ codes "wait_still_screen"
    ∷ codes "assert_still_screen"
    ∷ []

abbrev pub command_markers : List Str
command_markers =
    codes "# Command:" ∷ codes "# wait_serial" ∷ codes "# Result:" ∷ codes "# Test died:" ∷ []

unfoldable pub has_died : Step → Bool
unfolding contains
has_died d = contains (text_of d) (codes "# Test died:")

unfoldable pub extract_test_died_errors : List Step → List Step
unfolding has_died
extract_test_died_errors details = filter has_died details

abbrev pub screen_call : Str → Option Cursor → Bool → Str
screen_call title (some c) true = title ++ (codes "('" ++ (group_1 c ++ codes "')"))
screen_call title _ _ = title

unfoldable pub screen_command : Str → Str → Str
unfolding search_in in_lines
screen_command title text_data =
    screen_call title
      (or_else
        (search_in (seqs (one (one_of (codes "Nn")) ∷ literal (codes "eedle ") ∷ quoted ∷ []))
          text_data)
        (search_in (seq (literal (codes "no candidate needle with tag(s) ")) quoted) text_data))
      (in_lines title testapi_screen_calls)

-- A command with its exit code, if it has one.
abbrev pub Command : Type 0
Command = Str × Option Str

abbrev pub exit_only : Option Str → Option Command
exit_only none = none
exit_only (some code) = some (codes "(exit " ++ (code ++ codes ")"), some code)

abbrev pub serial_command : Option Str → Option Str → Option Command
serial_command none exit_code = exit_only exit_code
serial_command (some cmd) exit_code = some (redact cmd, exit_code)

unfoldable pub step_command : Step → Option Command
unfolding has_died screen_command redact eqb parse_command_from_test_died
    parse_command_from_text_data parse_exit_code_from_text_data
step_command detail =
    let text = text_of detail in
    let title = title_of detail in
    if has_died detail
    then option_map (λ cmd. (redact cmd, none)) (if_text (parse_command_from_test_died text))
    else if eqb title (codes "wait_serial")
    then serial_command (if_text (parse_command_from_text_data text))
        (parse_exit_code_from_text_data text)
    else if not_empty_text title
    then some (screen_command title text, none)
    else none

unfoldable pub failure_kind : Step → Str → Str
unfolding starts_with has_died has_command eqb
failure_kind step cmd =
    if starts_with cmd (codes "no candidate needle")
    then codes "needle check"
    else if has_died step || has_command (text_of step)
    then codes "command"
    else if eqb (title_of step) (codes "wait_serial")
    then codes "wait_serial marker"
    else codes "step"

-- The steps of a cluster from the last that died, or the last, back to the first.
unfoldable pub from_last_died : List Step → List Step
unfolding has_died
from_last_died [] = []
from_last_died (d ∷ back) = let rest = from_last_died back in if has_died d then d ∷ back else rest

unfoldable pub steps_back : List Step → List Step
unfolding from_last_died has_died
steps_back cluster =
    let back = reverse cluster in if any has_died back then from_last_died back else back

-- A command that is more than an exit code.
unfoldable pub own_entry : Step → Option (Step × Command)
unfolding step_command starts_with
own_entry step = elim (step_command step) [
  | none ↦ none
  | some entry ↦ if starts_with entry.0 (codes "(exit ") then none else some (step, entry)
]

unfoldable pub first_entry : List Step → Option (Step × Command)
unfolding own_entry
first_entry [] = none
first_entry (d ∷ ds) = or_else (own_entry d) (first_entry ds)

unfoldable pub failing_command : List Step → Option (Step × Command)
unfolding steps_back first_entry
failing_command cluster = first_entry (steps_back cluster)

-- The last step that died, else the last one; none for a cluster without steps, which has no last.
unfoldable pub failing_step : List Step → Option Step
unfolding failing_command has_died
failing_step cluster =
    or_else (option_map (λ (found : Step × Command). found.0) (failing_command cluster))
      (or_else (find has_died (reverse cluster)) (last? cluster))

abbrev pub exit_note : Option Str → Str
exit_note none = codes "."
exit_note (some code) = codes " (exit " ++ (code ++ codes ").")

unfoldable pub failing_command_line : List Step → Option Str
unfolding failing_command failure_kind
failing_command_line cluster =
    option_map
      (λ (found : Step × Command).
        codes "The module has been failed by: \""
        ++ (found.1.0 ++ (codes "\" " ++ (failure_kind found.0 found.1.0 ++ exit_note found.1.1))))
      (failing_command cluster)

-- `^(?:clear|curl -f -v \S+/current_script > \S+)$`
abbrev pub transfer_cmd_re : Regex
transfer_cmd_re =
    seq
      (alt (literal (codes "clear")) (
        seqs (
          literal (codes "curl -f -v ")
          ∷ plus not_space
          ∷ literal (codes "/current_script > ")
          ∷ plus not_space
          ∷ [])))
      at_end

-- The first `# Command:` line decides.
unfoldable pub is_transfer : List Str → Bool
unfolding starts_with match_at_start strip
is_transfer [] = false
is_transfer (line ∷ lines) =
    let rest = is_transfer lines in
    if starts_with line (codes "# Command:")
    then is_some (match_at_start transfer_cmd_re (strip (drop 10 line)))
    else rest

unfoldable pub is_noise_step : Step → Bool
unfolding is_transfer is_fail split
is_noise_step step =
    let text = text_of step in
    if is_fail step || not_empty_text (or_empty step.needle)
    then false
    else if not_empty_text text
    then is_transfer (split 10 text)
    else not (not_empty_text (title_of step))

unfoldable pub is_command_step : Step → Bool
unfolding contains
is_command_step step = contains (text_of step) (codes "# Result:")

unfoldable pub is_record_info : Step → Bool
unfolding is_fail is_text contains
is_record_info step =
    not (is_fail step)
    && not_empty_text (title_of step)
    && is_text (text_of step)
    && not (any (contains (text_of step)) command_markers)
