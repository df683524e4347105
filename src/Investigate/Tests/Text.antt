-- ===== src/Investigate/Tests/Text.antt =====
-- Runs of openqa_llm_investigate/text.py on small inputs.
use mathlib.Core.List.{reverse}
use os_autoinst_scripts.Prelude.{
  ◌≤◌, ◌≡◌, refl, true, false, some, List, [], ◌∷◌, map, filter, length, All,
}
use os_autoinst_scripts.Py.Str.{Str, codes, rstrip, is_space, starts_with, strip}
use os_autoinst_scripts.Py.Num.{is_digit}
use os_autoinst_scripts.Py.Regex.{group_of}
use os_autoinst_scripts.Investigate.Text.Classes.{is_letter}
use os_autoinst_scripts.Investigate.Text.Search.{ipa_search_key}
use os_autoinst_scripts.Investigate.Text.Died.{parse_command_from_test_died}
use os_autoinst_scripts.Investigate.Text.Commands.{without_escapes, parse_command_from_text_data}
use os_autoinst_scripts.Investigate.Text.Redact.{redact}
use os_autoinst_scripts.Investigate.Text.Lines.{trim_stack_frames, squeeze_blank, is_text}
use os_autoinst_scripts.Investigate.Text.Lines.Frames.{Within, shown_frames, trim_stack_frames_lem}
use os_autoinst_scripts.Investigate.Text.Lines.Blank.{tidy, starts_in_text, squeeze_blank_lem}
use os_autoinst_scripts.Investigate.Text.Condense.{condense_log}
use os_autoinst_scripts.Investigate.Text.Condense.Returns.{is_scored, condense_log-returns}

abbrev trace_lines : List Str
trace_lines =
    codes "died" ∷ codes "  f() called at a" ∷ codes "  g() called at b" ∷ codes "end" ∷ []

trim_stack_frames_lem_example :
    Within (shown_frames 1 0 trace_lines) (trim_stack_frames 1 trace_lines)
    × (length (trim_stack_frames 1 trace_lines) ≤ length trace_lines)
trim_stack_frames_lem_example = trim_stack_frames_lem 1 trace_lines

abbrev spaced_lines : List Str
spaced_lines = [] ∷ codes "a  " ∷ [] ∷ [] ∷ codes "b" ∷ [] ∷ []

squeeze_blank_lem_example :
    (filter is_text (squeeze_blank spaced_lines) ≡ map rstrip (filter is_text spaced_lines))
    × (tidy (reverse (squeeze_blank spaced_lines)) ≡ true)
    × (starts_in_text (reverse (squeeze_blank spaced_lines)) ≡ true)
squeeze_blank_lem_example = squeeze_blank_lem spaced_lines

abbrev died : Str
died = codes "# Test died: command 'ls' failed\n--- # stack trace\nf() called at x"

abbrev log_lines : List Str
log_lines =
    codes "[2024-05-01T10:00:00.1Z] no match: 1.0s, best candidate: boot (0.25)"
    ∷ codes "EVENT {x"
    ∷ codes "[2024-05-01T10:00:05.2Z] no match: 2.0s, best candidate: login (0.93)"
    ∷ codes "failed"
    ∷ []

log_lines-is_scored : All (λ raw. is_scored (without_escapes raw) ≡ true) log_lines
unfolding is_scored without_escapes is_digit is_space
log_lines-is_scored = (refl, (refl, (refl, (refl, tt))))

condense_log-returns_example :
    (out : List Str) × (condense_log log_lines false (some 2) ≡ some out) × (length out ≤ 3)
condense_log-returns_example = condense_log-returns log_lines false 2 log_lines-is_scored

condense_test :
    condense_log log_lines false (some 2)
    ≡ some (
        codes
          "[needle search: 2 no-match polls, 2024-05-01T10:00:00.1Z .. 2024-05-01T10:00:05.2Z, best candidate login (0.93)]"
        ∷ codes "failed"
        ∷ [])
unfolding condense_log without_escapes is_digit is_space
condense_test = refl

ipa_test : ipa_search_key (codes "SLES_test_sles") ≡ codes "test_sles"
unfolding ipa_search_key
ipa_test = refl

redact_test :
    redact (codes "curl -u me:x https://h; api_key=abc12")
    ≡ codes "curl -u **** https://h; api_key=****"
unfolding redact is_letter is_space group_of
redact_test = refl

trim_test :
    trim_stack_frames 1 trace_lines
    ≡ codes "died"
      ∷ codes "  f() called at a"
      ∷ codes "  ... (1 more stack frames)"
      ∷ codes "end"
      ∷ []
unfolding trim_stack_frames
trim_test = refl

died_command_test :
    parse_command_from_test_died (codes "# Test died: command 'zypper in x' timed out at lib.pm")
    ≡ some (codes "zypper in x")
unfolding parse_command_from_test_died group_of
died_command_test = refl

text_command_test :
    parse_command_from_text_data (codes "# Command:\n# wait_serial expected: qr/ready \\d(x)/")
    ≡ some []
unfolding parse_command_from_text_data starts_with strip is_space
text_command_test = refl
