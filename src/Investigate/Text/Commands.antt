-- ===== src/Investigate/Text/Commands.antt =====
-- The commands in the text of a step: openqa_llm_investigate/text.py.
use os_autoinst_scripts.Prelude.{
  Bool, false, ◌||◌, not, Option, none, some, List, [], ◌∷◌, ◌==◌, if◌then◌else◌, filter, any,
  option_map,
}
use os_autoinst_scripts.Py.Str.{Str, codes, starts_with, strip, split, join}
use os_autoinst_scripts.Py.Num.{is_digit}
use os_autoinst_scripts.Py.Dict.{or_else}
use os_autoinst_scripts.Py.Text.{replace, trim_left, trim_right}
use os_autoinst_scripts.Py.Regex.{
  Regex, Cursor, one, seq, alt, star, group, word_edge, is_some, match_at_start, search_in, sub,
  group_of, literal, seqs, plus, one_of, none_of,
}
use os_autoinst_scripts.Investigate.Text.Classes.{
  alts, is_letter, space, not_space, script_finished_re,
}

-- `.` and `.*`
abbrev pub dot : Regex
dot = one (λ c. not (c == 10))

-- `echo \S+;\s*bash\b.*\s/tmp/\S+`
abbrev pub boilerplate_re : Regex
boilerplate_re = seqs (
    literal (codes "echo ")
    ∷ plus not_space
    ∷ literal (codes ";")
    ∷ star space
    ∷ literal (codes "bash")
    ∷ word_edge
    ∷ star dot
    ∷ space
    ∷ literal (codes "/tmp/")
    ∷ plus not_space
    ∷ [])

unfoldable pub is_boilerplate_log_line : Str → Bool
unfolding search_in
is_boilerplate_log_line line = is_some (search_in boilerplate_re line)

unfoldable pub is_boilerplate : Str → Bool
unfolding match_at_start
is_boilerplate cmd = is_some (match_at_start boilerplate_re cmd)

-- `\x1b\][^\x07\x1b]*(?:\x07|\x1b\\)|\x1b\[[0-9;?=!]*[A-Za-z]|\x1b[()][0-9A-Za-z]|\x1b[=>78]`
abbrev pub esc_re : Regex
esc_re =
    let esc = one (λ c. c == 0x1b) in
    let bell = one (λ c. c == 7) in
    alts (
      seqs (
        esc
        ∷ literal (codes "]")
        ∷ star (one (λ c. not ((c == 7) || (c == 0x1b))))
        ∷ alt bell (seq esc (literal (codes "\\")))
        ∷ [])
      ∷ seqs (
          esc
          ∷ literal (codes "[")
          ∷ star (one (λ c. is_digit c || one_of (codes ";?=!") c))
          ∷ one is_letter
          ∷ [])
      ∷ seqs (esc ∷ one (one_of (codes "()")) ∷ one (λ c. is_digit c || is_letter c) ∷ [])
      ∷ seq esc (one (one_of (codes "=>78")))
      ∷ [])

-- `ESC_RE.sub("", s)`
unfoldable pub without_escapes : Str → Str
unfolding sub
without_escapes s = sub esc_re (λ c. []) s

unfoldable pub without_finish : Str → Str
unfolding sub
without_finish s = sub script_finished_re (λ c. []) s

-- `line.replace(mark, "")` of a line that starts with the mark, stripped
unfoldable pub field_of : Str → Str → Option Str
unfolding starts_with replace strip
field_of mark line = if starts_with line mark then some (strip (replace line mark [])) else none

unfoldable pub command_of : Str → Option Str
unfolding starts_with replace without_finish strip
command_of line =
    if starts_with line (codes "# Command:")
    then some (strip (without_finish (replace line (codes "# Command:") [])))
    else none

unfoldable pub strip_quotes : Str → Str
unfolding trim_left trim_right
strip_quotes s = trim_right (one_of (codes "\"'")) (trim_left (one_of (codes "\"'")) s)

-- `qr/((?:[^(\\]|\\.)*)\(`
abbrev pub qr_prefix_re : Regex
qr_prefix_re = seqs (
    literal (codes "qr/")
    ∷ group 1 (star (alt (one (none_of (codes "(\\"))) (seq (literal (codes "\\")) dot)))
    ∷ literal (codes "(")
    ∷ [])

abbrev pub group_1 : Cursor → Str
group_1 c = group_of 1 c.groups

unfoldable pub expected_command : Str → Str
unfolding match_at_start without_finish strip_quotes replace
expected_command expected = elim (match_at_start qr_prefix_re expected) [
  | some qr ↦ group_1 qr
  | none ↦
      replace (replace (without_finish (strip_quotes expected)) (codes "\\$") (codes "$"))
        (codes "\\\\") (codes "\\")
]

-- The command of a line, if it has one that is not the wrapper of the script runner.
unfoldable pub own_command : Str → Option Str
unfolding command_of is_boilerplate
own_command line = elim (command_of line) [
  | none ↦ none
  | some cmd ↦ if is_boilerplate cmd then none else some cmd
]

unfoldable pub has_command : Str → Bool
unfolding own_command split
has_command text_data = any (λ line. is_some (own_command line)) (split 10 text_data)

-- The first that a function finds in a list.
unfoldable pub first_of {ℓ κ} : {A : Type ℓ} {B : Type κ} → (A → Option B) → List A → Option B
first_of f [] = none
first_of f (x ∷ xs) = or_else (f x) (first_of f xs)

unfoldable pub parse_command_from_text_data : Str → Option Str
unfolding own_command first_of field_of expected_command split
parse_command_from_text_data text_data =
    let lines = split 10 text_data in
    or_else (first_of own_command lines)
      (option_map expected_command (first_of (field_of (codes "# wait_serial expected:")) lines))

-- A line is dropped if it is a `# Command:` line of the script runner.
unfoldable pub is_wrapper_line : Str → Bool
unfolding command_of is_boilerplate
is_wrapper_line line = elim (command_of line) [ none ↦ false | some cmd ↦ is_boilerplate cmd ]

unfoldable pub filter_text_data_lines : Str → Str
unfolding without_escapes is_wrapper_line split join
filter_text_data_lines text_data =
    join (10 ∷ [])
      (filter (λ line. not (is_wrapper_line line)) (split 10 (without_escapes text_data)))

unfoldable pub parse_exit_code_from_text_data : Str → Option Str
unfolding first_of field_of split
parse_exit_code_from_text_data text_data =
    first_of (field_of (codes "# Exit code:")) (split 10 text_data)
