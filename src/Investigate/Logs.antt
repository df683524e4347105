-- ===== src/Investigate/Logs.antt =====
-- The search in logs of openqa_llm_investigate/logs.py.
pub mod Bounds
pub mod Crash
pub mod Rules
pub mod Signals
pub mod Job
use os_autoinst_scripts.Prelude.{
  ℕ, zero, suc, ◌+◌, ◌-◌, ◌/◌, ◌≡◌, refl, Bool, true, false, ◌&&◌, ◌||◌, not, Option, none, some,
  List, [], ◌∷◌, ◌++◌, map, leb, ltb, ◌==◌, if◌then◌else◌, length, take, drop, last_n, filter,
  last?, option_map,
}
use os_autoinst_scripts.Py.Dict.{or_else}
use os_autoinst_scripts.Py.Str.{Str, codes, eqb, contains, starts_with, strip, rstrip, split}
use os_autoinst_scripts.Py.Num.{decimal, is_digit}
use os_autoinst_scripts.Py.Text.{not_empty_text}
use os_autoinst_scripts.Py.Regex.{
  Regex, Cursor, one, seq, star, lazy_star, group, at_end, is_some, match_at_start, search_in,
  literal, seqs, plus,
}
use os_autoinst_scripts.Investigate.Text.Classes.{not_space}
use os_autoinst_scripts.Investigate.Text.Redact.{redact}
use os_autoinst_scripts.Investigate.Text.Lines.{is_text}
use os_autoinst_scripts.Investigate.Text.Commands.{
  group_1, is_boilerplate_log_line, without_escapes,
}
use os_autoinst_scripts.Investigate.Text.Condense.{condense_log}

-- `LogContext`
pub record LogContext : Type 0 where
  pub before : List Str
  pub matched : Str
  pub after : List Str

unfoldable pub get_serial_tail : Str → ℕ → List Str
unfolding split
get_serial_tail serial_log zero = []
get_serial_tail serial_log (suc n) = last_n (suc n) (split 10 serial_log)

-- `none` is the exception of `condense_log`.
unfoldable pub log_lines : List Str → Option (List Str)
unfolding condense_log redact is_boilerplate_log_line
log_lines lines =
    option_map (λ out. map redact (filter (λ line. not (is_boilerplate_log_line line)) out))
      (condense_log lines false none)

unfoldable pub matched_line : Str → List Str
unfolding redact is_boilerplate_log_line without_escapes
matched_line line =
    if is_boilerplate_log_line line
    then []
    else (codes ">>> " ++ redact (without_escapes line)) ∷ []

abbrev pub around : Option (List Str) → List Str → Option (List Str) → Option (List Str)
around (some before) matched (some after) = some (before ++ (matched ++ after))
around _ _ _ = none

unfoldable pub format_log_context : LogContext → Option (List Str)
unfolding log_lines matched_line
format_log_context context =
    around (log_lines context.before) (matched_line context.matched) (log_lines context.after)

-- The place of the last line with a property.
unfoldable pub last_index : (Str → Bool) → List Str → Option ℕ
last_index p [] = none
last_index p (line ∷ lines) = elim (last_index p lines) [
  | some i ↦ some (suc i)
  | none ↦ if p line then some 0 else none
]

-- `lines[i].strip().startswith("# ")`
unfoldable pub is_command_line : Str → Bool
unfolding strip starts_with
is_command_line line = starts_with (strip line) (codes "# ")

unfoldable pub match_index : List Str → Str → Option ℕ
unfolding last_index contains is_command_line
match_index lines search_string =
    or_else (last_index (λ line. contains line search_string && is_command_line line) lines)
      (last_index (λ line. contains line search_string) lines)

-- `lines[i]` for a place in the list
unfoldable pub line_at : ℕ → List Str → Str
line_at n [] = []
line_at zero (line ∷ lines) = line
line_at (suc n) (line ∷ lines) = line_at n lines

abbrev pub context_at : List Str → ℕ → ℕ → ℕ → LogContext
context_at lines before after idx = record {
  before = drop (idx - before) (take idx lines);
  matched = line_at idx lines;
  after = take after (drop (suc idx) lines);
}

abbrev pub or_before : ℕ → Option ℕ → ℕ
or_before before none = before
or_before before (some after) = after

-- `find_in_log` for a search string, and its default for the lines behind
unfoldable pub find_in_log : Str → Option Str → ℕ → Option ℕ → Option LogContext
unfolding match_index line_at split
find_in_log log_content none before after = none
find_in_log log_content (some []) before after = none
find_in_log log_content (some (c ∷ s)) before after =
    let lines = split 10 log_content in
    option_map (context_at lines before (or_before before after)) (match_index lines (c ∷ s))

-- `echo (\S+?)-\$\?-`
abbrev pub exit_token_re : Regex
exit_token_re = seqs (
    literal (codes "echo ")
    ∷ group 1 (seq not_space (lazy_star not_space))
    ∷ literal (codes "-$?-")
    ∷ [])

-- `^TOKEN-\d+-$`
abbrev pub end_re : Str → Regex
end_re token =
    seqs (literal (token ++ codes "-") ∷ plus (one is_digit) ∷ literal (codes "-") ∷ at_end ∷ [])

abbrev pub is_exit_marker : Option Cursor → Str → Bool
is_exit_marker none line = false
is_exit_marker (some token) line = is_some (match_at_start (end_re (group_1 token)) (strip line))

unfoldable pub ends_output : Option Cursor → Str → Bool
unfolding match_at_start search_in strip rstrip without_escapes
ends_output token raw =
    let line = rstrip (without_escapes raw) in
    is_exit_marker token line || is_some (search_in exit_token_re line)

unfoldable pub output_lines : Option Cursor → List Str → List Str
unfolding ends_output
output_lines token [] = []
output_lines token (raw ∷ lines) =
    let rest = output_lines token lines in if ends_output token raw then [] else raw ∷ rest

-- `body[-max_lines:]` is all of the body for 0.
abbrev pub last_lines : ℕ → List Str → List Str
last_lines zero body = body
last_lines (suc n) body = last_n (suc n) body

unfoldable pub capped_output : ℕ → List Str → List Str
unfolding decimal
capped_output max_lines body =
    if ltb max_lines (length body)
    then (codes "... ("
        ++ (decimal (length body - max_lines) ++ codes " earlier output lines omitted)"))
      ∷ last_lines max_lines body
    else body

abbrev pub output_behind : List Str → ℕ → Option ℕ → Option (List Str)
output_behind lines max_lines none = some []
output_behind lines max_lines (some idx) =
    option_map (λ out. capped_output max_lines (filter is_text out))
      (log_lines
        (output_lines (search_in exit_token_re (line_at idx lines)) (drop (suc idx) lines)))

unfoldable pub command_output : Str → Str → ℕ → Option (List Str)
unfolding match_index search_in line_at output_lines log_lines is_text capped_output split
command_output serial_log command max_lines =
    let lines = split 10 serial_log in output_behind lines max_lines (match_index lines command)

abbrev pub place_of : List Str → Option LogContext → Option ℕ
place_of lines none = none
place_of lines (some found) = last_index (eqb found.matched) lines

unfoldable pub line_index : Str → List Str → Option Str → Option ℕ
unfolding find_in_log last_index eqb
line_index log_content lines marker = place_of lines (find_in_log log_content marker 0 (some 0))

abbrev pub or_fallback : Option ℕ → ℕ
or_fallback none = 200
or_fallback (some n) = n

abbrev pub last_half : ℕ → List Str → List Str
last_half zero span = []
last_half (suc n) span = last_n (suc n) span

unfoldable pub fit : Option ℕ → List Str → List Str
unfolding decimal
fit none span = span
fit (some n) span =
    let half = n / 2 in
    if ltb n (length span)
    then take half span
      ++ ((codes "[..."
            ++ (decimal (length span - n) ++ codes " lines omitted to fit context limit...]"))
          ∷ last_half half span)
    else span

abbrev pub range_from : List Str → Option ℕ → ℕ → Option ℕ → List Str
range_from lines max_lines start none = take (or_fallback max_lines) (drop start lines)
range_from lines max_lines start (some end) =
    if ltb end start
    then take (or_fallback max_lines) (drop start lines)
    else fit max_lines (take (suc end - start) (drop start lines))

unfoldable pub find_log_range : Str → Option Str → Option Str → Option ℕ → Option (List Str)
unfolding line_index fit split
find_log_range log_content start_marker end_marker max_lines =
    let lines = split 10 log_content in
    if not_empty_text log_content
    then option_map
        (λ start. range_from lines max_lines start (line_index log_content lines end_marker))
        (line_index log_content lines start_marker)
    else none
