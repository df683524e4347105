-- ===== src/Investigate/Text/Summary.antt =====
-- The lines that describe a step: openqa_llm_investigate/text.py.
use os_autoinst_scripts.Prelude.{
  ℕ, zero, suc, ◌-◌, Bool, true, ◌&&◌, not, Option, none, some, List, [], ◌∷◌, ◌++◌, map, ltb,
  if◌then◌else◌, length, take, drop, last_n, filter,
}
use os_autoinst_scripts.Py.Str.{Str, codes, starts_with, rstrip, split, join}
use os_autoinst_scripts.Py.Num.{decimal}
use os_autoinst_scripts.Py.Text.{not_empty_text, or_empty, partition_at}
use os_autoinst_scripts.Investigate.Text.Lines.{is_text}
use os_autoinst_scripts.Investigate.Text.Commands.{
  command_of, is_boilerplate, is_boilerplate_log_line, field_of, first_of, without_escapes,
}
use os_autoinst_scripts.Investigate.Step.{Step, is_fail, text_of, title_of}

-- `command`, `marker` and `exit_code` in the loop of `_step_fields`
pub record Found : Type 0 where
  pub command : Option Str
  pub marker : Option Str
  pub exit_code : Option Str

-- `elif line.startswith(mark) and value is None`: the value behind the line, if it is taken
abbrev pub take_field : Str → Str → Option Str → Option Str
take_field mark line (some value) = none
take_field mark line none = field_of mark line

abbrev pub with_exit_code : Found → Option Str → Found
with_exit_code f none = f
with_exit_code f (some e) = record { command = f.command; marker = f.marker; exit_code = some e }

abbrev pub with_marker : Found → Str → Option Str → Found
with_marker f line none = with_exit_code f (take_field (codes "# Exit code:") line f.exit_code)
with_marker f line (some m) = record {
  command = f.command;
  marker = some m;
  exit_code = f.exit_code;
}

abbrev pub with_command : Found → Str → Option Str → Option Str → Found
with_command f line (some cmd) none = record {
  command = if is_boilerplate cmd then none else some cmd;
  marker = f.marker;
  exit_code = f.exit_code;
}
with_command f line (some cmd) (some old) =
    with_marker f line (take_field (codes "# wait_serial expected:") line f.marker)
with_command f line none old =
    with_marker f line (take_field (codes "# wait_serial expected:") line f.marker)

unfoldable pub found_in : Found → List Str → Found
unfolding command_of field_of is_boilerplate
found_in f [] = f
found_in f (line ∷ lines) = found_in (with_command f line (command_of line) f.command) lines

abbrev pub field_text : Str → Option Str → List Str
field_text name none = []
field_text name (some value) = (name ++ (codes ": " ++ value)) ∷ []

unfoldable pub step_fields : Str → List Str
unfolding found_in split
step_fields text_data =
    let f =
      found_in (record { command = none; marker = none; exit_code = none }) (split 10 text_data) in
    field_text (codes "command") f.command
    ++ (field_text (codes "marker") f.marker ++ field_text (codes "exit code") f.exit_code)

unfoldable pub tags_text : List Str → Str
unfolding join decimal
tags_text tags =
    join (codes ", ") (take 3 tags)
    ++ (if ltb 3 (length tags) then codes " (+" ++ (decimal (length tags - 3) ++ codes ")") else [])

abbrev pub percent : Option ℕ → Str
percent none = []
percent (some n) = codes " (" ++ (decimal n ++ codes "%)")

abbrev pub tags_after : List Str → Str
tags_after [] = []
tags_after (tag ∷ tags) = codes "  tags: " ++ tags_text (tag ∷ tags)

abbrev pub unmatched : List Str → Bool → Str
unmatched (tag ∷ tags) true = codes "no match for tags: " ++ tags_text (tag ∷ tags)
unmatched _ _ = []

unfoldable pub screen_info : Step → Str
unfolding tags_text decimal first_of is_fail
screen_info detail =
    let needle = or_empty detail.needle in
    if not_empty_text needle
    then codes "screen match  needle: "
      ++ (needle ++ (percent (first_of (λ a. a) detail.area) ++ tags_after detail.tags))
    else unmatched detail.tags (is_fail detail)

abbrev pub shown_num : Option ℕ → Str
shown_num none = codes "?"
shown_num (some n) = decimal n

-- `f'  {title}' if title else ''`
abbrev pub spaced : Str → Str
spaced [] = []
spaced (c ∷ s) = codes "  " ++ (c ∷ s)

unfoldable pub summary_prefix : Step → Str → Str
unfolding is_fail decimal
summary_prefix detail fail_label =
    codes "#"
    ++ (shown_num detail.num
        ++ ((if is_fail detail then codes " [" ++ (fail_label ++ codes "]") else [])
            ++ spaced (title_of detail)))

-- `text_data.split("\n")[0][:120]`
abbrev pub first_line : List Str → Str
first_line [] = []
first_line (line ∷ lines) = take 120 line

abbrev pub screenshot_note : Str → Str
screenshot_note screenshot = codes "  (screenshot: " ++ (screenshot ++ codes ")")

unfoldable pub summary_rest : Step → List Str → Str
unfolding screen_info is_fail join split
summary_rest detail (field ∷ fields) = codes "  " ++ join (codes "  ") (field ∷ fields)
summary_rest detail [] =
    let text_data = text_of detail in
    let info = screen_info detail in
    let screenshot = or_empty detail.screenshot in
    if not_empty_text text_data
    then codes "  " ++ first_line (split 10 text_data)
    else if not_empty_text info
    then codes "  "
      ++ (info
          ++ (if is_fail detail && not_empty_text screenshot
              then screenshot_note screenshot
              else []))
    else if not_empty_text screenshot
    then screenshot_note screenshot
    else []

unfoldable pub format_step_summary_line : Step → Str → Str
unfolding summary_prefix summary_rest step_fields
format_step_summary_line detail fail_label =
    summary_prefix detail fail_label ++ summary_rest detail (step_fields (text_of detail))

-- A line of output as it is shown: no escapes, no white space behind it, 200 characters at most.
unfoldable pub shown_line : Str → Str
unfolding without_escapes rstrip
shown_line line = take 200 (rstrip (without_escapes line))

unfoldable pub is_output : Str → Bool
unfolding is_text starts_with is_boilerplate_log_line
is_output line =
    is_text line
    && not (starts_with line (codes "# Exit code:"))
    && not (is_boilerplate_log_line line)

-- `body[-n:]`, which is all of it for n = 0
abbrev pub last_or_all {ℓ} : {A : Type ℓ} → ℕ → List A → List A
last_or_all zero body = body
last_or_all (suc n) body = last_n (suc n) body

unfoldable pub tail_of : ℕ → List Str → List Str
unfolding decimal
tail_of n body =
    if ltb n (length body)
    then (codes "... (" ++ (decimal (length body - n) ++ codes " earlier output lines omitted)"))
      ∷ last_or_all n body
    else body

unfoldable pub step_output_tail : Str → ℕ → List Str
unfolding partition_at shown_line is_output tail_of split
step_output_tail text_data n = elim (partition_at (codes "# Result:\n") text_data) [
  | none ↦ []
  | some parts ↦ tail_of n (filter is_output (map shown_line (drop 1 (split 10 parts.1))))
]

-- `_capped` writes the same note.
unfoldable pub record_info_body : Str → ℕ → List Str
unfolding shown_line is_text split decimal
record_info_body text_data max_lines =
    let lines = map shown_line (filter is_text (split 10 text_data)) in
    if ltb max_lines (length lines)
    then take max_lines lines
      ++ ((codes "... (" ++ (decimal (length lines - max_lines) ++ codes " more lines)")) ∷ [])
    else lines
