-- ===== src/Investigate/Text/Condense.antt =====
-- `condense_log` of openqa_llm_investigate/text.py.
pub mod Returns
use os_autoinst_scripts.Prelude.{
  ℕ, zero, suc, ◌+◌, ◌-◌, ◌*◌, ◌/◌, ◌%◌, ◌^◌, ◌≡◌, refl, Bool, true, false, ◌&&◌, ◌||◌, not, Option,
  none, some, List, [], ◌∷◌, ◌++◌, leb, ltb, ◌==◌, if◌then◌else◌, length, last?,
}
use os_autoinst_scripts.Py.Str.{Str, codes, is_space, contains, strip, partition}
use os_autoinst_scripts.Py.Num.{decimal, is_digit, all_digits, int_from}
use os_autoinst_scripts.Py.Text.{not_empty_text}
use os_autoinst_scripts.Py.Regex.{
  Regex, Cursor, empty, one, seq, alt, star, group, at_start, at_end, word_edge, ahead, is_word,
  is_some, match_at_start, search_in, group_of, literal, seqs, plus, optional, times, one_of,
}
use os_autoinst_scripts.Investigate.Text.Classes.{alts, not_space}
use os_autoinst_scripts.Investigate.Text.Commands.{dot, group_1, without_escapes}
use os_autoinst_scripts.Investigate.Text.Noise.{is_framework_line, digits}
use os_autoinst_scripts.Investigate.Text.Lines.{stack_frames_shown, keep_tail, trim_stack_frames}
use os_autoinst_scripts.Investigate.Text.Polls.{Polls, no_polls, log_ts_re, add, summary}

-- `^(?=.*OA:)[\w:~-]+$`
abbrev pub oa_marker_re : Regex
oa_marker_re = seqs (
    ahead true (seq (star dot) (literal (codes "OA:")))
    ∷ plus (one (λ c. is_word c || one_of (codes ":~-") c))
    ∷ at_end
    ∷ [])

abbrev pub keep_debug_re : Regex
keep_debug_re = alts (
    literal (codes "record_info")
    ∷ literal (codes "died")
    ∷ literal (codes "_handle_found_needle")
    ∷ seqs (
        literal (codes "<<< testapi::")
        ∷ alts (
            literal (codes "assert_script_run")
            ∷ literal (codes "script_run")
            ∷ literal (codes "script_output")
            ∷ literal (codes "assert_screen")
            ∷ literal (codes "check_screen")
            ∷ literal (codes "assert_and_click")
            ∷ literal (codes "send_key")
            ∷ literal (codes "enter_cmd")
            ∷ literal (codes "select_console")
            ∷ [])
        ∷ word_edge
        ∷ [])
    ∷ [])

unfoldable pub is_noise_line : Str → Bool
unfolding match_at_start strip is_framework_line
is_noise_line line = is_some (match_at_start oa_marker_re (strip line)) || is_framework_line line

unfoldable pub is_droppable_debug : Str → Bool
unfolding contains search_in
is_droppable_debug line =
    contains line (codes "serial_screen::read_until: Matched")
    || (contains line (codes "[debug]") && not (is_some (search_in keep_debug_re line)))

-- The variables of the loop.
pub record Condensed : Type 0 where
  pub out : List Str
  pub polls : Polls
  pub poll_at : Option ℕ
  pub dropping : Bool

abbrev pub with_dropping : Condensed → Bool → Condensed
with_dropping c b = record { out = c.out; polls = c.polls; poll_at = c.poll_at; dropping = b }

abbrev pub with_line : Condensed → Str → Condensed
with_line c line = record {
  out = c.out ++ (line ∷ []);
  polls = c.polls;
  poll_at = c.poll_at;
  dropping = c.dropping;
}

-- A poll line: the first keeps a place for the summary.
abbrev pub with_poll : Condensed → Polls → Option ℕ → Condensed
with_poll c polls none = record {
  out = c.out ++ ([] ∷ []);
  polls = polls;
  poll_at = some (length c.out);
  dropping = c.dropping;
}
with_poll c polls (some at) = record {
  out = c.out;
  polls = polls;
  poll_at = some at;
  dropping = c.dropping;
}

-- The rest of a round, behind `polls.add`.
abbrev pub placed : Bool → Condensed → Str → Option (Bool × Polls) → Option Condensed
placed droppable c line none = none
placed droppable c line (some (true, polls)) = some (with_poll c polls c.poll_at)
placed droppable c line (some (false, polls)) =
    some (if droppable then with_dropping c true else with_line c line)

-- A round of the loop for a line without escapes; none is the exception for a score.
unfoldable pub round : Bool → Condensed → Str → Option Condensed
unfolding is_noise_line match_at_start add is_droppable_debug
round autoinst c line =
    let stamped = is_some (match_at_start log_ts_re line) in
    let d = if autoinst && stamped then with_dropping c false else c in
    if is_noise_line line
    then some c
    else if autoinst && (not stamped && c.dropping)
    then some c
    else placed (autoinst && (stamped && is_droppable_debug line)) d line (add d.polls line)

abbrev pub bind {ℓ κ} : {A : Type ℓ} {B : Type κ} → Option A → (A → Option B) → Option B
bind none f = none
bind (some a) f = f a

unfoldable pub rounds : Bool → Condensed → List Str → Option Condensed
unfolding round without_escapes
rounds autoinst c [] = some c
rounds autoinst c (raw ∷ lines) =
    bind (round autoinst c (without_escapes raw)) (λ d. rounds autoinst d lines)

-- `out[at] = line`
unfoldable pub set_at : ℕ → Str → List Str → List Str
set_at n line [] = []
set_at zero line (l ∷ ls) = line ∷ ls
set_at (suc n) line (l ∷ ls) = l ∷ set_at n line ls

abbrev pub with_summary : Condensed → Option ℕ → List Str
with_summary c none = c.out
with_summary c (some at) = set_at at (summary c.polls) c.out

abbrev pub begun : Condensed
begun = record { out = []; polls = no_polls; poll_at = none; dropping = false }

abbrev pub finished : Option ℕ → Option Condensed → Option (List Str)
finished max_lines none = none
finished max_lines (some c) =
    some (trim_stack_frames stack_frames_shown (keep_tail (with_summary c c.poll_at) max_lines))

unfoldable pub condense_log : List Str → Bool → Option ℕ → Option (List Str)
unfolding rounds set_at summary trim_stack_frames keep_tail
condense_log lines autoinst max_lines = finished max_lines (rounds autoinst begun lines)
