-- ===== src/Investigate/Text/Noise.antt =====
-- `clean_died_text` and `split_died_text` of openqa_llm_investigate/text.py.
use os_autoinst_scripts.Prelude.{
  ℕ, suc, Bool, ◌&&◌, ◌||◌, Option, none, some, List, [], ◌∷◌, ◌++◌, map, ltb, if◌then◌else◌,
  length,
}
use os_autoinst_scripts.Py.Str.{Str, codes, starts_with, contains, strip, split, join}
use os_autoinst_scripts.Py.Num.{is_digit, decimal}
use os_autoinst_scripts.Py.Dict.{Dict, lookup, insert}
use os_autoinst_scripts.Py.Text.{in_lines, lines_before, lines_behind}
use os_autoinst_scripts.Py.Regex.{
  Regex, Cursor, one, alt, star, group, at_start, word_edge, is_word, is_some, match_at_start,
  search_in, sub, literal, seqs, plus, optional, times,
}
use os_autoinst_scripts.Investigate.Text.Classes.{alts, space, not_space, no_space_nor}
use os_autoinst_scripts.Investigate.Text.Commands.{dot, group_1, without_escapes}
use os_autoinst_scripts.Investigate.Text.Lines.{
  stack_frames_shown, stack_trace_mark, trim_stack_frames, capped, drop_redundant_footer,
  squeeze_blank, is_text,
}

-- `/usr/lib/(?:os-autoinst|perl5)/|Mojo::IOLoop|\b(?:autotest|basetest)::|OpenQA::Isotovideo`
abbrev pub noise_frame_re : Regex
noise_frame_re = alts (
    seqs (
      literal (codes "/usr/lib/")
      ∷ alt (literal (codes "os-autoinst")) (literal (codes "perl5"))
      ∷ literal (codes "/")
      ∷ [])
    ∷ literal (codes "Mojo::IOLoop")
    ∷ seqs (
        word_edge
        ∷ alt (literal (codes "autotest")) (literal (codes "basetest"))
        ∷ literal (codes "::")
        ∷ [])
    ∷ literal (codes "OpenQA::Isotovideo")
    ∷ [])

unfoldable pub is_framework_line : Str → Bool
unfolding starts_with contains search_in
is_framework_line line =
    starts_with line (codes "EVENT {")
    || (contains line (codes " called at ") && is_some (search_in noise_frame_re line))

abbrev pub digits : ℕ → Regex
digits n = times n (one is_digit)

-- `^\d{4}-\d\d-\d\d \d\d:\d\d:\d\d <\d> `
abbrev pub zypp_line_re : Regex
zypp_line_re = seqs (
    at_start
    ∷ digits 4
    ∷ literal (codes "-")
    ∷ digits 2
    ∷ literal (codes "-")
    ∷ digits 2
    ∷ literal (codes " ")
    ∷ digits 2
    ∷ literal (codes ":")
    ∷ digits 2
    ∷ literal (codes ":")
    ∷ digits 2
    ∷ literal (codes " <")
    ∷ digits 1
    ∷ literal (codes "> ")
    ∷ [])

-- `Exception\.cc\(log\):\d+ \S+ THROW:\s+(.*)`
abbrev pub zypp_throw_re : Regex
zypp_throw_re = seqs (
    literal (codes "Exception.cc(log):")
    ∷ plus (one is_digit)
    ∷ literal (codes " ")
    ∷ plus not_space
    ∷ literal (codes " THROW:")
    ∷ plus space
    ∷ group 1 (star dot)
    ∷ [])

-- `https?://([^/\s'")]+)\S*`
abbrev pub url_re : Regex
url_re = seqs (
    literal (codes "http")
    ∷ optional (literal (codes "s"))
    ∷ literal (codes "://")
    ∷ group 1 (plus (no_space_nor (codes "/'\")")))
    ∷ star not_space
    ∷ [])

-- `out` and `zypp`: the lines so far, and under each key its message and how often it came
abbrev pub Collapsed : Type 0
Collapsed = List Str × Dict (Str × ℕ)

abbrev pub throw_onto : Collapsed → Str → Str → Option (Str × ℕ) → Collapsed
throw_onto (out, zypp) key msg (some (first, n)) = (out, insert key (first, suc n) zypp)
throw_onto (out, zypp) key msg none = (out ++ (key ∷ []), insert key (msg, 1) zypp)

abbrev pub throw_of : Collapsed → Option Cursor → Collapsed
throw_of c none = c
throw_of c (some m) =
    let msg = strip (group_1 m) in
    let key = sub url_re group_1 msg in throw_onto c key msg (lookup key c.1)

unfoldable pub collapse_line : Collapsed → Str → Collapsed
unfolding is_framework_line match_at_start search_in sub strip lookup insert
collapse_line c line =
    if is_framework_line line
    then c
    else if is_some (match_at_start zypp_line_re line)
    then throw_of c (search_in zypp_throw_re line)
    else (c.0 ++ (line ∷ []), c.1)

unfoldable pub collapse_lines : Collapsed → List Str → Collapsed
unfolding collapse_line
collapse_lines c [] = c
collapse_lines c (line ∷ lines) = collapse_lines (collapse_line c line) lines

-- A line that is a key, even one that came as it is, is shown with its count.
abbrev pub shown_throw : Str → Option (Str × ℕ) → Str
shown_throw line none = line
shown_throw line (some (msg, n)) =
    msg ++ (if ltb 1 n then codes " (x" ++ (decimal n ++ codes ")") else [])

unfoldable pub collapse_zypp : Str → List Str
unfolding collapse_lines lookup decimal split
collapse_zypp text =
    let c = collapse_lines ([], []) (split 10 text) in
    map (λ line. shown_throw line (lookup line c.1)) c.0

-- `re.sub(r"\?credentials=\w+", "", text)`
unfoldable pub without_credentials : Str → Str
unfolding sub
without_credentials text =
    sub (seqs (literal (codes "?credentials=") ∷ plus (one is_word) ∷ [])) (λ c. []) text

unfoldable pub clean_died_text : Str → ℕ → Str
unfolding without_credentials without_escapes collapse_zypp drop_redundant_footer squeeze_blank
    trim_stack_frames capped join
clean_died_text text max_lines =
    let lines = collapse_zypp (without_credentials (without_escapes text)) in
    join (10 ∷ []) (
      capped (trim_stack_frames stack_frames_shown (squeeze_blank (drop_redundant_footer lines)))
        max_lines)

-- The parts before and behind the mark; without one all lines are the message.
abbrev pub split_at_mark : List Str → List Str × List Str
split_at_mark lines =
    if in_lines stack_trace_mark lines
    then (lines_before stack_trace_mark lines, lines_behind stack_trace_mark lines)
    else (lines, [])

unfoldable pub split_died_text : Str → ℕ → List Str × List Str
unfolding is_text clean_died_text in_lines lines_before lines_behind split capped
split_died_text text max_lines =
    let lines = split 10 (clean_died_text text (length (split 10 text))) in
    let parts = split_at_mark lines in
    if is_text text then (capped parts.0 max_lines, capped parts.1 max_lines) else ([], [])
