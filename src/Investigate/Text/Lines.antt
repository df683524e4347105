-- ===== src/Investigate/Text/Lines.antt =====
-- The functions on lists of lines of openqa_llm_investigate/text.py.
pub mod Frames
pub mod Blank
use mathlib.Core.List.{reverse}
use os_autoinst_scripts.Prelude.{
  ℕ, zero, suc, ◌+◌, ◌-◌, ◌≡◌, refl, Bool, true, false, ◌&&◌, not, Option, none, some, List, [],
  ◌∷◌, ◌++◌, leb, ltb, if◌then◌else◌, length, take, drop, last_n, filter, all,
}
use os_autoinst_scripts.Py.Str.{Str, codes, strip, lstrip, rstrip, contains, join}
use os_autoinst_scripts.Py.Num.{decimal}
use os_autoinst_scripts.Py.Text.{in_lines, lines_before, lines_behind, not_empty_text}

abbrev pub stack_frames_shown : ℕ
stack_frames_shown = 5

abbrev pub stack_trace_mark : Str
stack_trace_mark = codes "--- # stack trace"

unfoldable pub is_frame : Str → Bool
unfolding contains
is_frame line = contains line (codes " called at ")

-- `line[: len(line) - len(line.lstrip())]`
unfoldable pub indent : Str → Str
unfolding lstrip
indent line = take (length line - length (lstrip line)) line

-- `flush`: the note for the frames that were skipped, if any
unfoldable pub flushed : List Str → List Str
unfolding indent decimal
flushed [] = []
flushed (line ∷ skipped) =
    (indent line
      ++ (codes "... (" ++ (decimal (length (line ∷ skipped)) ++ codes " more stack frames)")))
    ∷ []

-- The loop, from the length of the present run of frames and the frames skipped in it.
unfoldable pub trim_from : ℕ → ℕ → List Str → List Str → List Str
unfolding is_frame flushed
trim_from keep run skipped [] = flushed skipped
trim_from keep run skipped (line ∷ lines) =
    let skip = trim_from keep (suc run) (skipped ++ (line ∷ [])) lines in
    let show = trim_from keep (suc run) skipped lines in
    let other = trim_from keep 0 [] lines in
    if is_frame line
    then (if ltb keep (suc run) then skip else line ∷ show)
    else flushed skipped ++ (line ∷ other)

unfoldable pub trim_stack_frames : ℕ → List Str → List Str
unfolding trim_from
trim_stack_frames keep lines = trim_from keep 0 [] lines

unfoldable pub keep_tail : List Str → Option ℕ → List Str
unfolding decimal
keep_tail lines none = lines
keep_tail lines (some max_lines) =
    if leb (length lines) max_lines
    then lines
    else (codes "[... "
        ++ (decimal (length lines - max_lines) ++ codes " earlier lines omitted ...]"))
      ∷ last_n max_lines lines

unfoldable pub capped : List Str → ℕ → List Str
unfolding decimal
capped lines max_lines =
    if ltb max_lines (length lines)
    then take max_lines lines
      ++ ((codes "... (" ++ (decimal (length lines - max_lines) ++ codes " more lines)")) ∷ [])
    else lines

-- `line.strip()` as a condition
unfoldable pub is_text : Str → Bool
unfolding strip
is_text line = not_empty_text (strip line)

-- A footer is dropped if it has a line that is not blank and all of those stand above it.
unfoldable pub drop_redundant_footer : List Str → List Str
unfolding in_lines lines_before lines_behind join contains is_text
drop_redundant_footer lines =
    if in_lines stack_trace_mark lines
    then (let tail = filter is_text (lines_behind stack_trace_mark lines) in
        let above = lines_before stack_trace_mark lines in
        let rest = join (10 ∷ []) above in
        if ltb 0 (length tail) && all (contains rest) tail then above else lines)
    else lines

-- `out and out[-1].strip()`, for the lines from the last to the first
abbrev pub ends_in_text : List Str → Bool
ends_in_text [] = false
ends_in_text (line ∷ out) = is_text line

-- The loop, with what it has put out from the last line to the first.
unfoldable pub squeeze_onto : List Str → List Str → List Str
unfolding is_text rstrip
squeeze_onto out [] = out
squeeze_onto out (line ∷ lines) =
    let kept = squeeze_onto (rstrip line ∷ out) lines in
    let rest = squeeze_onto out lines in
    if is_text line then kept else if ends_in_text out then kept else rest

-- `while out and not out[-1].strip(): out.pop()`
unfoldable pub pop_blank : List Str → List Str
unfolding is_text
pop_blank [] = []
pop_blank (line ∷ out) = let rest = pop_blank out in if is_text line then line ∷ out else rest

unfoldable pub squeeze_blank : List Str → List Str
unfolding squeeze_onto pop_blank
squeeze_blank lines = reverse (pop_blank (squeeze_onto [] lines))
