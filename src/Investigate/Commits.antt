-- ===== src/Investigate/Commits.antt =====
-- The test commits since the last good job: openqa_llm_investigate/commits.py.
pub mod Files
pub mod Overview
use os_autoinst_scripts.Prelude.{
  ℕ, zero, suc, ◌+◌, ◌-◌, ◌*◌, Bool, true, false, ◌&&◌, ◌||◌, not, Option, none, some, List, [],
  ◌∷◌, ◌++◌, map, leb, ltb, ◌==◌, if◌then◌else◌, length, take, filter, any,
}
use os_autoinst_scripts.Py.Str.{Str, codes, strip, splitlines, join, starts_with}
use os_autoinst_scripts.Py.Num.{decimal, is_digit, int_from}
use os_autoinst_scripts.Py.Sort.{sort_by}
use os_autoinst_scripts.Py.Text.{in_lines}
use os_autoinst_scripts.Py.Regex.{
  Regex, Cursor, one, seq, star, group, at_start, at_end, match_at_start, search_in, sub, literal,
  seqs, plus, none_of,
}
use os_autoinst_scripts.Investigate.Text.Classes.{space}
use os_autoinst_scripts.Investigate.Text.Commands.{dot, group_1}
use os_autoinst_scripts.Investigate.Text.Redact.{redact}
use os_autoinst_scripts.Investigate.Failures.Modules.{Module}
use os_autoinst_scripts.Investigate.Commits.Files.{
  Commit, stack_files, module_files, commits, is_file,
}

-- The answer of `investigation_ajax`, where it is an object: its git log and the note on the diff, each
-- if it is a text.
pub record Investigation : Type 0 where
  pub test_log : Option Str
  pub test_diff_stat : Option Str

-- `^Too many commits \(\d+\) .*\(maximum: (\d+)\)$`
abbrev pub too_many_re : Regex
too_many_re = seqs (
    literal (codes "Too many commits (")
    ∷ plus (one is_digit)
    ∷ literal (codes ") ")
    ∷ star dot
    ∷ literal (codes "(maximum: ")
    ∷ group 1 (plus (one is_digit))
    ∷ literal (codes ")")
    ∷ at_end
    ∷ [])

-- `^(?:\[[^\]\n]*\]\s*)+`
abbrev pub leading_tags_re : Regex
leading_tags_re = seq at_start (
    plus (
      seqs (
        literal (codes "[")
        ∷ star (one (none_of (codes "]\n")))
        ∷ literal (codes "]")
        ∷ star space
        ∷ [])))

abbrev pub failed_module : Str
failed_module = codes "[failed module]"

abbrev pub stack : Str
stack = codes "[stack]"

abbrev pub title : Str
title = codes "Test commits since the last good job:"

abbrev pub legend : Str
legend =
    codes
      "[failed module]: changes the failed module's test file; [stack]: changes a file in the failing step's stack trace"

-- The commit changes the test file of a failed module: so does one of its files.
abbrev pub is_module_file : List Str → Str × ℕ → Bool
is_module_file paths f = any (λ path. is_file f.0 f.1 path false) paths

abbrev pub is_frame_file : List Str → Str × ℕ → Bool
is_frame_file frames f = any (λ frame. is_file f.0 f.1 frame true) frames

-- `f not in modules` for a file of the commit says that it is the file of no failed module.
unfoldable pub marks : List (Str × ℕ) → List Str → List Str → List Str
unfolding is_file
marks files paths frames =
    let modules = filter (is_module_file paths) files in
    let others = filter (λ f. not (is_module_file paths f)) files in
    (if ltb 0 (length modules) then failed_module ∷ [] else [])
    ++ (if any (is_frame_file frames) others then stack ∷ [] else [])

unfoldable pub plural : ℕ → Str
plural n = if n == 1 then codes "test commit" else codes "test commits"

abbrev pub count_text : ℕ → Str → List Str
count_text n what = if n == 0 then [] else (decimal n ++ (codes " " ++ what)) ∷ []

-- `others or more`
abbrev pub or_more : ℕ → ℕ → ℕ
or_more zero more = more
or_more (suc n) more = suc n

abbrev pub rest_line : ℕ → List Str → List Str
rest_line n [] = []
rest_line n (c ∷ counts) =
    (codes "and " ++ (join (codes ", ") (c ∷ counts) ++ (codes " " ++ plural n))) ∷ []

unfoldable pub rest : ℕ → ℕ → List Str
unfolding decimal join plural
rest more others =
    rest_line (or_more others more)
      (count_text more (codes "more marked") ++ count_text others (codes "other"))

-- The limit of openQA's list is twice the maximum that its note on the diff names.
abbrev pub limit_of : Option Cursor → ℕ
limit_of none = 0
limit_of (some m) = 2 * int_from 0 (group_1 m)

abbrev pub limit_in : Option Str → ℕ
limit_in none = 0
limit_in (some stat) = limit_of (match_at_start too_many_re stat)

unfoldable pub partial_note : Option Str → ℕ → List Str
unfolding match_at_start int_from decimal
partial_note stat listed =
    let limit = limit_in stat in
    if ltb 0 limit && leb limit listed
    then (codes "The list is partial: openQA lists at most "
        ++ (decimal limit ++ codes " test commits."))
      ∷ []
    else []

-- A commit with its marks.
abbrev pub Marked : Type 0
Marked = List Str × Commit

abbrev pub touches_module : Marked → Bool
touches_module m = in_lines failed_module m.0

-- In the order of `_FAILED_MODULE not in marks`
abbrev pub leb_marked : Marked → Marked → Bool
leb_marked m n = touches_module m || not (touches_module n)

abbrev pub is_marked : Marked → Bool
is_marked ([], c) = false
is_marked (m ∷ ms, c) = true

abbrev pub with_marks : List Str → List Str → Commit → Marked
with_marks paths frames c = (marks c.files paths frames, c)

unfoldable pub marked_commits : List Commit → List Str → List Str → List Marked
unfolding marks sort_by in_lines
marked_commits found paths frames =
    sort_by leb_marked (filter is_marked (map (with_marks paths frames) found))

unfoldable pub shown_commit : Marked → Str
unfolding join sub
shown_commit m =
    join (codes " ") (m.0 ++ (m.1.sha ∷ sub leading_tags_re (λ c. []) m.1.subject ∷ []))

-- What the section says of the commits: those that are listed, and how many marked and other ones
-- are only counted.
pub record Summary : Type 0 where
  pub shown : List Str
  pub more : ℕ
  pub others : ℕ

unfoldable pub summary : List Commit → List Str → List Str → Summary
unfolding marked_commits shown_commit
summary found paths frames =
    let marked = marked_commits found paths frames in
    let shown = map shown_commit (take 10 marked) in
    record {
      shown = shown;
      more = length marked - length shown;
      others = length found - length marked;
    }

unfoldable pub listed_lines : Summary → List Str
unfolding rest plural decimal
listed_lines s =
    if ltb 0 (length s.shown)
    then title ∷ legend ∷ (s.shown ++ rest s.more s.others)
    else title ∷ (decimal s.others ++ (codes " " ++ plural s.others)) ∷ []

abbrev pub section_of : List Commit → List Str → List Str → Option Str → Str
section_of [] paths frames stat = []
section_of (c ∷ found) paths frames stat = redact (
    join (10 ∷ [])
      (listed_lines (summary (c ∷ found) paths frames) ++ partial_note stat (length (c ∷ found)))
    ++ codes "\n\n")

abbrev pub section_for : Option Str → Option Str → List Module → Str → Str
section_for none stat testresults analysis = []
section_for (some log) stat testresults analysis =
    if starts_with log (codes "No test changes recorded")
    then redact (title ++ (codes "\n" ++ (strip log ++ codes "\n\n")))
    else section_of (commits log) (module_files testresults) (stack_files analysis) stat

-- `commits_section`, of an answer that is an object or not
unfoldable pub commits_section : Option Investigation → List Module → Str → Str
unfolding starts_with redact strip commits summary listed_lines partial_note join module_files
    stack_files
commits_section none testresults analysis = []
commits_section (some investigation) testresults analysis =
    section_for investigation.test_log investigation.test_diff_stat testresults analysis
