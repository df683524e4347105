-- ===== src/Investigate/Commits/Files.antt =====
-- The files that commits and stack traces name: openqa_llm_investigate/commits.py.
use os_autoinst_scripts.Prelude.{
  ℕ, ◌-◌, Bool, false, ◌&&◌, ◌||◌, not, Option, none, some, List, [], ◌∷◌, ◌++◌, map, leb, ◌==◌,
  if◌then◌else◌, length, drop, filter, any,
}
use os_autoinst_scripts.Py.Str.{
  Str, codes, eqb, contains, is_space, remove_prefix, split, splitlines, join,
}
use os_autoinst_scripts.Py.Num.{is_digit}
use os_autoinst_scripts.Py.Path.{normpath}
use os_autoinst_scripts.Py.Text.{in_lines, not_empty_text, or_empty, partition_at, unique}
use os_autoinst_scripts.Py.Regex.{
  Regex, Cursor, one, seq, star, group, at_start, at_end, word_edge, is_some, match_at_start,
  search_in, find_all, group_of, sub, literal, seqs, plus, optional, times, up_to, lazy_up_to,
  none_of,
}
use os_autoinst_scripts.Investigate.Text.Classes.{alts, not_space}
use os_autoinst_scripts.Investigate.Text.Commands.{dot, group_1}
use os_autoinst_scripts.Investigate.Failures.Modules.{Module}
use os_autoinst_scripts.Investigate.Analysis.Section.{
  stack_trace, section_end, test_died, section_start,
}

-- The hash and the subject of a commit, and its changed files: the name of each as `--stat` shows it
-- and the width of the column of names.
pub record Commit : Type 0 where
  pub sha : Str
  pub subject : Str
  pub files : List (Str × ℕ)

-- `^([0-9a-f]{7,40})(?: (.*))?$`
abbrev pub commit_re : Regex
commit_re =
    let hex = one (λ c. is_digit c || (leb 97 c && leb c 102)) in
    seqs (
      group 1 (seq (times 7 hex) (up_to 33 hex))
      ∷ optional (seq (literal (codes " ")) (group 2 (star dot)))
      ∷ at_end
      ∷ [])

-- `^ (\S[^|]{0,400}?) +\| `
abbrev pub stat_re : Regex
stat_re = seqs (
    literal (codes " ")
    ∷ group 1 (seq not_space (lazy_up_to 400 (one (none_of (codes "|")))))
    ∷ plus (literal (codes " "))
    ∷ literal (codes "| ")
    ∷ [])

-- `^(.*)\{(.*) => (.*)\}(.*)$`
abbrev pub rename_re : Regex
rename_re = seqs (
    group 1 (star dot)
    ∷ literal (codes "{")
    ∷ group 2 (star dot)
    ∷ literal (codes " => ")
    ∷ group 3 (star dot)
    ∷ literal (codes "}")
    ∷ group 4 (star dot)
    ∷ at_end
    ∷ [])

-- `\bat (\S{1,400}) line \d+`
abbrev pub frame_re : Regex
frame_re = seqs (
    word_edge
    ∷ literal (codes "at ")
    ∷ group 1 (seq not_space (up_to 399 not_space))
    ∷ literal (codes " line ")
    ∷ plus (one is_digit)
    ∷ [])

-- `^/usr/|/os-autoinst/|/perl5/`
abbrev pub not_test_code_re : Regex
not_test_code_re = alts (
    seq at_start (literal (codes "/usr/"))
    ∷ literal (codes "/os-autoinst/")
    ∷ literal (codes "/perl5/")
    ∷ [])

abbrev pub begins_blank : Str → Bool
begins_blank [] = false
begins_blank (c ∷ s) = is_space c

unfoldable pub has_frame : Str → Bool
unfolding search_in
has_frame line = is_some (search_in frame_re line)

unfoldable pub frames_in : Str → List Str
unfolding find_all normpath
frames_in line = map (λ c. normpath (group_1 c)) (find_all frame_re line)

-- The loop, with whether it is in a section of a stack trace and below a `# Test died` message.
unfoldable pub frame_files : Bool → Bool → List Str → List Str
unfolding eqb contains section_start has_frame frames_in is_space
frame_files in_trace in_died [] = []
frame_files in_trace in_died (line ∷ lines) =
    let trace = eqb line (section_start stack_trace) || (in_trace && not (eqb line section_end)) in
    let died = contains line test_died || (in_died && begins_blank line && has_frame line) in
    let later = frame_files trace died lines in
    if trace || died then frames_in line ++ later else later

unfoldable pub stack_files : Str → List Str
unfolding frame_files splitlines unique search_in
stack_files analysis =
    filter (λ f. not (is_some (search_in not_test_code_re f)))
      (unique (frame_files false false (splitlines analysis)))

-- `name` without `#\d+` behind it
abbrev pub without_repeat : Str → Str
without_repeat name =
    sub (seqs (literal (codes "#") ∷ plus (one is_digit) ∷ at_end ∷ [])) (λ c. []) name

unfoldable pub files_of_module : Module → List Str
unfolding sub eqb
files_of_module m =
    let path =
      codes "tests/" ++ (or_empty m.category ++ (codes "/" ++ without_repeat (or_empty m.name))) in
    if eqb (or_empty m.result) (codes "failed")
      && not_empty_text (or_empty m.category)
      && not_empty_text (or_empty m.name)
    then (path ++ codes ".pm") ∷ (path ++ codes ".py") ∷ []
    else []

-- The set of files, as a list.
unfoldable pub module_files : List Module → List Str
unfolding files_of_module
module_files [] = []
module_files (m ∷ modules) = files_of_module m ++ module_files modules

-- `found[-1][2].append(file)`
unfoldable pub add_file : Str × ℕ → List Commit → List Commit
add_file f [] = []
add_file f (c ∷ []) = record { sha = c.sha; subject = c.subject; files = c.files ++ (f ∷ []) } ∷ []
add_file f (c ∷ d ∷ found) = c ∷ add_file f (d ∷ found)

-- `ln.index(" | ") - 1`; no path is shown in a column of width 0 or -1.
abbrev pub name_width : Str → ℕ
name_width line = elim (partition_at (codes " | ") line) [
  | none ↦ 0
  | some parts ↦ length parts.0 - 1
]

abbrev pub add_stat : Str → Option Cursor → List Commit → List Commit
add_stat line none found = found
add_stat line (some m) found = add_file (group_1 m, name_width line) found

abbrev pub add_line : Str → Option Cursor → List Commit → List Commit
add_line line none found = add_stat line (match_at_start stat_re line) found
add_line line (some m) found =
    found ++ (record { sha = group_1 m; subject = group_of 2 m.groups; files = [] } ∷ [])

unfoldable pub commits_from : List Commit → List Str → List Commit
unfolding match_at_start add_file group_of partition_at
commits_from found [] = found
commits_from found (line ∷ lines) =
    commits_from (add_line line (match_at_start commit_re line) found) lines

unfoldable pub commits : Str → List Commit
unfolding commits_from splitlines
commits log = commits_from [] (splitlines log)

-- `kept[kept.index("/"):]` if there is a slash, else all of it
abbrev pub from_slash : Str → Str → Str
from_slash kept [] = kept
from_slash kept (c ∷ s) = if c == b'/' then c ∷ s else from_slash kept s

-- The path as `--stat` shows it in a column of `width`.
unfoldable pub abbreviated : Str → ℕ → Str
abbreviated path width =
    let kept = drop (length path - (width - 3)) path in
    if leb (length path) width then path else codes "..." ++ from_slash kept kept

-- The tails of a path with two components at least.
unfoldable pub tails_of : List Str → List Str
unfolding join
tails_of [] = []
tails_of (p ∷ []) = []
tails_of (p ∷ q ∷ parts) = join (codes "/") (p ∷ q ∷ parts) ∷ tails_of (q ∷ parts)

unfoldable pub tails : Str → List Str
unfolding tails_of split
tails path = tails_of (split b'/' path)

-- `re.sub(r"/+", "/", s)`
abbrev pub single_slashes : Str → Str
single_slashes s = sub (plus (one (λ c. c == b'/'))) (λ c. codes "/") s

abbrev pub renamed : Cursor → ℕ → Str
renamed m n = single_slashes (group_of 1 m.groups ++ (group_of n m.groups ++ group_of 4 m.groups))

abbrev pub split_rename : Str → Option (Str × Str) → List Str
split_rename name none = name ∷ []
split_rename name (some (old, new)) = old ∷ new ∷ []

unfoldable pub sides : Str → List Str
unfolding match_at_start sub group_of partition_at
sides name = elim (match_at_start rename_re name) [
  | none ↦ split_rename name (partition_at (codes " => ") name)
  | some m ↦ renamed m 2 ∷ renamed m 3 ∷ []
]

unfoldable pub same_side : Str → Str → Bool → Bool
unfolding remove_prefix eqb tails in_lines
same_side side path prefixed =
    let tail = remove_prefix side (codes ".../") in
    if eqb tail side && not prefixed then eqb path side else in_lines tail (tails path)

unfoldable pub is_file : Str → ℕ → Str → Bool → Bool
unfolding contains sides same_side eqb abbreviated tails
is_file name width path prefixed =
    let paths = if prefixed then tails path else path ∷ [] in
    if contains name (codes " => ")
    then any (λ side. same_side side path prefixed) (sides name)
    else any (λ p. eqb name (abbreviated p width)) paths
