-- ===== src/Investigate/Uploads.antt =====
-- The files that a job uploaded: openqa_llm_investigate/uploads.py.
pub mod Widgets
pub mod Collect
pub mod Dedupe
use os_autoinst_scripts.Prelude.{
  ℕ, zero, suc, ◌+◌, ◌-◌, ◌≡◌, refl, Bool, true, false, ◌&&◌, ◌||◌, not, Option, none, some, List,
  [], ◌∷◌, ◌++◌, map, leb, ltb, ◌==◌, if◌then◌else◌, length, take, drop, filter, any, last_n,
}
use os_autoinst_scripts.Py.Str.{
  Str, codes, eqb, contains, starts_with, ends_with, is_space, rstrip, split,
}
use os_autoinst_scripts.Py.Num.{decimal, is_digit}
use os_autoinst_scripts.Py.Dict.{Dict, lookup, insert}
use os_autoinst_scripts.Py.Sort.{sort_by}
use os_autoinst_scripts.Py.Text.{in_lines, leb_text}
use os_autoinst_scripts.Py.Regex.{
  Regex, one, seq, alt, star, at_start, at_end, word_edge, is_some, search_in, sub, literal,
  literal_ci, seqs, plus, optional, one_of, none_of,
}
use os_autoinst_scripts.Investigate.Text.Classes.{alts, space, is_hex}
use os_autoinst_scripts.Investigate.Text.Commands.{dot, without_escapes}
use os_autoinst_scripts.Investigate.Text.Lines.{is_text}
use os_autoinst_scripts.Investigate.Text.Noise.{digits}
use os_autoinst_scripts.Investigate.Text.Summary.{last_or_all}
use os_autoinst_scripts.Investigate.Failures.Repeats.{syslog_prefix_re}

-- `(?:\.txt|\.log|-widgets\.json|^[^.]*)$`
abbrev pub upload_text_re : Regex
upload_text_re =
    seq
      (alts (
        literal (codes ".txt")
        ∷ literal (codes ".log")
        ∷ literal (codes "-widgets.json")
        ∷ seq at_start (star (one (none_of (codes "."))))
        ∷ []))
      at_end

-- `\b(?:error|failed|denied|denies|avc|segfault|fatal|panic|oops)\b` without regard to case
abbrev pub journal_signal_re : Regex
journal_signal_re = seqs (
    word_edge
    ∷ alts (
        map literal_ci (
          codes "error"
          ∷ codes "failed"
          ∷ codes "denied"
          ∷ codes "denies"
          ∷ codes "avc"
          ∷ codes "segfault"
          ∷ codes "fatal"
          ∷ codes "panic"
          ∷ codes "oops"
          ∷ []))
    ∷ word_edge
    ∷ [])

-- `^[\s│╷╵]+`
abbrev pub box_re : Regex
box_re =
    seq at_start (plus (one (λ c. is_space c || (c == 0x2502) || (c == 0x2577) || (c == 0x2575))))

-- `console|zypper\.log|rpm[-_](?:qa|list)`
abbrev pub skip_upload_re : Regex
skip_upload_re = alts (
    literal (codes "console")
    ∷ literal (codes "zypper.log")
    ∷ seqs (
        literal (codes "rpm")
        ∷ one (one_of (codes "-_"))
        ∷ alt (literal (codes "qa")) (literal (codes "list"))
        ∷ [])
    ∷ [])

-- `^\[[\s\d.]+\]\s*` and `^\d{4}-\d\d-\d\d [\d:,.]+:? `
abbrev pub kernel_prefix_re : Regex
kernel_prefix_re = seqs (
    at_start
    ∷ literal (codes "[")
    ∷ plus (one (λ c. is_space c || is_digit c || (c == b'.')))
    ∷ literal (codes "]")
    ∷ star space
    ∷ [])

abbrev pub date_prefix_re : Regex
date_prefix_re = seqs (
    at_start
    ∷ digits 4
    ∷ literal (codes "-")
    ∷ digits 2
    ∷ literal (codes "-")
    ∷ digits 2
    ∷ literal (codes " ")
    ∷ plus (one (λ c. is_digit c || one_of (codes ":,.") c))
    ∷ optional (literal (codes ":"))
    ∷ literal (codes " ")
    ∷ [])

abbrev pub console_signal_re : Regex
console_signal_re = alts (
    literal (codes "Failed to start")
    ∷ literal (codes "Dependency failed")
    ∷ literal (codes "[FAILED]")
    ∷ seq (one (one_of (codes "Ee"))) (literal (codes "mergency mode"))
    ∷ literal (codes "segfault")
    ∷ seqs (word_edge ∷ literal (codes "denied") ∷ word_edge ∷ [])
    ∷ literal (codes "Out of memory")
    ∷ literal (codes "I/O error")
    ∷ seqs (
        literal (codes "cloud-init")
        ∷ star dot
        ∷ alts (map literal (codes "ERROR" ∷ codes "WARNING" ∷ codes "Traceback" ∷ []))
        ∷ [])
    ∷ literal (codes "Traceback (most recent")
    ∷ [])

abbrev pub console_benign_re : Regex
console_benign_re = alts (
    literal (codes "Failed to populate /etc")
    ∷ literal (codes "GPT: Use GNU Parted")
    ∷ seqs (
        literal (codes "NUMA: Failed to initiali")
        ∷ one (one_of (codes "sz"))
        ∷ literal (codes "e")
        ∷ [])
    ∷ literal (codes "no suitable video mode")
    ∷ [])

-- `^i-[0-9a-f]+\t`
abbrev pub instance_id_re : Regex
instance_id_re = seqs (
    at_start
    ∷ literal (codes "i-")
    ∷ plus (one (λ c. is_digit c || (leb 97 c && leb c 102)))
    ∷ literal (codes "\t")
    ∷ [])

unfoldable pub is_relevant : Str → Str → Bool
unfolding search_in eqb starts_with
is_relevant name module_name =
    is_some (search_in upload_text_re name)
    && not (is_some (search_in skip_upload_re name))
    && (eqb name (codes "full_journal.txt")
        || starts_with name (module_name ++ codes "-")
        || starts_with name (module_name ++ codes "_"))

-- The loop of `select_uploaded_logs`, with the names picked so far.
unfoldable pub pick_names : List Str → List Str → Str → List Str
unfolding in_lines is_relevant
pick_names picked [] module_name = picked
pick_names picked (n ∷ names) module_name =
    pick_names
      (if not (in_lines n picked) && is_relevant n module_name then picked ++ (n ∷ []) else picked)
      names module_name

unfoldable pub select_uploaded_logs : List Str → Str → List Str
unfolding pick_names
select_uploaded_logs names module_name = take 4 (pick_names [] names module_name)

-- The key of a line: its time stamps go, and its numbers become `N`.
unfoldable pub line_key : Str → Str
unfolding sub
line_key line =
    let key = sub syslog_prefix_re (λ c. []) line in
    let key = sub kernel_prefix_re (λ c. []) key in
    let key = sub date_prefix_re (λ c. []) key in sub (plus (one is_digit)) (λ c. codes "N") key

-- `first.setdefault(key, line)` and `counts[key] += 1` in one
abbrev pub with_line : Str → Option (Str × ℕ) → Str × ℕ
with_line line none = (line, 1)
with_line line (some (first, n)) = (first, suc n)

unfoldable pub count_lines : Dict (Str × ℕ) → List Str → Dict (Str × ℕ)
unfolding lookup insert line_key
count_lines counts [] = counts
count_lines counts (line ∷ lines) =
    let key = line_key line in
    count_lines (insert key (with_line line (lookup key counts)) counts) lines

abbrev pub counted_line : Str × ℕ → Str
counted_line (first, n) =
    if n == 1 then first else first ++ (codes " (x" ++ (decimal n ++ codes ")"))

unfoldable pub dedupe_lines : List Str → ℕ → List Str
unfolding count_lines decimal
dedupe_lines lines cap =
    last_or_all cap (map (λ (e : Str × (Str × ℕ)). counted_line e.1) (count_lines [] lines))

unfoldable pub journal_excerpt : Str → List Str
unfolding without_escapes rstrip search_in dedupe_lines split
journal_excerpt text =
    let lines = map (λ line. take 200 (rstrip (without_escapes line))) (split 10 text) in
    dedupe_lines (filter (λ line. is_some (search_in journal_signal_re line)) lines) 30

-- The greatest name of a console's end, or else the first of a destroyed console.
abbrev pub or_destroyed : List Str → List Str → List Str
or_destroyed [] names =
    take 1 (filter (λ (n : Str). ends_with n (codes "destroy-console.txt")) names)
or_destroyed (n ∷ ns) names = n ∷ ns

unfoldable pub select_console_files : List Str → List Str
unfolding sort_by leb_text ends_with
select_console_files names =
    let end = sort_by leb_text (filter (λ n. ends_with n (codes "console-end.txt")) names) in
    or_destroyed (last_n 1 end) names
    ++ take 1 (filter (λ n. ends_with n (codes "console-beginning.txt")) names)

unfoldable pub console_warnings : Str → List Str
unfolding sub without_escapes rstrip search_in dedupe_lines split
console_warnings text =
    let lines =
      map (λ line. take 200 (rstrip (sub instance_id_re (λ c. []) (without_escapes line))))
        (split 10 text) in
    dedupe_lines
      (filter
        (λ line.
          is_some (search_in console_signal_re line)
          && not (is_some (search_in console_benign_re line)))
        lines)
      20

abbrev pub has_signal : Str → Bool
has_signal line = is_some (search_in journal_signal_re line)

abbrev pub next_has_signal : List Str → Bool
next_has_signal [] = false
next_has_signal (line ∷ lines) = has_signal line

-- The lines with a signal in them, in the line before or in the line behind.
unfoldable pub near_signals : Bool → List Str → List Str
unfolding search_in
near_signals before [] = []
near_signals before (line ∷ lines) =
    let rest = near_signals (has_signal line) lines in
    if before || has_signal line || next_has_signal lines then line ∷ rest else rest

unfoldable pub log_excerpt : Str → Str → List Str
unfolding eqb journal_excerpt sub without_escapes rstrip near_signals is_text split
log_excerpt name text =
    let lines =
      map (λ line. take 200 (rstrip (sub box_re (λ c. []) (without_escapes line))))
        (split 10 text) in
    if eqb name (codes "full_journal.txt")
    then journal_excerpt text
    else last_n 30 (filter is_text (near_signals false lines))
