-- ===== src/Investigate/Logs/Crash.antt =====
-- Boot crashes and failures of a job as a whole: openqa_llm_investigate/logs.py.
use os_autoinst_scripts.Prelude.{
  ℕ, suc, ◌+◌, ◌-◌, Bool, false, ◌&&◌, ◌||◌, not, Option, none, some, List, [], ◌∷◌, ◌++◌, map, leb,
  ltb, ◌==◌, if◌then◌else◌, length, take, drop, filter, any, last?, option_map,
}
use os_autoinst_scripts.Py.Dict.{or_else}
use os_autoinst_scripts.Py.Str.{Str, codes, is_space, contains, strip, split}
use os_autoinst_scripts.Py.Num.{decimal, is_digit}
use os_autoinst_scripts.Py.Regex.{
  Regex, one, seq, alt, star, group, word_edge, is_word, is_some, match_at_start, search_in,
  literal, seqs, plus, optional, one_of,
}
use os_autoinst_scripts.Investigate.Text.Classes.{alts, space, is_letter}
use os_autoinst_scripts.Investigate.Text.Redact.{redact}
use os_autoinst_scripts.Investigate.Text.Lines.{is_text}
use os_autoinst_scripts.Investigate.Text.Commands.{group_1, without_escapes, first_of}
use os_autoinst_scripts.Investigate.Logs.{line_at}

abbrev pub boot_fatal_re : Regex
boot_fatal_re = alts (
    literal (codes "Kernel panic")
    ∷ literal (codes "dracut: FATAL")
    ∷ literal (codes "Refusing to continue")
    ∷ literal (codes "Synchronous Exception")
    ∷ seq word_edge (literal (codes "BUG: "))
    ∷ seq word_edge (literal (codes "Oops: "))
    ∷ seqs (
        one (one_of (codes "Ee"))
        ∷ literal (codes "mergency ")
        ∷ alt (literal (codes "shell")) (literal (codes "mode"))
        ∷ [])
    ∷ [])

-- `^(?:\[[\s\d.]+\]\s*)?(?:Code:|R(?:AX|…|SP)\b|R\d+:|(?:CS|DS|ES|FS|GS)[: ]|CR[0-4]:|DR\d)`
abbrev pub register_dump_re : Regex
register_dump_re =
    seq
      (optional (
        seqs (
          literal (codes "[")
          ∷ plus (one (λ c. is_space c || is_digit c || (c == b'.')))
          ∷ literal (codes "]")
          ∷ star space
          ∷ [])))
      (alts (
        literal (codes "Code:")
        ∷ seqs (
            literal (codes "R")
            ∷ alts (
                map literal (
                  codes "AX"
                  ∷ codes "BX"
                  ∷ codes "CX"
                  ∷ codes "DX"
                  ∷ codes "SI"
                  ∷ codes "DI"
                  ∷ codes "BP"
                  ∷ codes "SP"
                  ∷ []))
            ∷ word_edge
            ∷ [])
        ∷ seqs (literal (codes "R") ∷ plus (one is_digit) ∷ literal (codes ":") ∷ [])
        ∷ seq
            (alts
              (map literal (codes "CS" ∷ codes "DS" ∷ codes "ES" ∷ codes "FS" ∷ codes "GS" ∷ [])))
            (one (one_of (codes ": ")))
        ∷ seqs (literal (codes "CR") ∷ one (λ c. leb 48 c && leb c 52) ∷ literal (codes ":") ∷ [])
        ∷ seq (literal (codes "DR")) (one is_digit)
        ∷ []))

-- `\b(?:RIP|IP):\s*(?:\w+:)?([A-Za-z_]\w*)`
abbrev pub oops_symbol_re : Regex
oops_symbol_re = seqs (
    word_edge
    ∷ alt (literal (codes "RIP")) (literal (codes "IP"))
    ∷ literal (codes ":")
    ∷ star space
    ∷ optional (seq (plus (one is_word)) (literal (codes ":")))
    ∷ group 1 (seq (one (λ c. is_letter c || (c == b'_'))) (star (one is_word)))
    ∷ [])

abbrev pub near_last : ℕ → List ℕ → Bool
near_last i event = elim (last? event) [ none ↦ false | some j ↦ leb i (j + 30) ]

unfoldable pub add_event : ℕ → List (List ℕ) → List (List ℕ)
add_event i [] = (i ∷ []) ∷ []
add_event i (e ∷ []) = if near_last i e then (e ++ (i ∷ [])) ∷ [] else e ∷ (i ∷ []) ∷ []
add_event i (e ∷ f ∷ events) = e ∷ add_event i (f ∷ events)

unfoldable pub events_from : List (List ℕ) → ℕ → List Str → List (List ℕ)
unfolding add_event search_in
events_from events i [] = events
events_from events i (line ∷ lines) =
    events_from (if is_some (search_in boot_fatal_re line) then add_event i events else events)
      (suc i) lines

unfoldable pub fatal_events : List Str → List (List ℕ)
unfolding events_from
fatal_events lines = events_from [] 0 lines

abbrev pub first_place : List ℕ → ℕ
first_place [] = 0
first_place (i ∷ is) = i

abbrev pub last_place : List ℕ → ℕ
last_place event = elim (last? event) [ none ↦ 0 | some i ↦ i ]

abbrev pub slice : ℕ → ℕ → List Str → List Str
slice start end lines = drop start (take end lines)

-- An expected crash is triggered up to ten lines before the event, or inside it.
unfoldable pub event_expected : List Str → List ℕ → Bool
unfolding contains
event_expected lines event =
    any (λ line. contains line (codes "sysrq: Trigger a crash"))
      (slice (first_place event - 10) (suc (last_place event)) lines)

abbrev pub rule : Str
rule = codes "================================================================================"

abbrev pub min : ℕ → ℕ → ℕ
min a b = if leb a b then a else b

unfoldable pub report_line : ℕ → ℕ → Str → List Str
unfolding is_text match_at_start strip redact
report_line first i line =
    if not (is_text line)
      || (not (i == first) && is_some (match_at_start register_dump_re (strip line)))
    then []
    else ((if i == first then codes ">>> " else []) ++ redact line) ∷ []

unfoldable pub report_lines : ℕ → ℕ → List Str → List Str
unfolding report_line
report_lines first i [] = []
report_lines first i (line ∷ lines) = report_line first i line ++ report_lines first (suc i) lines

abbrev pub event_note : List (List ℕ) → List (List ℕ) → List Str
event_note events unexpected =
    if ltb 1 (length events)
    then (codes "("
        ++ (decimal (length events)
            ++ (codes " fatal events found; showing the "
                ++ (if ltb 0 (length unexpected)
                    then codes "last unexpected)"
                    else codes "last)"))))
      ∷ []
    else if ltb 0 (length unexpected)
    then []
    else codes "(expected: crash triggered via sysrq)" ∷ []

-- The first line of the last unexpected event, or else of the last.
abbrev pub shown_event : List (List ℕ) → List (List ℕ) → ℕ
shown_event events unexpected =
    first_place (elim (or_else (last? unexpected) (last? events)) [ none ↦ [] | some e ↦ e ])

abbrev pub report : Str → List Str → ℕ → List (List ℕ) → List Str
report filename lines context_lines [] = []
report filename lines context_lines (e ∷ es) =
    let unexpected = filter (λ ev. not (event_expected lines ev)) (e ∷ es) in
    let first = shown_event (e ∷ es) unexpected in
    let panic = contains (line_at first lines) (codes "Kernel panic") in
    let start = first - min context_lines 5 in
    let end = min (length lines) (first + min context_lines 10 + 1) in
    []
    ∷ rule
    ∷ (codes "*** "
        ++ ((if panic then codes "KERNEL PANIC" else codes "FATAL BOOT ERROR")
            ++ codes " DETECTED ***"))
    ∷ rule
    ∷ []
    ∷ (codes "--- "
        ++ (filename
            ++ (codes " (searching for: "
                ++ ((if panic then codes "Kernel panic" else codes "boot/firmware fatal error")
                    ++ codes ") ---"))))
    ∷ (event_note (e ∷ es) unexpected
        ++ (report_lines first start (slice start end lines)
            ++ (codes "--- End of Log Section ---" ∷ [] ∷ [])))

unfoldable pub crash_report : Str → List Str → ℕ → List Str
unfolding fatal_events event_expected contains line_at report_lines decimal
crash_report filename lines context_lines = report filename lines context_lines (fatal_events lines)

unfoldable pub symbol_in : List Str → Option Str
unfolding first_of search_in
symbol_in lines = first_of (λ line. option_map group_1 (search_in oops_symbol_re line)) lines

-- The events behind the first expected one, from the last: the symbol of the first unexpected one
-- that has one.
unfoldable pub symbol_behind : List Str → List (List ℕ) → Option Str
unfolding symbol_in event_expected
symbol_behind lines [] = none
symbol_behind lines (e ∷ events) =
    let own = symbol_in (slice (first_place e) (suc (last_place e)) lines) in
    or_else (symbol_behind lines events) (if event_expected lines e then none else own)

unfoldable pub behind_expected : List Str → List (List ℕ) → List (List ℕ)
unfolding event_expected
behind_expected lines [] = []
behind_expected lines (e ∷ events) =
    let rest = behind_expected lines events in if event_expected lines e then events else rest

unfoldable pub kdump_oops_symbol : Str → Option Str
unfolding without_escapes fatal_events behind_expected symbol_behind split
kdump_oops_symbol serial0 =
    let lines = map without_escapes (split 10 serial0) in
    symbol_behind lines (behind_expected lines (fatal_events lines))
