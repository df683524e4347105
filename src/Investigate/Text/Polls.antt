-- ===== src/Investigate/Text/Polls.antt =====
-- The needle polls that `condense_log` of openqa_llm_investigate/text.py counts.
use os_autoinst_scripts.Prelude.{
  ℕ, zero, suc, ◌+◌, ◌*◌, ◌/◌, ◌%◌, ◌^◌, Bool, true, false, ◌&&◌, ◌||◌, not, Option, none, some,
  List, [], ◌∷◌, ◌++◌, ltb, if◌then◌else◌, length, last?,
}
use os_autoinst_scripts.Py.Str.{Str, codes, partition}
use os_autoinst_scripts.Py.Num.{decimal, is_digit, all_digits, int_from}
use os_autoinst_scripts.Py.Text.{not_empty_text}
use os_autoinst_scripts.Py.Regex.{
  Regex, Cursor, one, group, is_some, match_at_start, search_in, group_of, literal, seqs, plus,
  one_of,
}
use os_autoinst_scripts.Investigate.Text.Classes.{not_space}
use os_autoinst_scripts.Investigate.Text.Commands.{group_1}
use os_autoinst_scripts.Investigate.Text.Noise.{digits}

-- `[\d.]` and `[\d:.]`
abbrev pub digit_or : Str → Regex
digit_or cs = one (λ c. is_digit c || one_of cs c)

-- `^\[(\d{4}-\d\d-\d\dT[\d:.]+Z)\]`
abbrev pub log_ts_re : Regex
log_ts_re = seqs (
    literal (codes "[")
    ∷ group 1 (
        seqs (
          digits 4
          ∷ literal (codes "-")
          ∷ digits 2
          ∷ literal (codes "-")
          ∷ digits 2
          ∷ literal (codes "T")
          ∷ plus (digit_or (codes ":."))
          ∷ literal (codes "Z")
          ∷ []))
    ∷ literal (codes "]")
    ∷ [])

-- `no match: [\d.]+s, best candidate: (\S+) \(([\d.]+)\)`
abbrev pub needle_nomatch_re : Regex
needle_nomatch_re = seqs (
    literal (codes "no match: ")
    ∷ plus (digit_or (codes "."))
    ∷ literal (codes "s, best candidate: ")
    ∷ group 1 (plus not_space)
    ∷ literal (codes " (")
    ∷ group 2 (plus (digit_or (codes ".")))
    ∷ literal (codes ")")
    ∷ [])

abbrev pub needle_nochange_re : Regex
needle_nochange_re =
    seqs (literal (codes "no change: ") ∷ plus (digit_or (codes ".")) ∷ literal (codes "s") ∷ [])

abbrev pub needle_slow_re : Regex
needle_slow_re = seqs (
    literal (codes "check_asserted_screen took ")
    ∷ plus (digit_or (codes "."))
    ∷ literal (codes " seconds")
    ∷ [])

-- A score as the number `digits / 10 ^ places`.
pub record Score : Type 0 where
  pub digits : ℕ
  pub places : ℕ

-- `float(text)` for digits and dots: there may be one dot, and there must be a digit.
abbrev pub score_of : Str → Str × Bool × Str → Option Score
score_of text (head, dotted, tail) =
    if (all_digits head || not (not_empty_text head))
      && (all_digits tail || not (not_empty_text tail))
      && (not_empty_text head || not_empty_text tail)
    then some (record { digits = int_from 0 (head ++ tail); places = length tail })
    else none

unfoldable pub parse_score : Str → Option Score
unfolding partition all_digits int_from
parse_score text = score_of text (partition b'.' text)

abbrev pub less : Score → Score → Bool
less s t = ltb (s.digits * 10 ^ t.places) (t.digits * 10 ^ s.places)

-- Any score is greater than the -1.0 at the start.
abbrev pub beats : Score → Option Score → Bool
beats s none = true
beats s (some t) = less t s

-- Hundredths to the nearest, half to even.
abbrev pub hundredths : Score → ℕ
hundredths s =
    let n = s.digits * 100 in
    let unit = 10 ^ s.places in
    let low = n / unit in
    let rest = n % unit in
    if ltb (2 * rest) unit then low else if ltb unit (2 * rest) then low + 1 else low + low % 2

-- `f"{score:.2f}"`
unfoldable pub two_places : Option Score → Str
unfolding decimal
two_places none = codes "-1.00"
two_places (some s) =
    let h = hundredths s in
    decimal (h / 100) ++ (codes "." ++ ((48 + h % 100 / 10) ∷ (48 + h % 10) ∷ []))

-- `_NeedlePolls`
pub record Polls : Type 0 where
  pub no_match : ℕ
  pub same : ℕ
  pub slow : ℕ
  pub stamps : List Str
  pub best : Str × Option Score

abbrev pub no_polls : Polls
no_polls = record { no_match = 0; same = 0; slow = 0; stamps = []; best = ([], none) }

abbrev pub stamp_of : Option Cursor → List Str
stamp_of none = []
stamp_of (some m) = group_1 m ∷ []

-- A poll line that did not match, with its candidate and score, of which the best is kept.
abbrev pub with_nomatch : Polls → List Str → Str → Option Score → Option Polls
with_nomatch p stamps candidate none = none
with_nomatch p stamps candidate (some score) = some (record {
  no_match = suc p.no_match;
  same = p.same;
  slow = p.slow;
  stamps = stamps;
  best = if beats score p.best.1 then (candidate, some score) else p.best;
})

-- A line of one of the other two kinds.
abbrev pub with_other : Polls → List Str → Bool → Polls
with_other p stamps unchanged = record {
  no_match = p.no_match;
  same = if unchanged then suc p.same else p.same;
  slow = if unchanged then p.slow else suc p.slow;
  stamps = stamps;
  best = p.best;
}

-- What `add` returns and leaves, for the three searches and the time stamp of the line; none is the
-- exception for a score that is not a number.
abbrev pub counted : Polls → Option Cursor → Bool → Bool → List Str → Option (Bool × Polls)
counted p (some m) same slow stamp =
    elim (with_nomatch p (p.stamps ++ stamp) (group_1 m) (parse_score (group_of 2 m.groups))) [
      | none ↦ none
      | some q ↦ some (true, q)
    ]
counted p none true slow stamp = some (true, with_other p (p.stamps ++ stamp) true)
counted p none false true stamp = some (true, with_other p (p.stamps ++ stamp) false)
counted p none false false stamp = some (false, p)

unfoldable pub add : Polls → Str → Option (Bool × Polls)
unfolding search_in match_at_start parse_score group_of
add p line =
    counted p (search_in needle_nomatch_re line) (is_some (search_in needle_nochange_re line))
      (is_some (search_in needle_slow_re line)) (stamp_of (match_at_start log_ts_re line))

abbrev pub or_nothing : Option Str → Str
or_nothing none = []
or_nothing (some s) = s

abbrev pub span : List Str → Str
span [] = []
span (s ∷ stamps) =
    codes " " ++ (s ++ (codes " .. " ++ (or_nothing (last? (s ∷ stamps)) ++ codes ",")))

abbrev pub count_note : ℕ → Str → Str
count_note zero what = []
count_note (suc n) what = codes ", " ++ (decimal (suc n) ++ what)

abbrev pub best_note : Str → Option Score → Str
best_note [] score = []
best_note (c ∷ s) score =
    codes " best candidate " ++ ((c ∷ s) ++ (codes " (" ++ (two_places score ++ codes ")")))

unfoldable pub summary : Polls → Str
unfolding decimal two_places
summary p =
    codes "[needle search: "
    ++ (decimal p.no_match
        ++ (codes " no-match polls,"
            ++ (span p.stamps
                ++ (best_note p.best.0 p.best.1
                    ++ (count_note p.same (codes " unchanged-screen polls")
                        ++ (count_note p.slow (codes " slow-check warnings") ++ codes "]"))))))
