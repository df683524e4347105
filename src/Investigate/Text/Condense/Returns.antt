-- ===== src/Investigate/Text/Condense/Returns.antt =====
-- When `condense_log` returns, and how long its result is.
use os_autoinst_scripts.Prelude.{
  ℕ, suc, ◌≤◌, ◌≡◌, refl, Bool, true, false, ◌&&◌, not, Option, none, some, List, [], ◌∷◌, ◌++◌,
  arith, if◌then◌else◌, length, All, ap,
}
use os_autoinst_scripts.Py.Str.{Str}
use os_autoinst_scripts.Py.Regex.{Cursor, search_in, match_at_start, is_some, group_of}
use os_autoinst_scripts.Investigate.Text.Commands.{without_escapes, group_1}
use os_autoinst_scripts.Investigate.Text.Lines.{stack_frames_shown, keep_tail, trim_stack_frames}
use os_autoinst_scripts.Investigate.Text.Lines.Frames.{trim_stack_frames_lem, length-keep_tail}
use os_autoinst_scripts.Investigate.Text.Polls.{
  Polls, Score, needle_nomatch_re, log_ts_re, parse_score, add, counted, with_nomatch,
}
use os_autoinst_scripts.Investigate.Text.Condense.{
  Condensed, placed, round, rounds, begun, with_summary, condense_log, is_droppable_debug,
  is_noise_line, with_dropping,
}

-- The score in a line of a needle that did not match, if it is one, is a number.
abbrev pub scored : Option Cursor → Bool
scored none = true
scored (some m) = is_some (parse_score (group_of 2 m.groups))

unfoldable pub is_scored : Str → Bool
unfolding search_in parse_score group_of
is_scored line = scored (search_in needle_nomatch_re line)

with_nomatch-returns :
    (p : Polls) (stamps : List Str) (candidate : Str) (o : Option Score)
    → is_some o ≡ true
    → (q : Polls) × (with_nomatch p stamps candidate o ≡ some q)
with_nomatch-returns p stamps candidate none h = cc
with_nomatch-returns p stamps candidate (some s) h = (_, refl)

counted-returns :
    (p : Polls) (o : Option Cursor) (same slow : Bool) (stamp : List Str)
    → scored o ≡ true
    → (r : Bool × Polls) × (counted p o same slow stamp ≡ some r)
counted-returns p (some m) same slow stamp h =
    let (q, e) =
      with_nomatch-returns p (p.stamps ++ stamp) (group_1 m) (parse_score (group_of 2 m.groups))
        h in
    ((true, q), ap (λ (o : Option Polls). elim o [ none ↦ none | some q ↦ some (true, q) ]) e)
counted-returns p none true slow stamp h = (_, refl)
counted-returns p none false true stamp h = (_, refl)
counted-returns p none false false stamp h = (_, refl)

placed-returns :
    (droppable : Bool) (c : Condensed) (line : Str) (r : Bool × Polls)
    → (d : Condensed) × (placed droppable c line (some r) ≡ some d)
placed-returns droppable c line (true, p) = (_, refl)
placed-returns droppable c line (false, p) = (_, refl)

if-returns :
    (b : Bool) (c : Condensed) (o : Option Condensed)
    → ((d : Condensed) × (o ≡ some d))
    → (d : Condensed) × ((if b then some c else o) ≡ some d)
if-returns true c o h = (c, refl)
if-returns false c o h = h

add-returns :
    (p : Polls) (line : Str) → is_scored line ≡ true → (r : Bool × Polls) × (add p line ≡ some r)
unfolding add is_scored
add-returns p line h = counted-returns p (search_in needle_nomatch_re line) _ _ _ h

round-returns :
    (autoinst : Bool) (c : Condensed) (line : Str)
    → is_scored line ≡ true
    → (d : Condensed) × (round autoinst c line ≡ some d)
unfolding round
round-returns autoinst c line h =
    let stamped = is_some (match_at_start log_ts_re line) in
    let d = if autoinst && stamped then with_dropping c false else c in
    let droppable = autoinst && (stamped && is_droppable_debug line) in
    let (r, e) = add-returns d.polls line h in
    if-returns (is_noise_line line) c _ (
      if-returns (autoinst && (not stamped && c.dropping)) c _
        (rw e (placed-returns droppable d line r)))

rounds-returns :
    (autoinst : Bool) (c : Condensed) (lines : List Str)
    → All (λ raw. is_scored (without_escapes raw) ≡ true) lines
    → (d : Condensed) × (rounds autoinst c lines ≡ some d)
unfolding rounds
rounds-returns autoinst c [] h = (c, refl)
rounds-returns autoinst c (raw ∷ lines) h =
    let (d, e) = round-returns autoinst c (without_escapes raw) h.0 in
    let (f, k) = rounds-returns autoinst d lines h.1 in (f, rw e k)

-- If the scores in the lines of the needle search are numbers, `condense_log` returns, and its result
-- has at most the lines asked for and a note for those that were omitted.
pub condense_log-returns :
    (lines : List Str) (autoinst : Bool) (n : ℕ)
    → All (λ raw. is_scored (without_escapes raw) ≡ true) lines
    → (out : List Str) × (condense_log lines autoinst (some n) ≡ some out) × (length out ≤ suc n)
unfolding condense_log
condense_log-returns lines autoinst n h =
    let (c, e) = rounds-returns autoinst begun lines h in
    let kept = keep_tail (with_summary c c.poll_at) (some n) in
    (
      trim_stack_frames stack_frames_shown kept,
      rw e refl,
      ground (
        arith,
        length-keep_tail (with_summary c c.poll_at) n,
        (trim_stack_frames_lem stack_frames_shown kept).1,
      ),
    )
