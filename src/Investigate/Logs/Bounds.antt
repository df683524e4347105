-- ===== src/Investigate/Logs/Bounds.antt =====
-- What `find_in_log` finds, and how much of a log `find_log_range` returns.
use os_autoinst_scripts.Prelude.{
  ℕ, zero, suc, ◌-◌, ◌/◌, ◌≤◌, ◌≡◌, refl, Bool, true, false, ◌&&◌, Option, none, some, List, [],
  ◌∷◌, ◌++◌, arith, length, length-take_le, take, drop, length-drop, length-append, any, option_map,
  Bool-cases, Option-cases, inl, inr, ◌⊎◌,
}
use os_autoinst_scripts.Py.Dict.{or_else}
use os_autoinst_scripts.Py.Str.{Str, codes, contains, split}
use os_autoinst_scripts.Py.Text.{not_empty_text}
use os_autoinst_scripts.Py.Num.{decimal}
use os_autoinst_scripts.Investigate.Logs.{
  LogContext, last_index, match_index, line_at, context_at, find_in_log, is_command_line, fit,
  last_half, range_from, find_log_range, line_index,
}

length-last_half : (n : ℕ) (span : List Str) → length (last_half n span) ≤ n
length-last_half zero span = omega arith
length-last_half (suc n) span = omega (arith, length-drop (length span - suc n) span)

length-fit : (n : ℕ) (span : List Str) → length (fit (some n) span) ≤ suc n
unfolding fit
length-fit n span =
    let half = n / 2 in
    let note =
      codes "[..."
      ++ (decimal (length span - n) ++ codes " lines omitted to fit context limit...]") in
    ground (
      arith,
      length-take_le half span,
      length-last_half half span,
      length-append (take half span) (note ∷ last_half half span),
    )

length-range_from :
    (lines : List Str) (n start : ℕ) (end : Option ℕ)
    → length (range_from lines (some n) start end) ≤ suc n
length-range_from lines n start none = omega (arith, length-take_le n (drop start lines))
length-range_from lines n start (some end) = ground (
  arith,
  length-take_le n (drop start lines),
  length-fit n (take (suc end - start) (drop start lines)),
)

-- A list that is there is at most so long.
abbrev pub AtMost : ℕ → Option (List Str) → Type 0
AtMost n none = Unit
AtMost n (some lines) = length lines ≤ n

option_map-AtMost :
    (n : ℕ) (f : ℕ → List Str) (o : Option ℕ)
    → ((i : ℕ) → length (f i) ≤ n)
    → AtMost n (option_map f o)
option_map-AtMost n f none h = tt
option_map-AtMost n f (some i) h = h i

-- A range of a log that is asked for with a limit has at most so many lines, and one more for the
-- note on those that were omitted.
pub find_log_range-AtMost :
    (log_content : Str) (start_marker end_marker : Option Str) (n : ℕ)
    → AtMost (suc n) (find_log_range log_content start_marker end_marker (some n))
unfolding find_log_range
find_log_range-AtMost log_content start_marker end_marker n =
    let lines = split 10 log_content in
    elim (Bool-cases (not_empty_text log_content)) [
      | inl e ↦ rw e (
          option_map-AtMost (suc n) _ (line_index log_content lines start_marker)
            (λ start. length-range_from lines n start (line_index log_content lines end_marker)))
      | inr e ↦ rw e tt
    ]

-- The place that is found has the property, and none is found only if no line has it.
last_index-holds :
    (p : Str → Bool) (lines : List Str) (i : ℕ)
    → last_index p lines ≡ some i
    → p (line_at i lines) ≡ true
unfolding last_index line_at
last_index-holds p [] i h = cc
last_index-holds p (line ∷ lines) zero h = elim (Option-cases (last_index p lines)) [
  | inl e ↦ ground (arith, e, h)
  | inr (j, e) ↦ absurd (ground (arith, e, h))
]
last_index-holds p (line ∷ lines) (suc i) h = elim (Option-cases (last_index p lines)) [
  | inl e ↦ absurd (ground (arith, e, h))
  | inr (j, e) ↦ last_index-holds p lines i (ground (arith, e, h))
]

last_index-none :
    (p : Str → Bool) (lines : List Str) → last_index p lines ≡ none → any p lines ≡ false
unfolding last_index
last_index-none p [] h = refl
last_index-none p (line ∷ lines) h = ground (arith, h, last_index-none p lines)

-- A line with the text, and a line with the text that shows a command.
abbrev pub has : Str → Str → Bool
has search_string line = contains line search_string

abbrev pub shows : Str → Str → Bool
shows search_string line = contains line search_string && is_command_line line

-- The match: none if no line has the text, else a line that has it, and that shows a command if a
-- line with the text does, with at most so many lines before and behind.
abbrev pub Found : List Str → Str → ℕ → ℕ → Option LogContext → Type 0
Found lines s before after none = any (has s) lines ≡ false
Found lines s before after (some c) =
    (has s c.matched ≡ true)
    × ((any (shows s) lines ≡ false) ⊎ (is_command_line c.matched ≡ true))
    × (length c.before ≤ before)
    × (length c.after ≤ after)

context-Found :
    (lines : List Str) (s : Str) (before after i : ℕ)
    → has s (line_at i lines) ≡ true
    → (any (shows s) lines ≡ false) ⊎ (is_command_line (line_at i lines) ≡ true)
    → Found lines s before after (some (context_at lines before after i))
context-Found lines s before after i h k = (
  h,
  k,
  omega (arith, length-drop (i - before) (take i lines), length-take_le i lines),
  length-take_le after (drop (suc i) lines),
)

and-left : (a b : Bool) → (a && b) ≡ true → a ≡ true
and-left true b h = refl
and-left false b h = cc

and-right : (a b : Bool) → (a && b) ≡ true → b ≡ true
and-right true b h = h
and-right false b h = cc

match-Found :
    (lines : List Str) (s : Str) (before after : ℕ) (shown plain : Option ℕ)
    → last_index (shows s) lines ≡ shown
    → last_index (has s) lines ≡ plain
    → Found lines s before after (option_map (context_at lines before after) (or_else shown plain))
match-Found lines s before after (some i) plain h k =
    let holds = last_index-holds (shows s) lines i h in
    context-Found lines s before after i
      (and-left (has s (line_at i lines)) (is_command_line (line_at i lines)) holds)
      (inr (and-right (has s (line_at i lines)) (is_command_line (line_at i lines)) holds))
match-Found lines s before after none (some i) h k =
    context-Found lines s before after i (last_index-holds (has s) lines i k)
      (inl (last_index-none (shows s) lines h))
match-Found lines s before after none none h k = last_index-none (has s) lines k

-- `find_in_log` finds a line exactly if one contains the text; it prefers a line that shows a
-- command, and returns at most the asked number of lines before and behind it.
pub find_in_log-Found :
    (log_content : Str) (c : ℕ) (s : Str) (before after : ℕ)
    → Found
        (split 10 log_content)
        (c ∷ s)
        before
        after
        (find_in_log log_content (some (c ∷ s)) before (some after))
unfolding find_in_log match_index
find_in_log-Found log_content c s before after =
    match-Found (split 10 log_content) (c ∷ s) before after _ _ refl refl
