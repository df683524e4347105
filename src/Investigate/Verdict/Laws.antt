-- ===== src/Investigate/Verdict/Laws.antt =====
-- What `enforce_history_rules` leaves of the answers in a verdict.
use mathlib.Core.List.{reverse_aux}
use os_autoinst_scripts.Prelude.{
  ℕ, ◌≤◌, ◌≡◌, refl, false, some, List, [], ◌∷◌, ◌++◌, arith, any-append, All, All-map, ltb,
  Bool-cases, inl, inr,
}
use os_autoinst_scripts.Py.Num.{decimal, any-decimal, is_digit}
use os_autoinst_scripts.Py.Str.{Str, codes, splitlines, is_break, is_space, eqb}
use os_autoinst_scripts.Py.Str.Lines.{Unbroken, splitlines-Unbroken, All-splitlines-join}
use os_autoinst_scripts.Py.Regex.{Regex, match_at_start, group_of}
use os_autoinst_scripts.Investigate.Verdict.{
  answer, bisect_re, restart_re, is_yes, refusal, replace_yes, yes_to_no, first_answer,
  bisect_verdict, enforce_history_rules, deterministic_streak,
}

-- The pattern does not find a YES in the line.
abbrev pub NotYes : Regex → Str → Type 0
NotYes pattern line = is_yes (answer pattern line) ≡ false

refusal_bisect : (n : ℕ) → NotYes bisect_re (refusal (codes "BISECT") n)
unfolding refusal answer match_at_start is_space eqb group_of is_digit
refusal_bisect n = refl

refusal_restart : (n : ℕ) → NotYes restart_re (refusal (codes "Restart") n)
unfolding refusal answer match_at_start is_space eqb group_of is_digit
refusal_restart n = refl

restart_not_bisect : (n : ℕ) → NotYes bisect_re (refusal (codes "Restart") n)
unfolding refusal answer match_at_start is_space eqb group_of is_digit
restart_not_bisect n = refl

refusal-Unbroken : (name : Str) (n : ℕ) → Unbroken name → Unbroken (refusal name n)
unfolding refusal is_break
refusal-Unbroken name n h = ground (
  arith,
  h,
  any-append is_break name
      (codes ": NO — failed at least " ++ (decimal n ++ codes " times in a row")),
  any-append is_break (decimal n) (codes " times in a row"),
  any-decimal is_break (λ d k. ground arith) n,
)

module _ (P : Str → Type 0) (pattern : Regex) (instead : Str) where
  replace_yes-keeps : P instead → (line : Str) → P line → P (replace_yes pattern instead line)
  unfolding replace_yes
  replace_yes-keeps h line k = elim (Bool-cases (is_yes (answer pattern line))) [
    | inl e ↦ rw e h
    | inr e ↦ rw e k
  ]

replace_yes-NotYes :
    (pattern : Regex) (instead line : Str)
    → NotYes pattern instead
    → NotYes pattern (replace_yes pattern instead line)
unfolding replace_yes
replace_yes-NotYes pattern instead line h = elim (Bool-cases (is_yes (answer pattern line))) [
  | inl e ↦ rw e h
  | inr e ↦ rw e e
]

-- What holds of each line behind its replacement holds of all lines of the result.
lines-yes_to_no :
    (Q P : Str → Type 0) (verdict : Str) (pattern : Regex) (instead : Str)
    → Unbroken instead
    → ((line : Str) → Q line → P (replace_yes pattern instead line))
    → All Q (splitlines verdict)
    → All P (splitlines (yes_to_no verdict pattern instead))
unfolding yes_to_no
lines-yes_to_no Q P verdict pattern instead u h k =
    All-splitlines-join P _
      (All-map Unbroken Unbroken _ (replace_yes-keeps Unbroken pattern instead u) _
        (splitlines-Unbroken verdict))
      (All-map Q P _ h _ k)

-- Of no line that holds nothing of the kind, an answer that is a YES comes out of nowhere.
first_answer-NotYes :
    (lines : List Str) → All (NotYes bisect_re) lines → is_yes (first_answer lines) ≡ false
unfolding first_answer
first_answer-NotYes [] h = refl
first_answer-NotYes (line ∷ lines) h = ground (arith, h.0, first_answer-NotYes lines h.1)

All-reverse_aux :
    (P : Str → Type 0) (xs ys : List Str) → All P xs → All P ys → All P (reverse_aux xs ys)
All-reverse_aux P [] ys h k = k
All-reverse_aux P (x ∷ xs) ys h k = All-reverse_aux P xs (x ∷ ys) h.1 (h.0, k)

bisect_verdict-NotYes :
    (verdict : Str)
    → All (NotYes bisect_re) (splitlines verdict)
    → is_yes (bisect_verdict verdict) ≡ false
unfolding bisect_verdict
bisect_verdict-NotYes verdict h =
    first_answer-NotYes _ (All-reverse_aux (NotYes bisect_re) (splitlines verdict) [] h tt)

anything : (lines : List Str) → All (λ l. Unit {0}) lines
anything [] = tt
anything (l ∷ lines) = (tt, anything lines)

-- The verdict after both replacements.
abbrev pub forbidden : Str → ℕ → Str
forbidden verdict n =
    yes_to_no (yes_to_no verdict bisect_re (refusal (codes "BISECT") n)) restart_re
      (refusal (codes "Restart") n)

bisect_name-Unbroken : Unbroken (codes "BISECT")
unfolding is_break
bisect_name-Unbroken = refl

restart_name-Unbroken : Unbroken (codes "Restart")
unfolding is_break
restart_name-Unbroken = refl

forbidden-NotYes_bisect :
    (verdict : Str) (n : ℕ) → All (NotYes bisect_re) (splitlines (forbidden verdict n))
forbidden-NotYes_bisect verdict n =
    lines-yes_to_no (NotYes bisect_re) (NotYes bisect_re) _ restart_re (refusal (codes "Restart") n)
      (refusal-Unbroken _ n restart_name-Unbroken)
      (replace_yes-keeps (NotYes bisect_re) restart_re _ (restart_not_bisect n))
      (lines-yes_to_no (λ l. Unit {0}) (NotYes bisect_re) verdict bisect_re
        (refusal (codes "BISECT") n) (refusal-Unbroken _ n bisect_name-Unbroken)
        (λ line _. replace_yes-NotYes bisect_re _ line (refusal_bisect n))
        (anything (splitlines verdict)))

forbidden-NotYes_restart :
    (verdict : Str) (n : ℕ) → All (NotYes restart_re) (splitlines (forbidden verdict n))
forbidden-NotYes_restart verdict n =
    lines-yes_to_no (λ l. Unit {0}) (NotYes restart_re) _ restart_re (refusal (codes "Restart") n)
      (refusal-Unbroken _ n restart_name-Unbroken)
      (λ line _. replace_yes-NotYes restart_re _ line (refusal_restart n)) (anything _)

-- After a streak of at least three failures, whatever the model answered, the verdict asks neither
-- for a bisection nor, in any line, for a restart.
pub enforce_history_rules-forbids :
    (verdict : Str) (n : ℕ)
    → deterministic_streak ≤ n
    → (is_yes (bisect_verdict (enforce_history_rules verdict (some n))) ≡ false)
      × All (NotYes restart_re) (splitlines (enforce_history_rules verdict (some n)))
unfolding enforce_history_rules
enforce_history_rules-forbids verdict n h =
    let late : ltb n deterministic_streak ≡ false = ground arith in
    rw late (
      bisect_verdict-NotYes _ (forbidden-NotYes_bisect verdict n),
      forbidden-NotYes_restart verdict n,
    )
