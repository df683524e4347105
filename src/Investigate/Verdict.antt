-- ===== src/Investigate/Verdict.antt =====
-- openqa_llm_investigate/verdict.py
pub mod Laws
use mathlib.Core.List.{reverse}
use os_autoinst_scripts.Prelude.{
  ℕ, ◌≡◌, refl, Bool, true, false, ◌||◌, Option, none, some, List, [], ◌∷◌, ◌++◌, map, leb, ltb,
  ◌==◌, if◌then◌else◌, option_map, ◌&&◌,
}
use os_autoinst_scripts.Py.Str.{Str, codes, eqb, is_space, splitlines, join}
use os_autoinst_scripts.Py.Num.{is_digit, decimal}
use os_autoinst_scripts.Py.Dict.{or_else}
use os_autoinst_scripts.Py.Regex.{
  Regex, one, seq, alt, star, group, ahead, Cursor, match_at_start, group_of, literal, literal_ci,
  seqs, plus, one_of, lower,
}

-- `^(?:[\s*_`>#-]|\d+\.)*NAME[*_`]*:[\s*_`]*(YES|NO)(?![a-z0-9])` without regard to case
abbrev pub answer_re : Str → Regex
answer_re name = seqs (
    star (
      alt (one (λ c. is_space c || one_of (codes "*_`>#-") c))
        (seq (plus (one is_digit)) (literal (codes "."))))
    ∷ literal_ci name
    ∷ star (one (one_of (codes "*_`")))
    ∷ literal (codes ":")
    ∷ star (one (λ c. is_space c || one_of (codes "*_`") c))
    ∷ group 1 (alt (literal_ci (codes "YES")) (literal_ci (codes "NO")))
    ∷ ahead false (one (λ c. (leb 97 (lower c) && leb (lower c) 122) || is_digit c))
    ∷ [])

abbrev pub bisect_re : Regex
bisect_re = answer_re (codes "BISECT")

abbrev pub restart_re : Regex
restart_re = answer_re (codes "Restart")

abbrev pub deterministic_streak : ℕ
deterministic_streak = 3

-- `m.group(1).upper() == "YES"`, for a group that is yes or no in any case
unfoldable pub says_yes : Cursor → Bool
says_yes c = eqb (map lower (group_of 1 c.groups)) (codes "yes")

-- The answer of a line, if it has one.
unfoldable pub answer : Regex → Str → Option Bool
unfolding says_yes
answer pattern line = option_map says_yes (match_at_start pattern line)

unfoldable pub first_answer : List Str → Option Bool
unfolding answer
first_answer [] = none
first_answer (line ∷ lines) = or_else (answer bisect_re line) (first_answer lines)

unfoldable pub bisect_verdict : Str → Option Bool
unfolding first_answer
bisect_verdict verdict = first_answer (reverse (splitlines verdict))

abbrev pub is_yes : Option Bool → Bool
is_yes none = false
is_yes (some b) = b

unfoldable pub replace_yes : Regex → Str → Str → Str
unfolding answer
replace_yes pattern instead line = if is_yes (answer pattern line) then instead else line

unfoldable pub yes_to_no : Str → Regex → Str → Str
unfolding replace_yes
yes_to_no verdict pattern instead =
    join (10 ∷ []) (map (replace_yes pattern instead) (splitlines verdict))

-- `NO — failed at least {streak} times in a row`
unfoldable pub refusal : Str → ℕ → Str
refusal name streak =
    name ++ (codes ": NO — failed at least " ++ (decimal streak ++ codes " times in a row"))

-- `streak or 0`
abbrev pub streak_length : Option ℕ → ℕ
streak_length none = 0
streak_length (some n) = n

unfoldable pub enforce_history_rules : Str → Option ℕ → Str
unfolding yes_to_no refusal
enforce_history_rules verdict streak =
    let n = streak_length streak in
    if ltb n deterministic_streak
    then verdict
    else yes_to_no (yes_to_no verdict bisect_re (refusal (codes "BISECT") n)) restart_re
        (refusal (codes "Restart") n)
