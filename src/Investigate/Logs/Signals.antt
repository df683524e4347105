-- ===== src/Investigate/Logs/Signals.antt =====
-- The verdict on the key error of a job, and other signals of openqa_llm_investigate/logs.py.
use os_autoinst_scripts.Prelude.{
  ℕ, ◌≡◌, refl, Bool, ◌&&◌, not, Option, none, some, List, [], ◌∷◌, ◌++◌, if◌then◌else◌, length,
  take, drop, filter, any, find, last?, option_map, ap, Bool-cases, inl, inr,
}
use os_autoinst_scripts.Py.Dict.{or_else}
use os_autoinst_scripts.Py.Str.{Str, codes, starts_with, split}
use os_autoinst_scripts.Py.Regex.{Regex, seq, star, group, is_some, search_in, sub, literal}
use os_autoinst_scripts.Py.Text.{partition_at}
use os_autoinst_scripts.Investigate.Text.Commands.{dot, group_1, first_of, without_escapes}
use os_autoinst_scripts.Investigate.Text.Died.{if_text}
use os_autoinst_scripts.Investigate.Text.Lines.{is_text}
use os_autoinst_scripts.Investigate.Logs.Rules.{
  Rule, expand, key_rules, step_rules, generic_verdicts, denial_re, permissive_denial_re,
}

-- The verdict of a rule on a text.
unfoldable pub verdict_of : Str → Rule → Option Str
unfolding search_in expand
verdict_of text rule = option_map (expand rule.template) (search_in rule.pattern text)

-- The first rule that matches one of the texts decides, with the first text that it matches.
unfoldable pub failing_step_verdict : List Str → Option Str
unfolding first_of verdict_of
failing_step_verdict texts =
    first_of (λ (rule : Rule). first_of (λ text. verdict_of text rule) texts) step_rules

abbrev pub is_generic : Rule → Bool
is_generic rule = any (starts_with rule.template) generic_verdicts

-- The loop over the key rules; `has_step` says that a failing step has a verdict.
unfoldable pub first_verdict : Bool → Str → List Rule → Option Str
unfolding verdict_of starts_with
first_verdict has_step text [] = none
first_verdict has_step text (rule ∷ rules) =
    let later = first_verdict has_step text rules in
    if has_step && is_generic rule then later else or_else (verdict_of text rule) later

abbrev pub shows_denial : List Str → Bool
shows_denial texts = any (λ t. is_some (search_in denial_re t)) texts

-- Permissive denials only count for a check of SELinux or if a failing step shows a denial.
unfoldable pub enforced : Str → List Str → Bool → Str
unfolding sub search_in
enforced text failing_steps selinux_check =
    if not selinux_check && not (shows_denial failing_steps)
    then sub permissive_denial_re (λ c. []) text
    else text

unfoldable pub summarize_key_error : Str → List Str → Bool → Option Str
unfolding enforced failing_step_verdict first_verdict
summarize_key_error text failing_steps selinux_check =
    let step = failing_step_verdict failing_steps in
    or_else
      (first_verdict (is_some (if_text step)) (enforced text failing_steps selinux_check) key_rules)
      step

-- `ln.split(": ", 1)[-1]`
abbrev pub behind_key : Str → Option (Str × Str) → Str
behind_key line none = line
behind_key line (some (key, value)) = value

-- `title or value`
abbrev pub or_value : Option Str → Str → Str
or_value none value = value
or_value (some []) value = value
or_value (some (c ∷ s)) value = c ∷ s

abbrev pub dialog_of : List Str → Option Str
dialog_of [] = none
dialog_of (l ∷ lines) =
    let title =
      option_map (drop 7) (find (λ line. starts_with line (codes "title: ")) (l ∷ lines)) in
    some
      (codes "DIALOG: " ++ take 100 (or_value title (behind_key l (partition_at (codes ": ") l))))

unfoldable pub dialog_signal : List Str → Option Str
unfolding starts_with partition_at is_text
dialog_signal lines =
    dialog_of (filter (λ line. is_text line && not (starts_with line (codes "#"))) lines)

-- `Test died: .*` with the match in a group
abbrev pub died_re : Regex
died_re = group 1 (seq (literal (codes "Test died: ")) (star dot))

unfoldable pub died_messages : List Str → List Str
unfolding search_in
died_messages [] = []
died_messages (line ∷ lines) = elim (search_in died_re line) [
  | none ↦ died_messages lines
  | some m ↦ take 300 (group_1 m) ∷ died_messages lines
]

unfoldable pub last_test_died : Str → Option (Str × ℕ)
unfolding died_messages without_escapes split
last_test_died autoinst_log =
    let found = died_messages (split 10 autoinst_log) in
    option_map (λ last. (without_escapes last, length found)) (last? found)

first_verdict_lem :
    (has_step : Bool) (text : Str) (rules : List Rule)
    → first_verdict has_step text rules
      ≡ first_of (verdict_of text) (filter (λ rule. not (has_step && is_generic rule)) rules)
unfolding first_verdict first_of
first_verdict_lem has_step text [] = refl
first_verdict_lem has_step text (rule ∷ rules) = elim (Bool-cases (has_step && is_generic rule)) [
  | inl e ↦ rw e (first_verdict_lem has_step text rules)
  | inr e ↦
      rw e (ap (λ o. or_else (verdict_of text rule) o) (first_verdict_lem has_step text rules))
]

abbrev pub beats : Option Str → Rule → Bool
beats step rule = not (is_some (if_text step) && is_generic rule)

-- The verdict is that of the first key rule that matches the text without the denials that were not
-- enforced, where a verdict of the failing steps beats the generic rules and no other; without such a
-- rule it is the verdict of the failing steps, if they have one.
pub summarize_key_error_lem :
    (text : Str) (failing_steps : List Str) (selinux_check : Bool)
    → let step = failing_step_verdict failing_steps in
      summarize_key_error text failing_steps selinux_check
      ≡ or_else
          (first_of
            (verdict_of (enforced text failing_steps selinux_check))
            (filter (beats step) key_rules))
          step
unfolding summarize_key_error
summarize_key_error_lem text failing_steps selinux_check =
    let step = failing_step_verdict failing_steps in
    ap (λ o. or_else o step)
      (first_verdict_lem (is_some (if_text step)) (enforced text failing_steps selinux_check)
        key_rules)
