-- ===== src/Investigate/Text/Died.antt =====
-- The command in a `# Test died:` message: openqa_llm_investigate/text.py.
use os_autoinst_scripts.Prelude.{◌||◌, Option, none, some, [], ◌∷◌, ◌++◌, ◌==◌, take, option_map}
use os_autoinst_scripts.Py.Str.{Str, codes, strip}
use os_autoinst_scripts.Py.Num.{is_digit}
use os_autoinst_scripts.Py.Dict.{or_else}
use os_autoinst_scripts.Py.Regex.{
  Regex, Cursor, one, seq, alt, star, lazy_star, group, is_word, search_in, group_of, literal,
  literal_ci, seqs, plus, one_of, none_of, lower,
}
use os_autoinst_scripts.Investigate.Text.Classes.{is_letter, space}
use os_autoinst_scripts.Investigate.Text.Commands.{dot, group_1, first_of}

-- `'([^']+)'`, with the quotes inside or outside the group
abbrev pub quoted : Regex
quoted =
    seqs
      (literal (codes "'") ∷ group 1 (plus (one (none_of (codes "'")))) ∷ literal (codes "'") ∷ [])

unfoldable pub died_quoted_command : Str → Option Str
unfolding search_in
died_quoted_command text = option_map group_1 (
    search_in
      (seqs (
        literal (codes "command ")
        ∷ quoted
        ∷ literal (codes " ")
        ∷ alt (literal (codes "timed out")) (literal (codes "failed"))
        ∷ []))
      text)

unfoldable pub died_failed_with_code : Str → Option Str
unfolding search_in strip
died_failed_with_code text =
    option_map (λ c. strip (group_1 c))
      (search_in
        (seqs (
          literal (codes "# Test died: ")
          ∷ quoted
          ∷ literal (codes " failed with code ")
          ∷ plus (one is_digit)
          ∷ []))
        text)

-- `Waiting for Godot:\s+(.+?)\s+at\s+`
abbrev pub godot_re : Regex
godot_re = seqs (
    literal (codes "Waiting for Godot:")
    ∷ plus space
    ∷ group 1 (seq dot (lazy_star dot))
    ∷ plus space
    ∷ literal (codes "at")
    ∷ plus space
    ∷ [])

unfoldable pub godot_inner : Str → Str
unfolding search_in
godot_inner command = elim (search_in (seq (literal (codes "$")) quoted) command) [
  | none ↦ take 200 command
  | some inner ↦ take 200 (group_1 inner)
]

unfoldable pub died_godot : Str → Option Str
unfolding search_in godot_inner
died_godot text = option_map (λ c. godot_inner (group_1 c)) (search_in godot_re text)

-- `::\w+\(Q([^Q]+)Q\)` for a quotation mark Q
abbrev pub call_re : Str → Regex
call_re quote = seqs (
    literal (codes "::")
    ∷ plus (one is_word)
    ∷ literal (codes "(" ++ quote)
    ∷ group 1 (plus (one (none_of quote)))
    ∷ literal (quote ++ codes ")")
    ∷ [])

-- `([a-z0-9_-]+) returned with \d+` without regard to case
abbrev pub returned_re : Regex
returned_re = seqs (
    group 1 (plus (one (λ c. is_letter (lower c) || is_digit c || one_of (codes "_-") c)))
    ∷ literal_ci (codes " returned with ")
    ∷ plus (one is_digit)
    ∷ [])

unfoldable pub call_or_name : Str → Str → Str
unfolding search_in
call_or_name text name =
    elim (or_else (search_in (call_re (codes "\"")) text) (search_in (call_re (codes "'")) text)) [
      | none ↦ name
      | some func ↦ take 200 (group_1 func)
    ]

unfoldable pub died_returned_with : Str → Option Str
unfolding search_in call_or_name
died_returned_with text =
    option_map (λ c. call_or_name text (group_1 c)) (search_in returned_re text)

unfoldable pub died_needle : Str → Option Str
unfolding search_in
died_needle text = option_map group_1 (
    search_in
      (group 1 (
        seqs (
          literal (codes "no candidate needle with tag(s) '")
          ∷ plus (one (none_of (codes "'")))
          ∷ literal (codes "'")
          ∷ [])))
      text)

-- `[a-zA-Z_]\w*`
abbrev pub name_re : Regex
name_re = seq (one (λ c. is_letter c || (c == b'_'))) (star (one is_word))

abbrev pub died_call_re : Regex
died_call_re = seqs (
    literal (codes "# Test died:")
    ∷ lazy_star dot
    ∷ group 1 (seq name_re (star (seq (literal (codes "::")) name_re)))
    ∷ star space
    ∷ literal (codes "(")
    ∷ group 2 (star (one (none_of (codes ")"))))
    ∷ literal (codes ")")
    ∷ [])

unfoldable pub call_text : Str → Str → Str
call_text name [] = name
call_text name (c ∷ args) = name ++ (codes "(" ++ (take 120 (c ∷ args) ++ codes ")"))

unfoldable pub died_call : Str → Option Str
unfolding search_in call_text strip
died_call text =
    option_map (λ (c : Cursor). call_text (group_1 c) (strip (group_of 2 c.groups)))
      (search_in died_call_re text)

-- `if (cmd := parse(text_data))`: an empty command counts as none
abbrev pub if_text : Option Str → Option Str
if_text none = none
if_text (some []) = none
if_text (some (c ∷ s)) = some (c ∷ s)

unfoldable pub parse_command_from_test_died : Str → Option Str
unfolding first_of died_quoted_command died_failed_with_code died_godot died_returned_with
    died_needle died_call
parse_command_from_test_died text_data =
    first_of (λ (parse : Str → Option Str). if_text (parse text_data))
      (died_quoted_command ∷ died_failed_with_code ∷ died_godot ∷ died_returned_with ∷ died_needle
        ∷ died_call ∷ [])
