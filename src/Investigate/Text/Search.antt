-- ===== src/Investigate/Text/Search.antt =====
-- What to search for in a log: openqa_llm_investigate/text.py.
use os_autoinst_scripts.Prelude.{Option, none, some, List, [], ◌∷◌, ◌++◌, if◌then◌else◌, option_map}
use os_autoinst_scripts.Py.Str.{Str, codes, contains, split}
use os_autoinst_scripts.Py.Text.{partition_at, not_empty_text}
use os_autoinst_scripts.Py.Dict.{or_else}
use os_autoinst_scripts.Py.Regex.{
  Regex, one, star, at_end, is_word, is_some, match_at_start, literal, seqs, plus,
}
use os_autoinst_scripts.Investigate.Text.Classes.{space, not_space}
use os_autoinst_scripts.Investigate.Text.Commands.{
  dot, field_of, without_finish, strip_quotes, qr_prefix_re, group_1, first_of,
}
use os_autoinst_scripts.Investigate.Step.{Step, text_of}
use os_autoinst_scripts.Investigate.Text.Died.{if_text, parse_command_from_test_died}

-- `echo \w+;\s*bash\s+.*/tmp/script\S+\.sh\s*$`
abbrev pub wrapper_re : Regex
wrapper_re = seqs (
    literal (codes "echo ")
    ∷ plus (one is_word)
    ∷ literal (codes ";")
    ∷ star space
    ∷ literal (codes "bash")
    ∷ plus space
    ∷ star dot
    ∷ literal (codes "/tmp/script")
    ∷ plus not_space
    ∷ literal (codes ".sh")
    ∷ star space
    ∷ at_end
    ∷ [])

unfoldable pub unless_wrapper : Str → Option Str
unfolding match_at_start
unless_wrapper cmd = if is_some (match_at_start wrapper_re cmd) then none else some cmd

unfoldable pub search_command : List Str → Option Str
unfolding first_of field_of without_finish unless_wrapper
search_command lines = elim (first_of (field_of (codes "# Command:")) lines) [
  | none ↦ none
  | some cmd ↦ unless_wrapper (without_finish cmd)
]

unfoldable pub expected_text : Str → Str
unfolding match_at_start strip_quotes
expected_text expected = elim (match_at_start qr_prefix_re expected) [
  | some qr ↦ group_1 qr
  | none ↦ strip_quotes expected
]

-- An empty command is passed over like none.
unfoldable pub extract_search_string_from_step : Option Step → Option Str
unfolding search_command expected_text first_of field_of parse_command_from_test_died contains split
extract_search_string_from_step none = none
extract_search_string_from_step (some detail) =
    let text_data = text_of detail in
    let lines = split 10 text_data in
    if not_empty_text text_data
    then or_else (if_text (search_command lines)) (
        or_else
          (option_map expected_text (first_of (field_of (codes "# wait_serial expected:")) lines))
          (if contains text_data (codes "# Test died:")
            then parse_command_from_test_died text_data
            else none))
    else none

-- `name[idx:] if idx > 0 else name`, for the place of `test_`
abbrev pub from_test : Str → Option (Str × Str) → Str
from_test name none = name
from_test name (some ([], tail)) = name
from_test name (some (c ∷ head, tail)) = codes "test_" ++ tail

unfoldable pub ipa_search_key : Str → Str
unfolding partition_at
ipa_search_key name = from_test name (partition_at (codes "test_") name)
