-- ===== src/Reaper/Main/Settings.antt =====
-- `parse_hmc_lpars` and `load_env_file` of s390x-qemu-zombie-reaper.py: the settings given as text.
pub mod Laws
use os_autoinst_scripts.Prelude.{
  ℕ, Bool, true, false, not, ◌||◌, Option, none, some, List, [], ◌∷◌, ◌==◌, if◌then◌else◌,
}
use os_autoinst_scripts.Py.Str.{
  Str, codes, strip, partition, starts_with, remove_prefix, splitlines, lstrip, rstrip,
}
use os_autoinst_scripts.Py.Dict.{Dict, insert, set_default}

unfoldable pub is_empty : Str → Bool
is_empty [] = true
is_empty (c ∷ s) = false

-- One round of the loop of `parse_hmc_lpars`; `none` is the `BadParameter`.
unfoldable pub add_entry : Str → Dict Str → Option (Dict Str)
unfolding is_empty partition strip
add_entry entry lpars =
    let (host, sep, lpar_id) = partition b'=' entry in
    if not sep || is_empty (strip host) || is_empty (strip lpar_id)
    then none
    else some (insert (strip host) (strip lpar_id) lpars)

unfoldable pub add_entries : List Str → Dict Str → Option (Dict Str)
add_entries [] lpars = some lpars
add_entries (entry ∷ entries) lpars = elim (add_entry entry lpars) [
  | none ↦ none
  | some more ↦ add_entries entries more
]

unfoldable pub parse_hmc_lpars : List Str → Option (Dict Str)
unfolding add_entries
parse_hmc_lpars entries = add_entries entries []

-- `value.strip("'\"")`
unfoldable pub is_quote : ℕ → Bool
is_quote c = c == b'\'' || c == b'"'

unfoldable pub lstrip_quotes : Str → Str
unfolding is_quote
lstrip_quotes [] = []
lstrip_quotes (c ∷ s) = let rest = lstrip_quotes s in if is_quote c then rest else c ∷ s

unfoldable pub rstrip_quotes : Str → Str
unfolding is_quote
rstrip_quotes [] = []
rstrip_quotes (c ∷ s) = elim (rstrip_quotes s) [
  | [] ↦ if is_quote c then [] else c ∷ []
  | d ∷ t ↦ c ∷ d ∷ t
]

unfoldable pub unquote : Str → Str
unfolding lstrip_quotes rstrip_quotes
unquote value = rstrip_quotes (lstrip_quotes value)

-- One round of the loop of `load_env_file`, on the variables of `os.environ`.
unfoldable pub load_line : Str → Dict Str → Dict Str
unfolding is_empty partition strip unquote
load_line raw_line environ =
    let line = remove_prefix (strip raw_line) (codes "export ") in
    let (key, sep, value) = partition b'=' line in
    if not sep || is_empty (strip key) || starts_with key (codes "#")
    then environ
    else set_default (strip key) (unquote (strip value)) environ

unfoldable pub load_lines : List Str → Dict Str → Dict Str
load_lines [] environ = environ
load_lines (line ∷ lines) environ = load_lines lines (load_line line environ)

-- `content` is the text of the file, `none` if there is no such file; `given` says that a path was
-- given. `none` is the `BadParameter`.
unfoldable pub load_env_file : Bool → Option Str → Dict Str → Option (Dict Str)
unfolding load_lines
load_env_file true none environ = none
load_env_file false none environ = some environ
load_env_file given (some content) environ = some (load_lines (splitlines content) environ)
