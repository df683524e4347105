-- ===== src/Reaper/Main/Settings/Laws.antt =====
-- What the settings given as text mean.
use os_autoinst_scripts.Prelude.{
  ◌≡◌, refl, ap, Bool, true, false, not, ◌||◌, Option, none, some, List, [], ◌∷◌, arith, any,
  option_map, if◌then◌else◌,
}
use os_autoinst_scripts.Py.Str.{
  Str, codes, eqb, strip, partition, starts_with, remove_prefix, splitlines,
}
use os_autoinst_scripts.Py.Dict.{Dict, lookup, insert, lookup-insert, lookup-set_default, or_else}
use os_autoinst_scripts.Reaper.Main.Settings.{
  is_empty, add_entry, add_entries, parse_hmc_lpars, unquote, load_line, load_lines, load_env_file,
}

-- Is `HOST=LPAR_ID` malformed?
unfoldable pub is_malformed : Str → Bool
unfolding is_empty partition strip
is_malformed entry =
    let (host, sep, lpar_id) = partition b'=' entry in
    not sep || is_empty (strip host) || is_empty (strip lpar_id)

abbrev host_of : Str → Str
host_of entry = strip (partition b'=' entry).0

abbrev lpar_of : Str → Str
lpar_of entry = strip (partition b'=' entry).2

-- The LPAR of the last entry for a host.
abbrev pub last_for : Str → List Str → Option Str
last_for host [] = none
last_for host (entry ∷ entries) =
    or_else (last_for host entries)
      (if eqb (host_of entry) host then some (lpar_of entry) else none)

add_entry_lem :
    (entry : Str) (d : Dict Str)
    → add_entry entry d
      ≡ (if is_malformed entry then none else some (insert (host_of entry) (lpar_of entry) d))
unfolding add_entry is_malformed
add_entry_lem entry d = refl

add_entries_lem :
    (host : Str) (entries : List Str) (d : Dict Str)
    → option_map (lookup host) (add_entries entries d) ≡ (
        if any is_malformed entries
        then none
        else some (or_else (last_for host entries) (lookup host d)))
unfolding add_entries
add_entries_lem host [] d = refl
add_entries_lem host (e ∷ es) d =
    let d' = insert (host_of e) (lpar_of e) d in
    ground (
      arith,
      add_entry_lem e d,
      add_entries_lem host es d',
      lookup-insert (host_of e) host (lpar_of e) d,
    )

-- `--hmc-lpar` is refused if one of its entries has no `=`, or nothing on one side of it. Otherwise
-- the LPAR of a host is the one of its last entry, with the white space around both parts removed.
pub parse_hmc_lpars_lem :
    (host : Str) (entries : List Str)
    → option_map (lookup host) (parse_hmc_lpars entries)
      ≡ (if any is_malformed entries then none else some (last_for host entries))
unfolding parse_hmc_lpars lookup
parse_hmc_lpars_lem host entries = ground (arith, add_entries_lem host entries [])

-- The assignment of a line of a .env file: the key and the value, if the line is one.
unfoldable pub assignment : Str → Option (Str × Str)
unfolding is_empty partition strip unquote
assignment raw_line =
    let line = remove_prefix (strip raw_line) (codes "export ") in
    let (key, sep, value) = partition b'=' line in
    if not sep || is_empty (strip key) || starts_with key (codes "#")
    then none
    else some (strip key, unquote (strip value))

abbrev value_for : Str → Option (Str × Str) → Option Str
value_for k none = none
value_for k (some (key, value)) = if eqb key k then some value else none

-- The value of the first assignment to a variable.
abbrev pub first_for : Str → List Str → Option Str
first_for k [] = none
first_for k (line ∷ lines) = or_else (value_for k (assignment line)) (first_for k lines)

load_line_lem :
    (k line : Str) (environ : Dict Str)
    → lookup k (load_line line environ) ≡ or_else (lookup k environ) (value_for k (assignment line))
unfolding load_line assignment
load_line_lem k raw_line environ =
    let line = remove_prefix (strip raw_line) (codes "export ") in
    let (key, sep, value) = partition b'=' line in
    ground (arith, lookup-set_default (strip key) k (unquote (strip value)) environ)

load_lines_lem :
    (k : Str) (lines : List Str) (environ : Dict Str)
    → lookup k (load_lines lines environ) ≡ or_else (lookup k environ) (first_for k lines)
unfolding load_lines
load_lines_lem k [] environ = ground arith
load_lines_lem k (line ∷ lines) environ =
    ground (arith, load_lines_lem k lines (load_line line environ), load_line_lem k line environ)

-- A .env file that is there sets a variable to the value of its first assignment, unquoted and
-- without white space around it, and leaves every variable that is set already.
pub load_env_file_lem :
    (k : Str) (given : Bool) (content : Str) (environ : Dict Str)
    → option_map (lookup k) (load_env_file given (some content) environ)
      ≡ some (or_else (lookup k environ) (first_for k (splitlines content)))
unfolding load_env_file
load_env_file_lem k true content environ = ap some (load_lines_lem k (splitlines content) environ)
load_env_file_lem k false content environ = ap some (load_lines_lem k (splitlines content) environ)
