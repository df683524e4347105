-- ===== src/Reaper/Check/Pids.antt =====
-- The processes that both samples show, and the order in which they are reported.
pub mod Laws
use os_autoinst_scripts.Prelude.{
  ℕ, Bool, true, false, ◌||◌, Option, none, some, List, [], ◌∷◌, filter, map, any, leb,
  if◌then◌else◌,
}
use os_autoinst_scripts.Py.Str.{Str, eqb, is_space}
use os_autoinst_scripts.Py.Num.{all_digits, int_from}

unfoldable pub member : Str → List Str → Bool
member line [] = false
member line (l ∷ ls) = eqb line l || member line ls

unfoldable pub distinct_lines : List Str → List Str
unfolding member
distinct_lines [] = []
distinct_lines (l ∷ ls) = let rest = distinct_lines ls in if member l ls then rest else l ∷ rest

-- `set(initial).intersection(verified)`, without an order of its own
unfoldable pub stuck : List Str → List Str → List Str
unfolding distinct_lines
stuck initial verified = distinct_lines (filter (λ line. member line verified) initial)

-- `line.split(maxsplit=1)[0]` of a line with no white space around it
unfoldable pub first_word : Str → Str
first_word [] = []
first_word (c ∷ s) = let rest = first_word s in if is_space c then [] else c ∷ rest

-- The sort key: `int(x)` or the text. Numbers and texts are not ordered.
unfoldable pub leb_text : Str → Str → Bool
leb_text [] t = true
leb_text (c ∷ s) [] = false
leb_text (c ∷ s) (d ∷ t) = if leb c d then (if leb d c then leb_text s t else true) else false

unfoldable pub pid_leb : Str → Str → Option Bool
unfolding leb_text
pid_leb x y =
    if all_digits x
    then (if all_digits y then some (leb (int_from 0 x) (int_from 0 y)) else none)
    else if all_digits y
    then none
    else some (leb_text x y)

unfoldable pub insert_pid : Str → List Str → Option (List Str)
unfolding pid_leb
insert_pid x [] = some (x ∷ [])
insert_pid x (y ∷ ys) =
    let rest = insert_pid x ys in
    elim (pid_leb x y) [
      | none ↦ none
      | some before ↦
          if before then some (x ∷ y ∷ ys) else elim rest [ none ↦ none | some zs ↦ some (y ∷ zs) ]
    ]

unfoldable pub sort_pids : List Str → Option (List Str)
unfolding insert_pid
sort_pids [] = some []
sort_pids (x ∷ xs) = elim (sort_pids xs) [ none ↦ none | some ys ↦ insert_pid x ys ]

unfoldable pub sorted_pids : List Str → Option (List Str)
unfolding first_word sort_pids
sorted_pids lines = sort_pids (map first_word lines)
