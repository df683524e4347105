-- ===== src/Py/Text.antt =====
-- More methods of `str`: replace, partition by a text, and strip of given characters.
use os_autoinst_scripts.Prelude.{
  ℕ, zero, suc, ◌≡◌, refl, Bool, true, false, Option, none, some, List, [], ◌∷◌, ◌++◌, ◌-◌, length,
  drop, if◌then◌else◌, option_map, any, ◌==◌, ltb,
}
use os_autoinst_scripts.Py.Str.{Str, codes, starts_with, eqb}

-- `s.partition(sep)` for a separator that is not empty: what stands before and behind its first
-- occurrence, if there is one
unfoldable pub partition_at : Str → Str → Option (Str × Str)
unfolding starts_with
partition_at sep [] = none
partition_at sep (c ∷ s) =
    let later = option_map (λ (p : Str × Str). (c ∷ p.0, p.1)) (partition_at sep s) in
    if starts_with (c ∷ s) sep then some ([], drop (length sep) (c ∷ s)) else later

-- `s.replace(old, new)` for a text `old` that is not empty; `skip` characters belong to an occurrence
unfoldable pub replace_from : ℕ → Str → Str → Str → Str
unfolding starts_with
replace_from skip old new [] = []
replace_from (suc skip) old new (c ∷ s) = replace_from skip old new s
replace_from zero old new (c ∷ s) =
    let kept = replace_from zero old new s in
    let replaced = replace_from (length old - 1) old new s in
    if starts_with (c ∷ s) old then new ++ replaced else c ∷ kept

unfoldable pub replace : Str → Str → Str → Str
unfolding replace_from
replace s old new = replace_from zero old new s

-- `s.strip(chars)`
unfoldable pub trim_left : (ℕ → Bool) → Str → Str
trim_left p [] = []
trim_left p (c ∷ s) = let rest = trim_left p s in if p c then rest else c ∷ s

unfoldable pub trim_right : (ℕ → Bool) → Str → Str
trim_right p [] = []
trim_right p (c ∷ s) = elim (trim_right p s) [ [] ↦ if p c then [] else c ∷ [] | d ∷ t ↦ c ∷ d ∷ t ]

-- `s` as a condition
abbrev pub not_empty_text : Str → Bool
not_empty_text [] = false
not_empty_text (c ∷ s) = true

-- `x or ""`
abbrev pub or_empty : Option Str → Str
or_empty none = []
or_empty (some s) = s

-- `line in lines`, and what stands before and behind its first occurrence
unfoldable pub in_lines : Str → List Str → Bool
unfolding eqb
in_lines line lines = any (eqb line) lines

unfoldable pub lines_before : Str → List Str → List Str
unfolding eqb
lines_before line [] = []
lines_before line (l ∷ lines) =
    let rest = lines_before line lines in if eqb line l then [] else l ∷ rest

unfoldable pub lines_behind : Str → List Str → List Str
unfolding eqb
lines_behind line [] = []
lines_behind line (l ∷ lines) =
    let rest = lines_behind line lines in if eqb line l then lines else rest

-- `list(dict.fromkeys(lines))`
unfoldable pub unique_from : List Str → List Str → List Str
unfolding in_lines
unique_from seen [] = []
unique_from seen (l ∷ lines) =
    let rest = unique_from seen lines in
    let more = unique_from (l ∷ seen) lines in if in_lines l seen then rest else l ∷ more

unfoldable pub unique : List Str → List Str
unfolding unique_from
unique lines = unique_from [] lines

-- `s <= t` of two texts, by their code points
unfoldable pub leb_text : Str → Str → Bool
leb_text [] t = true
leb_text (c ∷ s) [] = false
leb_text (c ∷ s) (d ∷ t) = if c == d then leb_text s t else ltb c d

replace_test : replace (codes "a\\$b\\$") (codes "\\$") (codes "$") ≡ codes "a$b$"
unfolding replace
replace_test = refl

partition_at_test : partition_at (codes "=>") (codes "k=>v=>w") ≡ some (codes "k", codes "v=>w")
unfolding partition_at
partition_at_test = refl
