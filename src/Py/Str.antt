-- ===== src/Py/Str.antt =====
-- Python's `str` as the list of its code points, and the methods that the scripts call.
pub mod Lines
use Prim.Native.Char.{code}
use Prim.Native.String.{String}
use mathlib.Core.List.{reverse}
use os_autoinst_scripts.Prelude.{
  ℕ, ◌≡◌, refl, Bool, true, false, ◌&&◌, ◌||◌, Option, none, some, List, [], ◌∷◌, ◌++◌, map, arith,
  leb, ◌==◌, if◌then◌else◌, ◌↔◌,
}

abbrev pub Str : Type 0
Str = List ℕ

abbrev pub codes : String → Str
codes String.[] = []
codes (String.◌∷◌ c s) = code c ∷ codes s

-- `a == b`
unfoldable pub eqb : Str → Str → Bool
eqb [] [] = true
eqb [] (d ∷ t) = false
eqb (c ∷ s) [] = false
eqb (c ∷ s) (d ∷ t) = (c == d) && eqb s t

pub eqb_refl : (s : Str) → eqb s s ≡ true
unfolding eqb
eqb_refl [] = refl
eqb_refl (c ∷ s) = ground (arith, eqb_refl s)

pub eqb→eq : (s t : Str) → eqb s t ≡ true → s ≡ t
unfolding eqb
eqb→eq [] [] h = refl
eqb→eq [] (d ∷ t) h = cc
eqb→eq (c ∷ s) [] h = cc
eqb→eq (c ∷ s) (d ∷ t) h = ground (arith, eqb→eq s t)

pub eqb_iff : (s t : Str) → (eqb s t ≡ true) ↔ (s ≡ t)
eqb_iff s t = (eqb→eq s t, λ e. subst' s t e)
  where
    subst' : (s t : Str) → s ≡ t → eqb s t ≡ true
    subst' s t e = rw (← e) (eqb_refl s)

-- White space as `str.strip` and `str.split` see it.
unfoldable pub is_space : ℕ → Bool
is_space c =
    (leb 9 c && leb c 13)
    || (leb 28 c && leb c 32)
    || (c == 0x85)
    || (c == 0xa0)
    || (c == 0x1680)
    || (leb 0x2000 c && leb c 0x200a)
    || (c == 0x2028)
    || (c == 0x2029)
    || (c == 0x202f)
    || (c == 0x205f)
    || (c == 0x3000)

unfoldable pub lstrip : Str → Str
unfolding is_space
lstrip [] = []
lstrip (c ∷ s) = let rest = lstrip s in if is_space c then rest else c ∷ s

-- One pass from the right: what follows the last character that is not white space goes.
unfoldable pub rstrip : Str → Str
unfolding is_space
rstrip [] = []
rstrip (c ∷ s) = elim (rstrip s) [ [] ↦ if is_space c then [] else c ∷ [] | d ∷ t ↦ c ∷ d ∷ t ]

unfoldable pub strip : Str → Str
unfolding lstrip rstrip
strip s = rstrip (lstrip s)

unfoldable pub starts_with : Str → Str → Bool
starts_with s [] = true
starts_with [] (d ∷ t) = false
starts_with (c ∷ s) (d ∷ t) = (c == d) && starts_with s t

-- `s.endswith(t)`
unfoldable pub ends_with : Str → Str → Bool
unfolding starts_with
ends_with s t = starts_with (reverse s) (reverse t)

-- `t in s`
unfoldable pub contains : Str → Str → Bool
unfolding starts_with
contains [] t = starts_with [] t
contains (c ∷ s) t = starts_with (c ∷ s) t || contains s t

-- `s.removeprefix(p)`
abbrev drop_prefix : Str → Str → Option Str
drop_prefix s [] = some s
drop_prefix [] (d ∷ t) = none
drop_prefix (c ∷ s) (d ∷ t) = if c == d then drop_prefix s t else none

unfoldable pub remove_prefix : Str → Str → Str
remove_prefix s p = elim (drop_prefix s p) [ none ↦ s | some rest ↦ rest ]

abbrev pub push : ℕ → List Str → List Str
push c [] = (c ∷ []) ∷ []
push c (part ∷ parts) = (c ∷ part) ∷ parts

-- `s.split(sep)` for a separator of one character
unfoldable pub split : ℕ → Str → List Str
split sep [] = [] ∷ []
split sep (c ∷ s) = let rest = split sep s in if c == sep then [] ∷ rest else push c rest

-- `sep.join(parts)`
unfoldable pub join : Str → List Str → Str
join sep [] = []
join sep (p ∷ []) = p
join sep (p ∷ q ∷ parts) = p ++ (sep ++ join sep (q ∷ parts))

-- `s.partition(sep)` for a separator of one character: (head, found, tail)
unfoldable pub partition : ℕ → Str → Str × Bool × Str
partition sep [] = ([], false, [])
partition sep (c ∷ s) =
    let rest = partition sep s in if c == sep then ([], true, s) else (c ∷ rest.0, rest.1, rest.2)

-- The line boundaries of `str.splitlines`; `\r\n` counts as one.
unfoldable pub is_break : ℕ → Bool
is_break c =
    (leb 10 c && leb c 13)
    || (leb 28 c && leb c 30)
    || (c == 0x85)
    || (c == 0x2028)
    || (c == 0x2029)

-- `after_cr` says that a `\r` has just ended a line, so that a `\n` belongs to it.
unfoldable pub lines_from : Bool → Str → List Str
unfolding is_break
lines_from after_cr [] = []
lines_from true (c ∷ s) =
    let next = lines_from false s in
    let ended = lines_from (c == 13) s in
    if c == 10 then next else if is_break c then [] ∷ ended else push c next
lines_from false (c ∷ s) =
    let next = lines_from false s in
    let ended = lines_from (c == 13) s in if is_break c then [] ∷ ended else push c next

unfoldable pub splitlines : Str → List Str
unfolding lines_from
splitlines s = lines_from false s

splitlines_test :
    map (λ x. x) (splitlines (codes "a\r\nb\n\nc")) ≡ codes "a" ∷ codes "b" ∷ [] ∷ codes "c" ∷ []
unfolding splitlines
splitlines_test = refl
