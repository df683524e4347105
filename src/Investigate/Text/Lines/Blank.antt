-- ===== src/Investigate/Text/Lines/Blank.antt =====
-- What `_squeeze_blank` leaves.
use mathlib.Core.List.{reverse, reverse_aux, reverse-reverse}
use os_autoinst_scripts.Prelude.{
  ℕ, ◌≡◌, refl, Bool, true, false, not, ◌&&◌, ◌||◌, List, [], ◌∷◌, map, arith, if◌then◌else◌,
  filter, any, ◌∙◌, sym, ap,
}
use os_autoinst_scripts.Py.Str.{Str, is_space, strip, lstrip, rstrip}
use os_autoinst_scripts.Py.Text.{not_empty_text}
use os_autoinst_scripts.Investigate.Text.Lines.{
  is_text, ends_in_text, squeeze_onto, pop_blank, squeeze_blank,
}

-- A character that is not white space.
abbrev solid : ℕ → Bool
solid c = not (is_space c)

if-not_empty : (b : Bool) (c : ℕ) → not_empty_text (if b then [] else c ∷ []) ≡ (not b || false)
if-not_empty true c = refl
if-not_empty false c = refl

or_true : (b : Bool) → (b || true) ≡ true
or_true true = refl
or_true false = refl

not_empty-step :
    (c : ℕ) (t : Str)
    → not_empty_text (elim t [ [] ↦ if is_space c then [] else c ∷ [] | d ∷ u ↦ c ∷ d ∷ u ])
      ≡ (solid c || not_empty_text t)
not_empty-step c [] = if-not_empty (is_space c) c
not_empty-step c (d ∷ u) = sym (or_true (solid c))

not_empty-rstrip : (s : Str) → not_empty_text (rstrip s) ≡ any solid s
unfolding rstrip
not_empty-rstrip [] = refl
not_empty-rstrip (c ∷ s) = not_empty-step c (rstrip s) ∙ ap (λ b. solid c || b) (not_empty-rstrip s)

any-rstrip : (s : Str) → any solid (rstrip s) ≡ any solid s
unfolding rstrip
any-rstrip [] = refl
any-rstrip (c ∷ s) = ground (arith, any-rstrip s)

any-lstrip : (s : Str) → any solid (lstrip s) ≡ any solid s
unfolding lstrip
any-lstrip [] = refl
any-lstrip (c ∷ s) = ground (arith, any-lstrip s)

is_text-any : (s : Str) → is_text s ≡ any solid s
unfolding is_text strip
is_text-any s = not_empty-rstrip (lstrip s) ∙ any-lstrip s

is_text-rstrip : (s : Str) → is_text (rstrip s) ≡ is_text s
is_text-rstrip s = is_text-any (rstrip s) ∙ any-rstrip s ∙ sym (is_text-any s)

filter-squeeze_onto :
    (out lines : List Str)
    → filter is_text (squeeze_onto out lines)
      ≡ reverse_aux (map rstrip (filter is_text lines)) (filter is_text out)
unfolding squeeze_onto
filter-squeeze_onto out [] = refl
filter-squeeze_onto out (line ∷ lines) = ground (
  arith,
  is_text-rstrip line,
  filter-squeeze_onto (rstrip line ∷ out) lines,
  filter-squeeze_onto out lines,
)

filter-pop_blank : (out : List Str) → filter is_text (pop_blank out) ≡ filter is_text out
unfolding pop_blank
filter-pop_blank [] = refl
filter-pop_blank (line ∷ out) = ground (arith, filter-pop_blank out)

filter-reverse_aux :
    (p : Str → Bool) (xs ys : List Str)
    → filter p (reverse_aux xs ys) ≡ reverse_aux (filter p xs) (filter p ys)
filter-reverse_aux p [] ys = refl
filter-reverse_aux p (x ∷ xs) ys = ground (arith, filter-reverse_aux p xs (x ∷ ys))

-- No two lines next to each other are blank, and the last of the list is not blank.
abbrev pub tidy : List Str → Bool
tidy [] = true
tidy (line ∷ []) = is_text line
tidy (line ∷ next ∷ lines) = (is_text line || is_text next) && tidy (next ∷ lines)

tidy_cons :
    (line : Str) (out : List Str)
    → (is_text line || ends_in_text out) ≡ true
    → tidy out ≡ true
    → tidy (line ∷ out) ≡ true
tidy_cons line [] h k = ground (arith, h)
tidy_cons line (next ∷ out) h k = ground (arith, h, k)

tidy-squeeze_onto : (out lines : List Str) → tidy out ≡ true → tidy (squeeze_onto out lines) ≡ true
unfolding squeeze_onto
tidy-squeeze_onto out [] h = h
tidy-squeeze_onto out (line ∷ lines) h = ground (
  arith,
  h,
  is_text-rstrip line,
  tidy_cons (rstrip line) out,
  tidy-squeeze_onto (rstrip line ∷ out) lines,
  tidy-squeeze_onto out lines,
)

-- The first line of the list, if there is one, is not blank.
abbrev pub starts_in_text : List Str → Bool
starts_in_text [] = true
starts_in_text (line ∷ lines) = is_text line

pop_blank-tidy :
    (out : List Str)
    → tidy out ≡ true
    → (tidy (pop_blank out) && starts_in_text (pop_blank out)) ≡ true
unfolding pop_blank
pop_blank-tidy [] h = refl
pop_blank-tidy (line ∷ []) h = ground (arith, h)
pop_blank-tidy (line ∷ next ∷ out) h = ground (arith, h, pop_blank-tidy (next ∷ out))

-- `_squeeze_blank` keeps every line that is not blank, in order and without trailing white space;
-- read from its end, its result has no two blank lines in a row and a blank line at neither end.
pub squeeze_blank_lem :
    (lines : List Str)
    → (filter is_text (squeeze_blank lines) ≡ map rstrip (filter is_text lines))
      × (tidy (reverse (squeeze_blank lines)) ≡ true)
      × (starts_in_text (reverse (squeeze_blank lines)) ≡ true)
unfolding squeeze_blank
squeeze_blank_lem lines =
    let out = squeeze_onto [] lines in
    let h = pop_blank-tidy out (tidy-squeeze_onto [] lines refl) in
    rw (reverse-reverse (pop_blank out)) (
      filter-reverse_aux is_text (pop_blank out) []
          ∙ ap reverse (filter-pop_blank out ∙ filter-squeeze_onto [] lines)
          ∙ reverse-reverse (map rstrip (filter is_text lines)),
      ground (arith, h),
      ground (arith, h),
    )
