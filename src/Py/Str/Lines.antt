-- ===== src/Py/Str/Lines.antt =====
-- `str.splitlines` behind `"\n".join`.
use os_autoinst_scripts.Prelude.{
  ℕ, ◌≡◌, refl, Bool, true, false, List, [], ◌∷◌, ◌++◌, arith, any, All, if◌then◌else◌, ◌==◌,
}
use os_autoinst_scripts.Py.Str.{Str, push, is_break, lines_from, splitlines, join}

-- No character of the line ends it.
abbrev pub Unbroken : Str → Type 0
Unbroken line = any is_break line ≡ false

push-Unbroken :
    (c : ℕ) (lines : List Str)
    → is_break c ≡ false
    → All Unbroken lines
    → All Unbroken (push c lines)
push-Unbroken c [] h k = (ground (arith, h), tt)
push-Unbroken c (l ∷ lines) h k = (ground (arith, h, k.0), k.1)

if-All :
    (b : Bool) (ls ks : List Str)
    → All Unbroken ls
    → (b ≡ false → All Unbroken ks)
    → All Unbroken (if b then ls else ks)
if-All true ls ks h k = h
if-All false ls ks h k = k refl

lines_from-Unbroken : (after_cr : Bool) (s : Str) → All Unbroken (lines_from after_cr s)
unfolding lines_from
lines_from-Unbroken after_cr [] = tt
lines_from-Unbroken true (c ∷ s) = if-All (c == 10) _ _ (lines_from-Unbroken false s) (λ _.
    if-All (is_break c) _ _ (refl, lines_from-Unbroken (c == 13) s)
      (λ h. push-Unbroken c _ h (lines_from-Unbroken false s)))
lines_from-Unbroken false (c ∷ s) =
    if-All (is_break c) _ _ (refl, lines_from-Unbroken (c == 13) s)
      (λ h. push-Unbroken c _ h (lines_from-Unbroken false s))

-- The lines of a text have no line boundary in them.
pub splitlines-Unbroken : (s : Str) → All Unbroken (splitlines s)
unfolding splitlines
splitlines-Unbroken s = lines_from-Unbroken false s

line_first :
    (line rest : Str)
    → Unbroken line
    → lines_from false (line ++ (10 ∷ rest)) ≡ line ∷ lines_from false rest
unfolding lines_from is_break
line_first [] rest h = refl
line_first (c ∷ line) rest h = ground (arith, line_first line rest)

line_only :
    (c : ℕ) (line : Str) → Unbroken (c ∷ line) → lines_from false (c ∷ line) ≡ (c ∷ line) ∷ []
unfolding lines_from is_break
line_only c [] h = ground (arith, h)
line_only c (d ∷ line) h = ground (arith, h, line_only d line)

-- What holds of all of the given lines holds of the lines of their join.
pub All-splitlines-join :
    (P : Str → Type 0) (lines : List Str)
    → All Unbroken lines
    → All P lines
    → All P (splitlines (join (10 ∷ []) lines))
unfolding splitlines join
All-splitlines-join P [] u h = tt
All-splitlines-join P ([] ∷ []) u h = tt
All-splitlines-join P ((c ∷ line) ∷ []) u h = rw (line_only c line u.0) h
All-splitlines-join P (line ∷ next ∷ lines) u h =
    rw (line_first line (join (10 ∷ []) (next ∷ lines)) u.0)
      (h.0, All-splitlines-join P (next ∷ lines) u.1 h.1)
