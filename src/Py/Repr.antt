-- ===== src/Py/Repr.antt =====
-- `repr` of a text. Beyond ASCII, a character counts as printable from U+00A1 on, but for U+00AD.
use os_autoinst_scripts.Prelude.{
  ℕ, ◌+◌, ◌/◌, ◌%◌, ◌≡◌, refl, Bool, ◌&&◌, ◌||◌, not, [], ◌∷◌, ◌++◌, leb, ltb, ◌==◌, if◌then◌else◌,
  any,
}
use os_autoinst_scripts.Py.Str.{Str, codes}

abbrev has : ℕ → Str → Bool
has c s = any (λ d. d == c) s

-- The double quote is used only for a text with single and without double ones.
abbrev quote_of : Str → ℕ
quote_of s = if has 39 s && not (has 34 s) then 34 else 39

abbrev hex : ℕ → ℕ
hex n = if ltb n 10 then 48 + n else 87 + n

abbrev shown_char : ℕ → ℕ → Str
shown_char quote c =
    if c == quote || (c == b'\\')
    then b'\\' ∷ c ∷ []
    else if c == 9
    then codes "\\t"
    else if c == 10
    then codes "\\n"
    else if c == 13
    then codes "\\r"
    else if ltb c 32 || (leb 127 c && leb c 160) || (c == 173)
    then codes "\\x" ++ (hex (c / 16) ∷ hex (c % 16) ∷ [])
    else c ∷ []

shown_chars : ℕ → Str → Str
shown_chars quote [] = []
shown_chars quote (c ∷ s) = shown_char quote c ++ shown_chars quote s

unfoldable pub repr : Str → Str
unfolding shown_chars
repr s = let quote = quote_of s in quote ∷ (shown_chars quote s ++ (quote ∷ []))

repr_test : repr (codes "it's\n\\") ≡ codes "\"it's\\n\\\\\""
unfolding repr
repr_test = refl
