-- ===== src/Py/Regex.antt =====
-- The regular expressions of Python's `re` that the scripts use, matched by backtracking: an
-- expression is tried in the order in which `re` tries it, and hands on to what is to match behind
-- it. `\d` and `\w` are the ASCII digits and word characters.
pub mod Masks
use mathlib.Core.List.{reverse}
use os_autoinst_scripts.Prelude.{
  ℕ, zero, suc, ◌+◌, ◌-◌, ◌≡◌, refl, Bool, true, false, ◌&&◌, ◌||◌, not, Option, none, some, List,
  [], ◌∷◌, ◌++◌, leb, ltb, ◌==◌, if◌then◌else◌, length, take, any,
}
use os_autoinst_scripts.Py.Str.{Str, codes}
use os_autoinst_scripts.Py.Num.{is_digit}
use os_autoinst_scripts.Py.Dict.{or_else}

-- `line_start` and `line_end` are `^` and `$` under `re.MULTILINE`.
pub data Regex : Type 0 where
  empty : Regex
  one : (ℕ → Bool) → Regex
  seq : Regex → Regex → Regex
  alt : Regex → Regex → Regex
  star : Regex → Regex
  lazy_star : Regex → Regex
  group : ℕ → Regex → Regex
  at_start : Regex
  at_end : Regex
  line_start : Regex
  line_end : Regex
  word_edge : Regex
  ahead : Bool → Regex → Regex
  behind_not : (ℕ → Bool) → Regex

-- Where a match stands: the text before it from right to left, the text that is left, and the groups
-- that are matched, the latest first.
pub record Cursor : Type 0 where
  pub before : Str
  pub rest : Str
  pub groups : List (ℕ × Str)

abbrev pub Next : Type 0
Next = Cursor → Option Cursor

-- `\w` within ASCII
unfoldable pub is_word : ℕ → Bool
unfolding is_digit
is_word c = is_digit c || (leb 65 c && leb c 90) || (leb 97 c && leb c 122) || (c == b'_')

abbrev pub head_is : (ℕ → Bool) → Str → Bool
head_is p [] = false
head_is p (c ∷ s) = p c

abbrev pub step_one : (ℕ → Bool) → Str → Str → List (ℕ × Str) → Next → Option Cursor
step_one p before [] groups k = none
step_one p before (c ∷ s) groups k =
    if p c then k (record { before = c ∷ before; rest = s; groups = groups }) else none

abbrev pub when : Bool → Option Cursor → Option Cursor
when true o = o
when false o = none

abbrev pub is_some {ℓ} : {A : Type ℓ} → Option A → Bool
is_some none = false
is_some (some a) = true

-- `$` also matches before a line feed that ends the text.
abbrev pub ends : Str → Bool
ends [] = true
ends (c ∷ []) = c == 10
ends (c ∷ d ∷ s) = false

abbrev pub is_empty_list {ℓ} : {A : Type ℓ} → List A → Bool
is_empty_list [] = true
is_empty_list (x ∷ xs) = false

abbrev pub differ : Bool → Bool → Bool
differ true b = not b
differ false b = b

abbrev pub group_added : ℕ → Cursor → Cursor → Cursor
group_added n from to = record {
  before = to.before;
  rest = to.rest;
  groups = (n, reverse (take (length to.before - length from.before) to.before)) ∷ to.groups;
}

-- A round of a loop that takes nothing ends it, so there are no more rounds than characters.
unfoldable pub greedy : (Cursor → Next → Option Cursor) → ℕ → Cursor → Next → Option Cursor
greedy body zero c k = k c
greedy body (suc n) c k =
    or_else (body c (λ d. when (ltb (length c.before) (length d.before)) (greedy body n d k))) (k c)

unfoldable pub reluctant : (Cursor → Next → Option Cursor) → ℕ → Cursor → Next → Option Cursor
reluctant body zero c k = k c
reluctant body (suc n) c k =
    or_else (k c)
      (body c (λ d. when (ltb (length c.before) (length d.before)) (reluctant body n d k)))

unfoldable pub matches : Regex → Cursor → Next → Option Cursor
unfolding is_word greedy reluctant
matches empty c k = k c
matches (one p) c k = step_one p c.before c.rest c.groups k
matches (seq r s) c k = matches r c (λ d. matches s d k)
matches (alt r s) c k = or_else (matches r c k) (matches s c k)
matches (star r) c k = greedy (matches r) (length c.rest) c k
matches (lazy_star r) c k = reluctant (matches r) (length c.rest) c k
matches (group n r) c k = matches r c (λ d. k (group_added n c d))
matches at_start c k = when (is_empty_list c.before) (k c)
matches at_end c k = when (ends c.rest) (k c)
matches line_start c k = when (is_empty_list c.before || head_is (λ d. d == 10) c.before) (k c)
matches line_end c k = when (is_empty_list c.rest || head_is (λ d. d == 10) c.rest) (k c)
matches word_edge c k = when (differ (head_is is_word c.before) (head_is is_word c.rest)) (k c)
matches (ahead positive r) c k = when (differ (not positive) (is_some (matches r c some))) (k c)
matches (behind_not p) c k = when (not (head_is p c.before)) (k c)

abbrev pub cursor : Str → Str → Cursor
cursor before rest = record { before = before; rest = rest; groups = [] }

-- `pattern.match(s)`
unfoldable pub match_at_start : Regex → Str → Option Cursor
unfolding matches
match_at_start r s = matches r (cursor [] s) some

abbrev search_from : Regex → Str → Str → Option Cursor
search_from r before [] = matches r (cursor before []) some
search_from r before (c ∷ s) =
    or_else (matches r (cursor before (c ∷ s)) some) (search_from r (c ∷ before) s)

-- `pattern.search(s)`
unfoldable pub search_in : Regex → Str → Option Cursor
unfolding matches
search_in r s = search_from r [] s

-- `m.group(n)`, empty where the group took no part in the match
unfoldable pub group_of : ℕ → List (ℕ × Str) → Str
group_of n [] = []
group_of n ((i, s) ∷ groups) = if i == n then s else group_of n groups

-- `pattern.sub(repl, s)` for a pattern that matches no empty text. Each round takes a character at
-- least, so as many rounds as there are characters are enough.
unfoldable pub sub_from : ℕ → Regex → (Cursor → Str) → Str → Str → Str
unfolding matches
sub_from zero r repl before s = s
sub_from (suc n) r repl before [] = []
sub_from (suc n) r repl before (c ∷ s) = elim (matches r (cursor before (c ∷ s)) some) [
  | none ↦ c ∷ sub_from n r repl (c ∷ before) s
  | some d ↦ repl d ++ sub_from n r repl d.before d.rest
]

unfoldable pub sub : Regex → (Cursor → Str) → Str → Str
unfolding sub_from
sub r repl s = sub_from (length s) r repl [] s

-- `pattern.finditer(s)` for a pattern that matches no empty text
unfoldable pub find_from : ℕ → Regex → Str → Str → List Cursor
unfolding matches
find_from zero r before s = []
find_from (suc n) r before [] = []
find_from (suc n) r before (c ∷ s) = elim (matches r (cursor before (c ∷ s)) some) [
  | none ↦ find_from n r (c ∷ before) s
  | some d ↦ d ∷ find_from n r d.before d.rest
]

unfoldable pub find_all : Regex → Str → List Cursor
unfolding find_from
find_all r s = find_from (length s) r [] s

-- Expressions built from the above: a text, also without regard to case, a sequence, `r+`, `r?`,
-- `r{n}`, bounded repetitions and a class of characters.
abbrev pub literal : Str → Regex
literal [] = empty
literal (c ∷ s) = seq (one (λ d. d == c)) (literal s)

abbrev pub lower : ℕ → ℕ
lower c =
    if leb 65 c && leb c 90
    then c + 32
    else if c == 0x130 || (c == 0x131)
    then 105
    else if c == 0x17f
    then 115
    else if c == 0x212a
    then 107
    else c

abbrev pub literal_ci : Str → Regex
literal_ci [] = empty
literal_ci (c ∷ s) = seq (one (λ d. lower d == lower c)) (literal_ci s)

abbrev pub seqs : List Regex → Regex
seqs [] = empty
seqs (r ∷ []) = r
seqs (r ∷ s ∷ rs) = seq r (seqs (s ∷ rs))

abbrev pub plus : Regex → Regex
plus r = seq r (star r)

abbrev pub optional : Regex → Regex
optional r = alt r empty

abbrev pub times : ℕ → Regex → Regex
times zero r = empty
times (suc n) r = seq r (times n r)

-- `r{0,n}` and `r{0,n}?`
abbrev pub up_to : ℕ → Regex → Regex
up_to zero r = empty
up_to (suc n) r = optional (seq r (up_to n r))

abbrev pub lazy_up_to : ℕ → Regex → Regex
lazy_up_to zero r = empty
lazy_up_to (suc n) r = alt empty (seq r (lazy_up_to n r))

abbrev pub one_of : Str → ℕ → Bool
one_of cs c = any (λ d. d == c) cs

abbrev pub none_of : Str → ℕ → Bool
none_of cs c = not (one_of cs c)

sub_test : sub (plus (one is_digit)) (λ c. codes "N") (codes "step 12 of 345") ≡ codes "step N of N"
unfolding sub
sub_test = refl
