-- ===== src/Py/Num.antt =====
-- Decimal digits: `str(n)` of a number that is not negative, `str.isdigit` and `int` of ASCII digits.
use os_autoinst_scripts.Prelude.{
  ℕ, zero, suc, ◌+◌, ◌-◌, ◌*◌, ◌/◌, ◌%◌, ◌≡◌, refl, Bool, false, ◌&&◌, [], ◌∷◌, leb, ltb,
  if◌then◌else◌, all, any, arith, ◌<◌,
}
use os_autoinst_scripts.Py.Str.{Str, codes}

-- Fuel `n` is enough for `n`, since each round divides by ten.
decimal_from : ℕ → ℕ → Str → Str
decimal_from zero n acc = (48 + n % 10) ∷ acc
decimal_from (suc f) n acc =
    let rest = decimal_from f (n / 10) ((48 + n % 10) ∷ acc) in
    if ltb n 10 then (48 + n) ∷ acc else rest

unfoldable pub decimal : ℕ → Str
unfolding decimal_from
decimal n = decimal_from n n []

unfoldable pub is_digit : ℕ → Bool
is_digit c = leb 48 c && leb c 57

unfoldable pub all_digits : Str → Bool
unfolding is_digit
all_digits [] = false
all_digits (c ∷ s) = is_digit c && all is_digit s

unfoldable pub int_from : ℕ → Str → ℕ
int_from n [] = n
int_from n (c ∷ s) = int_from (n * 10 + (c - 48)) s

any-decimal_from :
    (p : ℕ → Bool)
    → ((d : ℕ) → d < 10 → p (48 + d) ≡ false)
    → (f n : ℕ) (acc : Str) → any p (decimal_from f n acc) ≡ any p acc
unfolding decimal_from
any-decimal_from p h zero n acc = ground (arith, h (n % 10))
any-decimal_from p h (suc f) n acc =
    ground (arith, h (n % 10), h n, any-decimal_from p h f (n / 10) ((48 + n % 10) ∷ acc))

-- What holds of no digit holds nowhere in a decimal number.
pub any-decimal :
    (p : ℕ → Bool) → ((d : ℕ) → d < 10 → p (48 + d) ≡ false) → (n : ℕ) → any p (decimal n) ≡ false
unfolding decimal
any-decimal p h n = any-decimal_from p h n n []

decimal_test : decimal 1070 ≡ codes "1070"
unfolding decimal
decimal_test = refl
