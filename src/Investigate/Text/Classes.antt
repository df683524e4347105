-- ===== src/Investigate/Text/Classes.antt =====
-- Classes of characters and shared expressions of openqa_llm_investigate/text.py.
use os_autoinst_scripts.Prelude.{ℕ, Bool, true, false, ◌&&◌, ◌||◌, not, List, [], ◌∷◌, leb}
use os_autoinst_scripts.Py.Str.{Str, codes, is_space}
use os_autoinst_scripts.Py.Num.{is_digit}
use os_autoinst_scripts.Py.Regex.{
  Regex, empty, one, seq, alt, star, ahead, is_word, literal, literal_ci, seqs, plus, optional,
  times, one_of, none_of,
}

-- Classes of characters.
unfoldable pub is_upper : ℕ → Bool
is_upper c = leb 65 c && leb c 90

unfoldable pub is_letter : ℕ → Bool
unfolding is_upper
is_letter c = is_upper c || (leb 97 c && leb c 122)

unfoldable pub is_hex : ℕ → Bool
unfolding is_digit
is_hex c = is_digit c || (leb 97 c && leb c 102) || (leb 65 c && leb c 70)

abbrev pub space : Regex
space = one is_space

abbrev pub not_space : Regex
not_space = one (λ c. not (is_space c))

abbrev pub any_char : Regex
any_char = one (λ c. true)

abbrev pub text_end : Regex
text_end = ahead false any_char

abbrev pub no_space_nor : Str → Regex
no_space_nor cs = one (λ c. not (is_space c) && none_of cs c)

abbrev pub alts : List Regex → Regex
alts [] = empty
alts (r ∷ []) = r
alts (r ∷ s ∷ rs) = alt r (alts (s ∷ rs))

-- `r{n,}`
abbrev pub at_least : ℕ → Regex → Regex
at_least n r = seq (times n r) (star r)

-- `;\s*echo SCRIPT_FINISHED\w*-[^;"'\s]*-`
abbrev pub script_finished_re : Regex
script_finished_re = seqs (
    literal (codes ";")
    ∷ star space
    ∷ literal (codes "echo SCRIPT_FINISHED")
    ∷ star (one is_word)
    ∷ literal (codes "-")
    ∷ star (no_space_nor (codes ";\"'"))
    ∷ literal (codes "-")
    ∷ [])

-- `[_-]`
abbrev pub dashed : Regex
dashed = one (one_of (codes "_-"))

abbrev pub sensitive_names : Regex
sensitive_names = alts (
    literal_ci (codes "password")
    ∷ literal_ci (codes "passwd")
    ∷ literal_ci (codes "secret")
    ∷ literal_ci (codes "token")
    ∷ seqs (literal_ci (codes "api") ∷ optional dashed ∷ literal_ci (codes "key") ∷ [])
    ∷ seqs (literal_ci (codes "access") ∷ dashed ∷ literal_ci (codes "key") ∷ [])
    ∷ seqs (literal_ci (codes "client") ∷ dashed ∷ literal_ci (codes "secret") ∷ [])
    ∷ seqs (literal_ci (codes "account") ∷ optional dashed ∷ literal_ci (codes "key") ∷ [])
    ∷ seqs (
        literal_ci (codes "reg")
        ∷ optional dashed
        ∷ literal_ci (codes "code")
        ∷ optional (seq (literal (codes "_")) (plus (one is_word)))
        ∷ [])
    ∷ [])
