-- ===== src/Investigate/Text/Credentials.antt =====
-- The first of the `_REDACTIONS` of openqa_llm_investigate/text.py: keys, registration codes and
-- credentials in URLs and headers.
use os_autoinst_scripts.Prelude.{◌||◌, [], ◌∷◌, ◌++◌, ◌==◌}
use os_autoinst_scripts.Py.Str.{Str, codes}
use os_autoinst_scripts.Py.Regex.{
  Regex, Cursor, one, seq, alt, star, lazy_star, group, word_edge, is_word, group_of, literal,
  literal_ci, seqs, plus, times, one_of, lower,
}
use os_autoinst_scripts.Investigate.Text.Classes.{
  is_upper, is_letter, is_hex, space, not_space, any_char, text_end, no_space_nor, alts, at_least,
}

abbrev pub mask : Str
mask = codes "****"

-- `\1****`
abbrev pub masked : Cursor → Str
masked c = group_of 1 c.groups ++ mask

abbrev pub key_line : Str → Regex
key_line name = seqs (
    literal (codes "-----" ++ name ++ codes " ")
    ∷ star (one (λ c. is_upper c || (c == 32)))
    ∷ literal (codes "PRIVATE KEY-----")
    ∷ [])

abbrev pub private_key_re : Regex
private_key_re =
    seqs
      (key_line (codes "BEGIN") ∷ lazy_star any_char ∷ alt (key_line (codes "END")) text_end ∷ [])

abbrev pub registration_re : Regex
registration_re = seqs (
    literal (codes "INTERNAL-USE-ONLY-")
    ∷ times 4 (one is_hex)
    ∷ alt (seq (literal (codes "-")) (times 4 (one is_hex))) (times 12 (one is_hex))
    ∷ [])

abbrev pub query_re : Regex
query_re =
    seq
      (group 1 (
        seqs (
          one (one_of (codes "?&"))
          ∷ alts (
              literal_ci (codes "credentials")
              ∷ literal_ci (codes "sig")
              ∷ literal_ci (codes "X-Amz-Signature")
              ∷ literal_ci (codes "X-Amz-Credential")
              ∷ [])
          ∷ literal (codes "=")
          ∷ [])))
      (plus (no_space_nor (codes "&'\"")))

abbrev pub authorization_re : Regex
authorization_re = seqs (
    word_edge
    ∷ group 1 (
        seqs (
          literal_ci (codes "Authorization:")
          ∷ star space
          ∷ alts (
              literal_ci (codes "Bearer")
              ∷ literal_ci (codes "Basic")
              ∷ literal_ci (codes "token")
              ∷ [])
          ∷ plus space
          ∷ []))
    ∷ plus not_space
    ∷ [])

abbrev pub bearer_re : Regex
bearer_re = seqs (
    word_edge
    ∷ group 1 (seq (literal (codes "Bearer")) (plus space))
    ∷ at_least 8 (one (λ c. is_word c || one_of (codes ".~+/=-") c))
    ∷ [])

abbrev pub url_password_re : Regex
url_password_re = seqs (
    group 1 (
      seqs (
        word_edge
        ∷ one (λ c. is_letter (lower c))
        ∷ star (one (λ c. is_word c || one_of (codes "+.-") c))
        ∷ literal (codes "://")
        ∷ []))
    ∷ plus (no_space_nor (codes "/:@'\""))
    ∷ literal (codes ":")
    ∷ plus (no_space_nor (codes "/@'\""))
    ∷ literal (codes "@")
    ∷ [])
