-- ===== src/Investigate/Text/Redact.antt =====
-- `redact` of openqa_llm_investigate/text.py.
use os_autoinst_scripts.Prelude.{◌||◌, List, [], ◌∷◌, ◌++◌, ◌==◌}
use os_autoinst_scripts.Py.Str.{Str, codes, is_space}
use os_autoinst_scripts.Py.Num.{is_digit}
use os_autoinst_scripts.Py.Regex.{
  Regex, Cursor, one, seq, alt, star, lazy_star, group, word_edge, behind_not, is_word, sub,
  literal, seqs, plus, optional, times, one_of, none_of,
}
use os_autoinst_scripts.Investigate.Text.Classes.{
  is_upper, is_letter, space, no_space_nor, alts, at_least, script_finished_re, sensitive_names,
}
use os_autoinst_scripts.Investigate.Text.Credentials.{
  mask, masked, private_key_re, registration_re, query_re, authorization_re, bearer_re,
  url_password_re,
}

-- `['"]?`
abbrev pub quote_maybe : Regex
quote_maybe = optional (one (one_of (codes "'\"")))

-- `[^\s'",;&]+`
abbrev pub bare_value : Regex
bare_value = plus (no_space_nor (codes "'\",;&"))

abbrev pub assignment_re : Regex
assignment_re =
    seq
      (group 1 (
        seqs (
          behind_not (λ c. (c == b'/') || is_letter c || is_digit c || (c == b'-'))
          ∷ sensitive_names
          ∷ quote_maybe
          ∷ star (one (one_of (codes " \t")))
          ∷ one (one_of (codes "=:"))
          ∷ star (one (one_of (codes " \t")))
          ∷ quote_maybe
          ∷ [])))
      bare_value

abbrev pub option_re : Regex
option_re =
    seq
      (group 1 (
        seqs (
          literal (codes "--") ∷ sensitive_names ∷ one (one_of (codes "= \t")) ∷ quote_maybe ∷ [])))
      bare_value

-- `(?:"[^"\n]*"|'[^'\n]*'|[^\s;&|`'")]+)`
abbrev pub argument : Regex
argument = alts (
    seqs (literal (codes "\"") ∷ star (one (none_of (codes "\"\n"))) ∷ literal (codes "\"") ∷ [])
    ∷ seqs (literal (codes "'") ∷ star (one (none_of (codes "'\n"))) ∷ literal (codes "'") ∷ [])
    ∷ plus (no_space_nor (codes ";&|`'\")"))
    ∷ [])

-- `[^;&|\n]*?`
abbrev pub same_command : Regex
same_command = lazy_star (one (none_of (codes ";&|\n")))

abbrev pub connect_re : Regex
connect_re =
    seq
      (group 1 (
        seqs (
          word_edge
          ∷ alt (literal (codes "SUSEConnect")) (literal (codes "registercloudguest"))
          ∷ word_edge
          ∷ same_command
          ∷ space
          ∷ literal (codes "-r")
          ∷ plus space
          ∷ [])))
      argument

abbrev pub curl_re : Regex
curl_re =
    seq
      (group 1 (
        seqs (
          word_edge
          ∷ literal (codes "curl")
          ∷ word_edge
          ∷ same_command
          ∷ space
          ∷ alt (seq (literal (codes "-u")) (star space))
              (seq (literal (codes "--user")) (one (λ c. is_space c || (c == b'='))))
          ∷ [])))
      argument

abbrev pub aws_key_re : Regex
aws_key_re = seqs (
    word_edge
    ∷ literal (codes "AKIA")
    ∷ times 16 (one (λ c. is_digit c || is_upper c))
    ∷ word_edge
    ∷ [])

abbrev pub github_token_re : Regex
github_token_re = seqs (
    word_edge
    ∷ literal (codes "gh")
    ∷ one (one_of (codes "pousr"))
    ∷ literal (codes "_")
    ∷ at_least 20 (one (λ c. is_letter c || is_digit c))
    ∷ word_edge
    ∷ [])

-- `[\w-]{8,}`
abbrev pub token_part : Regex
token_part = at_least 8 (one (λ c. is_word c || (c == b'-')))

abbrev pub jwt_re : Regex
jwt_re = seqs (
    word_edge
    ∷ literal (codes "eyJ")
    ∷ token_part
    ∷ literal (codes ".")
    ∷ token_part
    ∷ literal (codes ".")
    ∷ token_part
    ∷ [])

-- `_REDACTIONS`, in the order in which they are applied
abbrev pub redactions : List (Regex × (Cursor → Str))
redactions =
    (private_key_re, λ c. codes "[private key]")
    ∷ (registration_re, λ c. codes "INTERNAL-USE-ONLY-****-****")
    ∷ (query_re, masked)
    ∷ (authorization_re, masked)
    ∷ (bearer_re, masked)
    ∷ (url_password_re, λ c. masked c ++ codes "@")
    ∷ (assignment_re, masked)
    ∷ (option_re, masked)
    ∷ (connect_re, masked)
    ∷ (curl_re, masked)
    ∷ (aws_key_re, λ c. codes "AKIA" ++ mask)
    ∷ (github_token_re, λ c. codes "gh_" ++ mask)
    ∷ (jwt_re, λ c. codes "[jwt]")
    ∷ (script_finished_re, λ c. [])
    ∷ []

unfoldable pub apply_all : List (Regex × (Cursor → Str)) → Str → Str
unfolding sub
apply_all [] text = text
apply_all ((pattern, repl) ∷ more) text = apply_all more (sub pattern repl text)

unfoldable pub redact : Str → Str
unfolding apply_all
redact text = apply_all redactions text
