-- ===== src/Investigate/Http/Extends.antt =====
-- What is in the cache of openqa_llm_investigate/http.py stays as it is.
use os_autoinst_scripts.Prelude.{
  ℕ, ◌≡◌, Option, none, some, arith, Bool-cases, Option-cases, inl, inr, sym, ◌∙◌, subst,
}
use os_autoinst_scripts.Py.Str.{Str, eqb, eqb_iff}
use os_autoinst_scripts.Py.Dict.{Dict, lookup, insert, lookup-insert}
use os_autoinst_scripts.Investigate.Http.{
  Client, cached_file, capped, file_path, job_file, or_nothing, remember, text, text_or_empty,
}

-- Every entry of the first cache is in the second.
abbrev pub Extends : Dict Str → Dict Str → Type 0
Extends c d = (path body : Str) → lookup path c ≡ some body → lookup path d ≡ some body

pub Extends-refl : (c : Dict Str) → Extends c c
Extends-refl c path body h = h

pub Extends-trans : (c d e : Dict Str) → Extends c d → Extends d e → Extends c e
Extends-trans c d e h k path body l = k path body (h path body l)

insert-Extends :
    (path body : Str) (c : Dict Str) → lookup path c ≡ none → Extends c (insert path body c)
insert-Extends path body c h other old l = elim (Bool-cases (eqb path other)) [
  | inl e ↦ let same : path ≡ other = (eqb_iff path other).0 e in absurd (cc (sym h, same, l))
  | inr e ↦ lookup-insert path other body c ∙ rw e l
]

remember-Extends :
    (path : Str) (body : Option Str) (c : Dict Str)
    → lookup path c ≡ none
    → Extends c (remember path body c).1
remember-Extends path none c h = Extends-refl c
remember-Extends path (some body) c h = insert-Extends path body c h

text-hit :
    (client : Client) (path body : Str) (c : Dict Str)
    → lookup path c ≡ some body
    → text client path c ≡ (some body, c)
unfolding text
text-hit client path body c h = ground (arith, h)

text-miss :
    (client : Client) (path : Str) (c : Dict Str)
    → lookup path c ≡ none
    → text client path c ≡ remember path (client.get path) c
unfolding text
text-miss client path c h = ground (arith, h)

pub text-Extends : (client : Client) (path : Str) (c : Dict Str) → Extends c (text client path c).1
text-Extends client path c = elim (Option-cases (lookup path c)) [
  | inl e ↦
      subst (λ (r : Option Str × Dict Str). Extends c r.1) (sym (text-miss client path c e))
        (remember-Extends path (client.get path) c e)
  | inr found ↦
      subst (λ (r : Option Str × Dict Str). Extends c r.1)
        (sym (text-hit client path (found.0) c (found.1))) (Extends-refl c)
]

pub text_or_empty-Extends :
    (client : Client) (path : Str) (c : Dict Str) → Extends c (text_or_empty client path c).1
unfolding text_or_empty
text_or_empty-Extends client path c = text-Extends client path c

pub cached_file-hit :
    (client : Client) (path body : Str) (n : ℕ) (c : Dict Str)
    → lookup path c ≡ some body
    → cached_file client path n c ≡ (body, c)
unfolding cached_file
cached_file-hit client path body n c h = ground (arith, h)

pub cached_file-miss :
    (client : Client) (path : Str) (n : ℕ) (c : Dict Str)
    → lookup path c ≡ none
    → let body = or_nothing (capped client path n) in
      cached_file client path n c ≡ (body, insert path body c)
unfolding cached_file
cached_file-miss client path n c h = ground (arith, h)

cached_file-Extends :
    (client : Client) (path : Str) (n : ℕ) (c : Dict Str)
    → Extends c (cached_file client path n c).1
cached_file-Extends client path n c = elim (Option-cases (lookup path c)) [
  | inl e ↦
      subst (λ (r : Str × Dict Str). Extends c r.1) (sym (cached_file-miss client path n c e))
        (insert-Extends path (or_nothing (capped client path n)) c e)
  | inr found ↦
      subst (λ (r : Str × Dict Str). Extends c r.1)
        (sym (cached_file-hit client path (found.0) n c (found.1))) (Extends-refl c)
]

pub job_file-Extends :
    (client : Client) (job_id name : Str) (max_bytes : ℕ) (c : Dict Str)
    → Extends c (job_file client job_id name max_bytes c).1
unfolding job_file
job_file-Extends client job_id name max_bytes c =
    cached_file-Extends client (file_path job_id name) max_bytes c
