-- ===== src/Investigate/Http/Refines.antt =====
-- The client of openqa_llm_investigate/http.py with its cache, against one that has none.
use os_autoinst_scripts.Prelude.{
  ℕ, ◌≡◌, refl, some, List, [], ◌∷◌, map, arith, Bool-cases, Option-cases, inl, inr, sym, ap, ◌∙◌,
  subst,
}
use os_autoinst_scripts.Py.Str.{Str, eqb, eqb_iff}
use os_autoinst_scripts.Py.Dict.{Dict, lookup, insert, lookup-insert}
use os_autoinst_scripts.Investigate.Http.{Client, capped, file_path, job_file, or_nothing}
use os_autoinst_scripts.Investigate.Http.Extends.{cached_file-hit, cached_file-miss}

-- A request for a file of a job: the job and the name of the file.
abbrev pub Request : Type 0
Request = Str × Str

-- The answer of a client without a cache: the file as the server has it, capped.
unfoldable pub served : Client → ℕ → Request → Str
served client max_bytes (job_id, name) =
    or_nothing (capped client (file_path job_id name) max_bytes)

-- Every file in the cache is the one that the server has.
abbrev pub Reflects : Client → ℕ → Dict Str → Type 0
Reflects client max_bytes cache =
    (job_id name body : Str)
    → lookup (file_path job_id name) cache ≡ some body
    → body ≡ served client max_bytes (job_id, name)

-- The requests one after another, through the cache.
abbrev pub job_files : Client → ℕ → List Request → Dict Str → List Str × Dict Str
job_files client max_bytes [] cache = ([], cache)
job_files client max_bytes ((job_id, name) ∷ requests) cache =
    let (body, cache) = job_file client job_id name max_bytes cache in
    let (bodies, cache) = job_files client max_bytes requests cache in (body ∷ bodies, cache)

some_inj : (s t : Str) → some s ≡ some t → s ≡ t
some_inj s t e = ap or_nothing e

insert-Reflects :
    (client : Client) (n : ℕ) (cache : Dict Str) (path : Str)
    → Reflects client n cache
    → Reflects client n (insert path (or_nothing (capped client path n)) cache)
unfolding served
insert-Reflects client n cache path h job_id name body l =
    let other = file_path job_id name in
    let value = or_nothing (capped client path n) in
    let found = lookup-insert path other value cache in
    elim (Bool-cases (eqb path other)) [
      | inl e ↦
          let same : path ≡ other = (eqb_iff path other).0 e in
          let stored : some body ≡ some value = sym l ∙ found ∙ rw e refl in
          some_inj body value stored ∙ ap (λ p. or_nothing (capped client p n)) same
      | inr e ↦ h job_id name body (sym (found ∙ rw e refl) ∙ l)
    ]

-- What holds of an answer and the cache behind it.
abbrev Right : Client → ℕ → Str → Str → Str × Dict Str → Type 0
Right client n job_id name answer =
    (answer.0 ≡ served client n (job_id, name)) × Reflects client n answer.1

job_file-Reflects :
    (client : Client) (n : ℕ) (job_id name : Str) (cache : Dict Str)
    → Reflects client n cache
    → Right client n job_id name (job_file client job_id name n cache)
unfolding job_file served
job_file-Reflects client n job_id name cache h =
    let path = file_path job_id name in
    elim (Option-cases (lookup path cache)) [
      | inl e ↦
          subst (Right client n job_id name) (sym (cached_file-miss client path n cache e))
            (refl, insert-Reflects client n cache path h)
      | inr found ↦
          subst (Right client n job_id name)
            (sym (cached_file-hit client path (found.0) n cache (found.1)))
            (h job_id name (found.0) (found.1), h)
    ]

job_files-Reflects :
    (client : Client) (n : ℕ) (requests : List Request) (cache : Dict Str)
    → Reflects client n cache
    → let answers = job_files client n requests cache in
      (answers.0 ≡ map (served client n) requests) × Reflects client n answers.1
job_files-Reflects client n [] cache h = (refl, h)
job_files-Reflects client n ((job_id, name) ∷ requests) cache h =
    let (same, kept) = job_file-Reflects client n job_id name cache h in
    let (rest, reflects) =
      job_files-Reflects client n requests (job_file client job_id name n cache).1 kept in
    (ground (arith, same, rest), reflects)

-- Whatever files are asked for, in whatever order and however often, a new client gives the answers
-- that one without a cache would give, for the same cap and a server whose answers do not change.
pub job_files-refines :
    (client : Client) (max_bytes : ℕ) (requests : List Request)
    → (job_files client max_bytes requests []).0 ≡ map (served client max_bytes) requests
unfolding lookup
job_files-refines client max_bytes requests =
    (job_files-Reflects client max_bytes requests [] (λ job_id name body l. absurd (cc l))).0
