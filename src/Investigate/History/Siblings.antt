-- ===== src/Investigate/History/Siblings.antt =====
-- The other jobs of the same group and build, and the whole history:
-- openqa_llm_investigate/history.py.
use os_autoinst_scripts.Prelude.{
  ℕ, zero, suc, ◌+◌, ◌/◌, ◌%◌, Bool, true, false, ◌&&◌, ◌||◌, not, Option, none, some, List, [],
  ◌∷◌, ◌++◌, map, ltb, ◌==◌, if◌then◌else◌, length, filter,
}
use os_autoinst_scripts.Py.Str.{Str, codes, eqb}
use os_autoinst_scripts.Py.Num.{decimal, is_digit}
use os_autoinst_scripts.Py.Text.{not_empty_text, in_lines, or_empty}
use os_autoinst_scripts.Investigate.Text.Classes.{is_letter}
use os_autoinst_scripts.Investigate.Text.Redact.{redact}
use os_autoinst_scripts.Investigate.Failures.Modules.{Module}
use os_autoinst_scripts.Investigate.History.{Server, Sibling, Failed, failure_groups}
use os_autoinst_scripts.Investigate.History.Runs.{
  history_failed, neighbour_summary, earlier_reviews, fetch_rows,
}

-- What `_sibling_summary` reads of a job: its group and the settings BUILD, FLAVOR and VERSION.
pub record Job : Type 0 where
  pub group_id : Option ℕ
  pub build : Option Str
  pub flavor : Option Str
  pub version : Option Str

-- `urllib.parse.quote`: all but some characters as `%` and the two hexadecimal digits of each byte
-- of their UTF-8 form
abbrev pub hex_digit : ℕ → ℕ
hex_digit n = if ltb n 10 then 48 + n else 55 + n

abbrev pub percent_byte : ℕ → Str
percent_byte b = b'%' ∷ hex_digit (b / 16) ∷ hex_digit (b % 16) ∷ []

abbrev pub trail_byte : ℕ → ℕ
trail_byte n = 128 + n % 64

unfoldable pub utf8 : ℕ → List ℕ
utf8 c =
    if ltb c 0x80
    then c ∷ []
    else if ltb c 0x800
    then (192 + c / 64) ∷ trail_byte c ∷ []
    else if ltb c 0x10000
    then (224 + c / 4096) ∷ trail_byte (c / 64) ∷ trail_byte c ∷ []
    else (240 + c / 262144) ∷ trail_byte (c / 4096) ∷ trail_byte (c / 64) ∷ trail_byte c ∷ []

abbrev pub percent_bytes : List ℕ → Str
percent_bytes [] = []
percent_bytes (b ∷ bs) = percent_byte b ++ percent_bytes bs

unfoldable pub quote : Str → Str
unfolding utf8 is_letter is_digit
quote [] = []
quote (c ∷ s) =
    let rest = quote s in
    if is_letter c
      || is_digit c
      || (c == b'_')
      || (c == b'.')
      || (c == b'-')
      || (c == b'~')
      || (c == b'/')
    then c ∷ rest
    else percent_bytes (utf8 c) ++ rest

-- `bool(flavor) and job flavor == flavor`
abbrev pub same_flavor_as : Option Str → Option Str → Bool
same_flavor_as (some f) (some g) = not_empty_text f && eqb f g
same_flavor_as _ _ = false

abbrev pub failed_names : List Module → List Str
failed_names [] = []
failed_names (m ∷ modules) =
    let rest = failed_names modules in
    if eqb (or_empty m.result) (codes "failed") then or_empty m.name ∷ rest else rest

unfoldable pub sibling_failures : List Sibling → Option Str → List Failed
unfolding in_lines eqb
sibling_failures others flavor =
    map
      (λ (j : Sibling). record {
        id = j.id;
        result = j.result;
        test = j.test;
        build = none;
        same_flavor = same_flavor_as flavor j.flavor;
        modules = failed_names j.modules;
      })
      (filter (λ (j : Sibling). in_lines j.result history_failed) others)

unfoldable pub siblings_query : ℕ → Str → Str → Str
unfolding quote decimal
siblings_query gid build version =
    codes "/api/v1/jobs?groupid="
    ++ (decimal gid
        ++ (codes "&build="
            ++ (quote build
                ++ ((if not_empty_text version then codes "&version=" ++ quote version else [])
                    ++ codes "&latest=1&limit=500"))))

abbrev pub count_if {ℓ} : {A : Type ℓ} → (A → Bool) → List A → ℕ
count_if p xs = length (filter p xs)

abbrev pub has_succeeded : Sibling → Bool
has_succeeded j = eqb j.result (codes "passed") || eqb j.result (codes "softfailed")

abbrev pub place : ℕ → Str → Str
place gid build = codes "in group " ++ (decimal gid ++ (codes " build " ++ build))

abbrev pub flavor_note : ℕ → Option Str → Str
flavor_note zero flavor = []
flavor_note (suc n) flavor =
    codes " (" ++ (decimal (suc n) ++ (codes " in flavor " ++ (or_empty flavor ++ codes ")")))

abbrev pub rest_text : List Sibling → Str
rest_text others =
    let pending = count_if (λ (j : Sibling). eqb j.result (codes "none")) others in
    decimal (count_if has_succeeded others)
    ++ (codes " passed/softfailed"
        ++ (if ltb 0 pending then codes ", " ++ (decimal pending ++ codes " not finished") else []))

unfoldable pub siblings_text :
    Server → ℕ → ℕ → Str → Option Str → List Sibling → List Failed → Str × ℕ
unfolding failure_groups decimal eqb
siblings_text server fetched gid build flavor others [] =
    let ok = count_if has_succeeded others in
    (
      codes "Same group+build: "
          ++ (if ok == length others
              then codes "everything else succeeded, all "
                ++ (decimal ok
                    ++ (codes " other jobs "
                        ++ (place gid build ++ codes " passed or softfailed.")))
              else codes "no other job "
                ++ (place gid build ++ (codes " failed (" ++ (rest_text others ++ codes ").")))),
      fetched,
    )
siblings_text server fetched gid build flavor others (j ∷ failed) =
    let (groups, n) = failure_groups server fetched (j ∷ failed) true in
    let same = count_if (λ (k : Failed). k.same_flavor) (j ∷ failed) in
    (
      codes "Same group+build: "
          ++ (decimal (length (j ∷ failed))
              ++ (codes " of "
                  ++ (decimal (length others)
                      ++ (codes " other jobs "
                          ++ (place gid build
                              ++ (codes " failed"
                                  ++ (flavor_note same flavor
                                      ++ (codes ": "
                                          ++ (groups
                                              ++ (codes "; "
                                                  ++ (rest_text others ++ codes "."))))))))))),
      n,
    )

abbrev pub if_others : Server → ℕ → ℕ → Str → Option Str → List Sibling → Option Str × ℕ
if_others server fetched gid build flavor [] = (none, fetched)
if_others server fetched gid build flavor (j ∷ others) =
    let (text, n) =
      siblings_text server fetched gid build flavor (j ∷ others)
        (sibling_failures (j ∷ others) flavor) in
    (some text, n)

abbrev pub from_answer :
    Server → ℕ → ℕ → ℕ → Str → Option Str → Option (List Sibling) → Option Str × ℕ
from_answer server fetched job_id gid build flavor none = (none, fetched)
from_answer server fetched job_id gid build flavor (some jobs) =
    if_others server fetched gid build flavor (filter (λ (j : Sibling). not (j.id == job_id)) jobs)

-- A group of number 0 counts as none, like an empty build.
abbrev pub in_group : Server → ℕ → ℕ → Job → Option ℕ → Str → Option Str × ℕ
in_group server fetched job_id job (some (suc g)) (c ∷ build) =
    from_answer server fetched job_id (suc g) (c ∷ build) job.flavor
      (server.jobs (siblings_query (suc g) (c ∷ build) (or_empty job.version)))
in_group server fetched job_id job _ _ = (none, fetched)

unfoldable pub sibling_summary : Server → ℕ → ℕ → Job → Option Str × ℕ
unfolding siblings_text sibling_failures siblings_query
sibling_summary server fetched job_id job =
    in_group server fetched job_id job job.group_id (or_empty job.build)

abbrev pub line_of : Option Str → List Str
line_of none = []
line_of (some []) = []
line_of (some (c ∷ s)) = redact (c ∷ s) ∷ []

abbrev pub with_blank : List Str → List Str
with_blank [] = []
with_blank (l ∷ lines) = (l ∷ lines) ++ ([] ∷ [])

-- `run_history`: its lines, and how many details have been fetched
unfoldable pub run_history : Server → ℕ → Job → List Str × ℕ
unfolding fetch_rows neighbour_summary earlier_reviews sibling_summary redact
run_history server job_id job =
    let rows = fetch_rows server job_id true in
    let neighbours = neighbour_summary server rows job_id 0 in
    let siblings = sibling_summary server neighbours.1 job_id job in
    (
      with_blank
          (line_of neighbours.0 ++ (line_of (earlier_reviews rows job_id) ++ line_of siblings.0)),
      siblings.1,
    )
