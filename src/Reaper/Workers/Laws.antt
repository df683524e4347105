-- ===== src/Reaper/Workers/Laws.antt =====
-- Which jobs `get_running_jobs` finds.
use os_autoinst_scripts.Prelude.{
  ℕ, ltb, ◌&&◌, true, none, if◌then◌else◌, ◌≡◌, refl, ◌∙◌, Bool, false, ◌||◌, Option, some, List,
  [], ◌∷◌, arith, ◌==◌, Option-cases, inl, inr,
}
use os_autoinst_scripts.Py.Str.{Str, codes, contains}
use os_autoinst_scripts.Py.Json.{
  Value, null, flag, int, float, text, array, object, Items, nil, cons, end, field?,
}
use os_autoinst_scripts.Reaper.Workers.{
  add_job, bind, class_has, item_in, job_id, key_in, member, worker_job, jobs_of, workers_of,
  get_from, distinct, jobs_in,
}

abbrev is_job : ℕ → Option (Option ℕ) → Bool
is_job n (some (some k)) = n == k
is_job n _ = false

-- Does a WORKER_CLASS, or the empty one where there is none, have the name?
abbrev pub names : Str → Option Value → Bool
names short_name none = contains [] short_name
names short_name (some (text c)) = contains c short_name
names short_name (some (array xs)) = item_in short_name xs
names short_name (some (object fs)) = key_in short_name fs
names short_name (some _) = false

-- The WORKER_CLASS of the properties of a worker has the name.
abbrev pub of_host : Str → Option Value → Bool
of_host short_name none = contains [] short_name
of_host short_name (some (object properties)) =
    names short_name (field? (codes "WORKER_CLASS") properties)
of_host short_name (some _) = false

-- The worker runs job `n`, a number above 0.
abbrev pub has_job : ℕ → Option Value → Bool
has_job n (some (int k)) = (n == k) && ltb 0 n
has_job n _ = false

abbrev pub worker_runs : Str → ℕ → Value → Bool
worker_runs short_name n (object w) =
    of_host short_name (field? (codes "properties") w) && has_job n (field? (codes "jobid") w)
worker_runs short_name n _ = false

-- Does one of the workers that use the hypervisor run job `n`?
abbrev pub runs_on : Str → ℕ → Items → Bool
runs_on short_name n nil = false
runs_on short_name n (cons w ws) = worker_runs short_name n w || runs_on short_name n ws

job_id-has_job :
    (n : ℕ) (v : Value) (r : Option ℕ) → job_id v ≡ some r → is_job n (some r) ≡ has_job n (some v)
unfolding job_id
job_id-has_job n (int k) r e = ground (arith, e)
job_id-has_job n null r e = ground (arith, e)
job_id-has_job n (flag true) r e = ground (arith, e)
job_id-has_job n (flag false) r e = ground (arith, e)
job_id-has_job n (text []) r e = ground (arith, e)
job_id-has_job n (text (c ∷ s)) r e = ground (arith, e)
job_id-has_job n (float x) r e = ground (arith, e)
job_id-has_job n (array xs) r e = ground (arith, e)
job_id-has_job n (object fs) r e = ground (arith, e)

-- No id is listed twice.
abbrev pub IsDistinct : List ℕ → Type 0
IsDistinct [] = Unit
IsDistinct (n ∷ ns) = (member n ns ≡ false) × IsDistinct ns

member-distinct : (n : ℕ) (ns : List ℕ) → member n (distinct ns) ≡ member n ns
unfolding distinct
member-distinct n [] = refl
member-distinct n (k ∷ ns) = ground (arith, member-distinct n ns, member-distinct k ns)

distinct-IsDistinct : (ns : List ℕ) → IsDistinct (distinct ns)
unfolding distinct
distinct-IsDistinct [] = tt
distinct-IsDistinct (k ∷ ns) = ground (arith, distinct-IsDistinct ns, member-distinct k ns)

-- A key that is there or not, with a default.
abbrev given : Value → Option Value → Option Value
given default v = elim v [ none ↦ some default | some w ↦ some w ]

abbrev job_if : Option Value → Bool → Option (Option ℕ)
job_if job matches = if matches then bind (given null job) job_id else some none

job_if-has_job :
    (n : ℕ) (job : Option Value) (b : Bool) (r : Option ℕ)
    → job_if job b ≡ some r
    → is_job n (some r) ≡ (b && has_job n job)
job_if-has_job n job false r e = ground (arith, e)
job_if-has_job n none true r e = job_id-has_job n null r e ∙ refl
job_if-has_job n (some v) true r e = job_id-has_job n v r e

abbrev job_for : Str → Option Value → Value → Option (Option ℕ)
job_for short_name job worker_class = bind (class_has short_name worker_class) (job_if job)

job_for-names :
    (short_name : Str) (n : ℕ) (job c : Option Value) (r : Option ℕ)
    → bind (given (text []) c) (job_for short_name job) ≡ some r
    → is_job n (some r) ≡ (names short_name c && has_job n job)
unfolding class_has
job_for-names s n job none r e = job_if-has_job n job (contains [] s) r e
job_for-names s n job (some (text c)) r e = job_if-has_job n job (contains c s) r e
job_for-names s n job (some (array xs)) r e = job_if-has_job n job (item_in s xs) r e
job_for-names s n job (some (object fs)) r e = job_if-has_job n job (key_in s fs) r e
job_for-names s n job (some null) r e = ground (arith, e)
job_for-names s n job (some (flag b)) r e = ground (arith, e)
job_for-names s n job (some (int k)) r e = ground (arith, e)
job_for-names s n job (some (float x)) r e = ground (arith, e)

job_with-of_host :
    (short_name : Str) (n : ℕ) (job p : Option Value) (r : Option ℕ)
    → bind (given (object end) p) (λ properties.
      bind (get_from (codes "WORKER_CLASS") (text []) properties) (job_for short_name job))
      ≡ some r
    → is_job n (some r) ≡ (of_host short_name p && has_job n job)
unfolding get_from field?
job_with-of_host s n job none r e = job_for-names s n job none r e
job_with-of_host s n job (some (object ps)) r e =
    job_for-names s n job (field? (codes "WORKER_CLASS") ps) r e
job_with-of_host s n job (some null) r e = ground (arith, e)
job_with-of_host s n job (some (flag b)) r e = ground (arith, e)
job_with-of_host s n job (some (int k)) r e = ground (arith, e)
job_with-of_host s n job (some (float x)) r e = ground (arith, e)
job_with-of_host s n job (some (text c)) r e = ground (arith, e)
job_with-of_host s n job (some (array xs)) r e = ground (arith, e)

-- What a worker that can be read gives to restart.
worker_job-runs :
    (short_name : Str) (n : ℕ) (w : Value) (r : Option ℕ)
    → worker_job short_name w ≡ some r
    → is_job n (some r) ≡ worker_runs short_name n w
unfolding worker_job get_from
worker_job-runs short_name n (object fs) r e =
    job_with-of_host short_name n (field? (codes "jobid") fs) (field? (codes "properties") fs) r e
worker_job-runs short_name n null r e = ground (arith, e)
worker_job-runs short_name n (flag b) r e = ground (arith, e)
worker_job-runs short_name n (int k) r e = ground (arith, e)
worker_job-runs short_name n (float x) r e = ground (arith, e)
worker_job-runs short_name n (text s) r e = ground (arith, e)
worker_job-runs short_name n (array xs) r e = ground (arith, e)

member-add_job :
    (n : ℕ) (job : Option ℕ) (jobs : List ℕ)
    → member n (add_job job jobs) ≡ (is_job n (some job) || member n jobs)
member-add_job n none jobs = refl
member-add_job n (some k) jobs = refl

member-jobs_of :
    (short_name : Str) (n : ℕ) (ws : Items) (jobs : List ℕ)
    → jobs_of short_name ws ≡ some jobs
    → member n jobs ≡ runs_on short_name n ws
unfolding jobs_of
member-jobs_of short_name n nil jobs e = ground arith
member-jobs_of short_name n (cons w ws) jobs e = elim (Option-cases (worker_job short_name w)) [
  | inl x ↦ absurd (ground (arith, x, e))
  | inr (job, y) ↦ elim (Option-cases (jobs_of short_name ws)) [
    | inl x ↦ absurd (ground (arith, x, y, e))
    | inr (rest, x) ↦
        let same : add_job job rest ≡ jobs = ground (arith, x, y, e) in
        rw (← same) (
          member-add_job n job rest
          ∙ rw (worker_job-runs short_name n w job y, member-jobs_of short_name n ws rest x) refl)
  ]
]

-- The workers of an answer that lists them.
abbrev pub listed : Value → Option Items
listed reply = bind (get_from (codes "workers") (array nil) reply) workers_of

-- From an answer that lists workers, `get_running_jobs` takes exactly the jobs that run on a worker
-- whose WORKER_CLASS has the hypervisor's short name, each of them once.
pub jobs_in_lem :
    (short_name : Str) (reply : Value) (ws : Items) (jobs : List ℕ)
    → listed reply ≡ some ws
    → jobs_in short_name reply ≡ some jobs
    → IsDistinct jobs × ((n : ℕ) → member n jobs ≡ runs_on short_name n ws)
unfolding jobs_in
jobs_in_lem short_name reply ws jobs l e = elim (Option-cases (jobs_of short_name ws)) [
  | inl x ↦ absurd (ground (arith, l, x))
  | inr (found, x) ↦
      let same : distinct found ≡ jobs = ground (arith, l, x) in
      rw (← same) (
        distinct-IsDistinct found,
        λ n. member-distinct n found ∙ member-jobs_of short_name n ws found x,
      )
]
