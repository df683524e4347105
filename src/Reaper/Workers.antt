-- ===== src/Reaper/Workers.antt =====
-- `get_running_jobs`: the jobs of the workers that use a hypervisor, from the worker list of
-- openqa-cli. A `none` of the pure functions is the exception that Python raises on a value of an
-- unexpected type. openQA gives job ids as integers: any other id that is true raises in the model.
pub mod Laws
use os_autoinst_scripts.Prelude.{
  ℕ, Bool, true, false, ◌||◌, Option, none, some, List, [], ◌∷◌, ◌==◌, if◌then◌else◌,
}
use os_autoinst_scripts.Py.Str.{Str, codes, eqb, split, contains}
use os_autoinst_scripts.Py.Json.{
  Value, null, flag, int, float, text, array, object, Items, nil, cons, Fields, end, field, field?,
}
use os_autoinst_scripts.Reaper.Machine.{Machine}
use os_autoinst_scripts.Reaper.Exec.{Exec, crash, pure, raise, ◌>>=◌}
use os_autoinst_scripts.Reaper.Ssh.{run_cmd}

unfoldable pub is_text : Str → Value → Bool
is_text s (text t) = eqb s t
is_text s _ = false

-- `short_name in worker_class`
unfoldable pub item_in : Str → Items → Bool
item_in s nil = false
item_in s (cons v xs) = is_text s v || item_in s xs

unfoldable pub key_in : Str → Fields → Bool
key_in s end = false
key_in s (field k v rest) = eqb s k || key_in s rest

unfoldable pub class_has : Str → Value → Option Bool
unfolding item_in key_in is_text
class_has s (text c) = some (contains c s)
class_has s (array xs) = some (item_in s xs)
class_has s (object fs) = some (key_in s fs)
class_has s _ = none

-- `d.get(key, default)` on a value that should be an object
unfoldable pub get_from : Str → Value → Value → Option Value
get_from k default (object fs) = elim (field? k fs) [ none ↦ some default | some v ↦ some v ]
get_from k default _ = none

-- the id of a job, if it is true
unfoldable pub job_id : Value → Option (Option ℕ)
job_id (int n) = if n == 0 then some none else some (some n)
job_id null = some none
job_id (flag false) = some none
job_id (text []) = some none
job_id _ = none

abbrev pub bind {ℓ κ} : {A : Type ℓ} {B : Type κ} → Option A → (A → Option B) → Option B
bind none f = none
bind (some a) f = f a

-- The body of the loop over the workers: the job to restart, if the worker gives one.
unfoldable pub worker_job : Str → Value → Option (Option ℕ)
unfolding class_has get_from job_id
worker_job short_name worker =
    bind (get_from (codes "properties") (object end) worker) λ properties.
      bind (get_from (codes "WORKER_CLASS") (text []) properties) λ worker_class.
        bind (class_has short_name worker_class) λ matches.
          if matches then bind (get_from (codes "jobid") null worker) job_id else some none

abbrev pub add_job : Option ℕ → List ℕ → List ℕ
add_job none jobs = jobs
add_job (some n) jobs = n ∷ jobs

unfoldable pub jobs_of : Str → Items → Option (List ℕ)
unfolding worker_job
jobs_of short_name nil = some []
jobs_of short_name (cons w ws) =
    let rest = jobs_of short_name ws in
    bind (worker_job short_name w) λ job. bind rest λ jobs. some (add_job job jobs)

-- `for worker in workers_data`: over anything but a list the first `worker.get` raises, if not the
-- loop itself.
unfoldable pub workers_of : Value → Option Items
workers_of (array xs) = some xs
workers_of (object end) = some nil
workers_of (text []) = some nil
workers_of _ = none

abbrev pub member : ℕ → List ℕ → Bool
member n [] = false
member n (k ∷ ks) = (n == k) || member n ks

-- `list(set(jobs))`. The order of a set is not specified: here the last occurrence of each id stays.
unfoldable pub distinct : List ℕ → List ℕ
distinct [] = []
distinct (n ∷ ns) = let rest = distinct ns in if member n ns then rest else n ∷ rest

unfoldable pub jobs_in : Str → Value → Option (List ℕ)
unfolding workers_of get_from jobs_of distinct
jobs_in short_name reply = bind (get_from (codes "workers") (array nil) reply) λ workers_data.
    bind (workers_of workers_data)
      λ workers. bind (jobs_of short_name workers) λ jobs. some (distinct jobs)

-- `hypervisor_host.split(".", maxsplit=1)[0]`
unfoldable pub short_name_of : Str → Str
short_name_of host = elim (split b'.' host) [ [] ↦ [] | part ∷ _ ↦ part ]

abbrev pub workers_command : Str
workers_command = codes "openqa-cli api --osd -X GET workers"

module _ {W : Type 0} where
  unfoldable pub found_jobs : Option (List ℕ) → Exec W (List ℕ)
  found_jobs none = raise crash
  found_jobs (some jobs) = pure jobs

  -- `none` is a caught `JSONDecodeError`.
  unfoldable pub decoded_jobs : Str → Option Value → Exec W (List ℕ)
  unfolding found_jobs
  decoded_jobs short_name none = pure []
  decoded_jobs short_name (some reply) = found_jobs (jobs_in short_name reply)

module _ {W : Type 0} (m : Machine W) where
  unfoldable pub running_jobs_from : Str → Str → Exec W (List ℕ)
  unfolding decoded_jobs
  running_jobs_from short_name [] = pure []
  running_jobs_from short_name (c ∷ output) = decoded_jobs short_name (m.loads (c ∷ output))

  unfoldable pub get_running_jobs : Str → ℕ → Exec W (List ℕ)
  unfolding running_jobs_from
  get_running_jobs hypervisor_host timeout = do
    output ← run_cmd m workers_command true timeout
    running_jobs_from (short_name_of hypervisor_host) output
