-- ===== src/Investigate/Http/Cached.antt =====
-- A file of a job is fetched once.
use os_autoinst_scripts.Prelude.{ℕ, ◌≡◌, some, arith}
use os_autoinst_scripts.Py.Str.{Str, eqb_refl}
use os_autoinst_scripts.Py.Dict.{Dict, lookup, lookup-insert}
use os_autoinst_scripts.Investigate.Http.{
  Client, capped, cached_file, file_path, job_file, or_nothing,
}

lookup-cached_file :
    (client : Client) (path : Str) (max_bytes : ℕ) (cache : Dict Str)
    → lookup path (cached_file client path max_bytes cache).1
      ≡ some (cached_file client path max_bytes cache).0
unfolding cached_file
lookup-cached_file client path max_bytes cache = ground (
  arith,
  lookup-insert path path (or_nothing (capped client path max_bytes)) cache,
  eqb_refl path,
)

cached_file-again :
    (client : Client) (path : Str) (n : ℕ) (r : Str × Dict Str)
    → lookup path r.1 ≡ some r.0
    → cached_file client path n r.1 ≡ r
unfolding cached_file
cached_file-again client path n (body, cache) h = ground (arith, h)

-- A file that is asked for again is the same, whatever the server would answer by then and whatever
-- the cap is, and the cache stays as it is, also if the file could not be fetched.
pub job_file-again :
    (client later : Client) (job_id name : Str) (max_bytes n : ℕ) (cache : Dict Str)
    → job_file later job_id name n (job_file client job_id name max_bytes cache).1
      ≡ job_file client job_id name max_bytes cache
unfolding job_file
job_file-again client later job_id name max_bytes n cache =
    cached_file-again later (file_path job_id name) n
      (cached_file client (file_path job_id name) max_bytes cache)
      (lookup-cached_file client (file_path job_id name) max_bytes cache)
