-- ===== src/Investigate/Http.antt =====
-- The client of openqa_llm_investigate/http.py: its cache, and the cap on the files of a job.
pub mod Stream
pub mod Cached
pub mod Extends
pub mod Refines
use os_autoinst_scripts.Prelude.{
  ℕ, zero, suc, ◌+◌, ◌-◌, ◌*◌, ◌/◌, ◌≡◌, refl, Bool, true, false, Option, none, some, List, [], ◌∷◌,
  ◌++◌, leb, ◌==◌, if◌then◌else◌, length, take, drop, last_n,
}
use os_autoinst_scripts.Py.Str.{Str, codes, partition}
use os_autoinst_scripts.Py.Num.{decimal}
use os_autoinst_scripts.Py.Dict.{Dict, lookup, insert}

-- `JOB_FILE_MAX_BYTES`: 8 MiB
abbrev pub job_file_max_bytes : ℕ
job_file_max_bytes = 8388608

-- What httpx answers to a path of the server: the text, or the chunks of the body; none stands for an
-- `HTTPError`. `decode` is the decoding of bytes, with replacements for what is not UTF-8.
pub record Client : Type 0 where
  pub get : Str → Option Str
  pub stream : Str → Option (List Str)
  pub decode : Str → Str

-- `head`, `tail` and `total` in the loop of `_capped`
pub record Streamed : Type 0 where
  pub head : Str
  pub tail : Str
  pub total : ℕ

-- `del tail[:-half]`, which deletes nothing for half = 0
abbrev pub kept_tail : ℕ → Str → Str
kept_tail zero tail = tail
kept_tail (suc n) tail = last_n (suc n) tail

unfoldable pub add_chunk : ℕ → Streamed → Str → Streamed
add_chunk half s chunk =
    let room = half - length s.head in
    record {
      head = s.head ++ take room chunk;
      tail = kept_tail half (s.tail ++ drop room chunk);
      total = s.total + length chunk;
    }

unfoldable pub add_chunks : ℕ → Streamed → List Str → Streamed
unfolding add_chunk
add_chunks half s [] = s
add_chunks half s (chunk ∷ chunks) = add_chunks half (add_chunk half s chunk) chunks

abbrev pub nothing_streamed : Streamed
nothing_streamed = record { head = []; tail = []; total = 0 }

-- What stands before the last line feed, if there is one.
unfoldable pub before_last : Str → Option Str
before_last [] = none
before_last (c ∷ s) = elim (before_last s) [
  | some t ↦ some (c ∷ t)
  | none ↦ if c == 10 then some [] else none
]

-- `s.rsplit("\n", 1)[0]` and `s.split("\n", 1)[-1]`
abbrev pub or_whole : Str → Option Str → Str
or_whole s none = s
or_whole s (some t) = t

abbrev pub behind_first : Str → Str × Bool × Str → Str
behind_first s (head, found, tail) = if found then tail else s

unfoldable pub joined : Client → ℕ → Streamed → Str
unfolding before_last partition decimal
joined client max_bytes s =
    let omitted = s.total - length s.head - length s.tail in
    let head = client.decode s.head in
    let tail = client.decode s.tail in
    if leb s.total max_bytes
    then client.decode (s.head ++ s.tail)
    else or_whole head (before_last head)
      ++ (codes "\n[... "
          ++ (decimal omitted
              ++ (codes " bytes omitted from the middle of this file ...]\n"
                  ++ behind_first tail (partition 10 tail))))

abbrev pub capped_chunks : Client → ℕ → Option (List Str) → Option Str
capped_chunks client max_bytes none = none
capped_chunks client max_bytes (some chunks) =
    some (joined client max_bytes (add_chunks (max_bytes / 2) nothing_streamed chunks))

-- `_capped`
unfoldable pub capped : Client → Str → ℕ → Option Str
unfolding add_chunks joined
capped client path max_bytes = capped_chunks client max_bytes (client.stream path)

-- `text`: the body, or none for an `AnalyzerError`, and the cache
abbrev pub remember : Str → Option Str → Dict Str → Option Str × Dict Str
remember path none cache = (none, cache)
remember path (some body) cache = (some body, insert path body cache)

unfoldable pub text : Client → Str → Dict Str → Option Str × Dict Str
unfolding lookup insert
text client path cache = elim (lookup path cache) [
  | some body ↦ (some body, cache)
  | none ↦ remember path (client.get path) cache
]

abbrev pub or_nothing : Option Str → Str
or_nothing none = []
or_nothing (some s) = s

unfoldable pub text_or_empty : Client → Str → Dict Str → Str × Dict Str
unfolding text
text_or_empty client path cache =
    let (body, cache') = text client path cache in (or_nothing body, cache')

unfoldable pub file_path : Str → Str → Str
file_path job_id name = codes "/tests/" ++ (job_id ++ (codes "/file/" ++ name))

unfoldable pub cached_file : Client → Str → ℕ → Dict Str → Str × Dict Str
unfolding lookup insert capped
cached_file client path max_bytes cache = elim (lookup path cache) [
  | some body ↦ (body, cache)
  | none ↦ let body = or_nothing (capped client path max_bytes) in (body, insert path body cache)
]

unfoldable pub job_file : Client → Str → Str → ℕ → Dict Str → Str × Dict Str
unfolding cached_file file_path
job_file client job_id name max_bytes cache =
    cached_file client (file_path job_id name) max_bytes cache
