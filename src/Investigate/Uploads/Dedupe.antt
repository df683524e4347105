-- ===== src/Investigate/Uploads/Dedupe.antt =====
-- Which lines come out of the deduplication: openqa_llm_investigate/uploads.py.
use os_autoinst_scripts.Prelude.{
  ℕ, ◌+◌, Bool, Option, some, List, [], ◌∷◌, map, length, filter, find, option_map,
}
use os_autoinst_scripts.Py.Str.{Str, eqb}
use os_autoinst_scripts.Py.Dict.{Dict}
use os_autoinst_scripts.Investigate.Uploads.{line_key, with_line, counted_line}

abbrev has_key : Str → Str → Bool
has_key k line = eqb (line_key line) k

-- The first of the lines with a key, and how many there are.
abbrev pub tally_onto : Option (Str × ℕ) → List Str → Option (Str × ℕ)
tally_onto o [] = o
tally_onto o (line ∷ lines) = tally_onto (some (with_line line o)) lines

-- The first line with a key, and how many lines have it.
abbrev pub tally : Str → List Str → Option (Str × ℕ)
tally k lines =
    option_map (λ first. (first, length (filter (has_key k) lines))) (find (has_key k) lines)

-- The lines that the counts stand for.
abbrev pub total : Dict (Str × ℕ) → ℕ
total [] = 0
total ((k, (first, n)) ∷ d) = n + total d

abbrev pub shown : Dict (Str × ℕ) → List Str
shown counts = map (λ (e : Str × (Str × ℕ)). counted_line e.1) counts
