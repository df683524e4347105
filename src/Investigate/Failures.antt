-- ===== src/Investigate/Failures.antt =====
-- The steps and clusters of openqa_llm_investigate/failures.py.
pub mod Clusters
pub mod Around
pub mod Commands
pub mod Xfstests
pub mod Repeats
pub mod Modules
use os_autoinst_scripts.Prelude.{
  ℕ, zero, suc, ◌+◌, ◌-◌, ◌≡◌, refl, Bool, true, false, ◌&&◌, ◌||◌, not, Option, none, some, List,
  [], ◌∷◌, ◌++◌, map, leb, ltb, ◌==◌, if◌then◌else◌, length, take, drop, filter, any, last?, find,
}
use os_autoinst_scripts.Py.Str.{Str, codes, eqb, contains}
use os_autoinst_scripts.Investigate.Step.{Step, num_of, is_fail, text_of, title_of}

-- `detail["num"] - cluster[-1]["num"] <= gap`
unfoldable pub is_near : ℕ → List Step → Step → Bool
is_near gap cluster d = elim (last? cluster) [
  | none ↦ false
  | some p ↦ leb (num_of d) (num_of p + gap)
]

-- A failing step goes to the last of the clusters, or begins a new one.
unfoldable pub add_failure : ℕ → List (List Step) → Step → List (List Step)
unfolding is_near
add_failure gap [] d = (d ∷ []) ∷ []
add_failure gap (c ∷ []) d = if is_near gap c d then (c ++ (d ∷ [])) ∷ [] else c ∷ (d ∷ []) ∷ []
add_failure gap (c ∷ next ∷ clusters) d = c ∷ add_failure gap (next ∷ clusters) d

unfoldable pub add_failures : ℕ → List (List Step) → List Step → List (List Step)
unfolding add_failure
add_failures gap clusters [] = clusters
add_failures gap clusters (d ∷ ds) = add_failures gap (add_failure gap clusters d) ds

unfoldable pub group_failures_by_proximity : List Step → ℕ → List (List Step)
unfolding add_failures is_fail
group_failures_by_proximity details gap = add_failures gap [] (filter is_fail details)

-- `post_fail_start`: the least number of the marker steps
abbrev pub least : List ℕ → Option ℕ
least [] = none
least (n ∷ ns) = elim (least ns) [ none ↦ some n | some k ↦ if leb n k then some n else some k ]

unfoldable pub post_fail_start : List Step → Option ℕ
unfolding eqb
post_fail_start details =
    least (map num_of (filter (λ d. eqb (title_of d) (codes "Post-fail")) details))

abbrev pub is_behind : Option ℕ → ℕ → Bool
is_behind none n = false
is_behind (some start) n = ltb start n

unfoldable pub is_secondary : Step → Option ℕ → Bool
unfolding contains
is_secondary step post_start =
    contains (text_of step) (codes "# Post fail hook died") || is_behind post_start (num_of step)

-- `get_context_steps`: the place of the first step from `low` on, and that behind the last step up
-- to `high`
unfoldable pub first_from : ℕ → List Step → ℕ
first_from low [] = 0
first_from low (d ∷ ds) = let rest = first_from low ds in if leb low (num_of d) then 0 else suc rest

unfoldable pub behind_last : ℕ → List Step → ℕ
behind_last high [] = 0
behind_last high (d ∷ ds) = elim (behind_last high ds) [
  | zero ↦ if leb (num_of d) high then 1 else 0
  | suc n ↦ suc (suc n)
]

unfoldable pub get_context_steps : List Step → ℕ → ℕ → ℕ → ℕ → List Step × List Step
unfolding first_from behind_last
get_context_steps all_details low high before after =
    let first_idx = first_from low all_details in
    let behind_idx = behind_last high all_details in
    (
      drop (first_idx - before) (take first_idx all_details),
      take after (drop behind_idx all_details),
    )
