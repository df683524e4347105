-- ===== src/Investigate/Failures/Repeats.antt =====
-- Failures that repeat, within a cluster and from one cluster to another:
-- openqa_llm_investigate/failures.py.
pub mod Laws
pub mod Last
use os_autoinst_scripts.Prelude.{
  ℕ, zero, suc, ◌+◌, ◌-◌, ◌≡◌, refl, Bool, true, false, ◌&&◌, ◌||◌, not, Option, none, some, List,
  [], ◌∷◌, ◌++◌, map, leb, ltb, ◌==◌, if◌then◌else◌, length, take, filter, all, last?,
}
use os_autoinst_scripts.Py.Str.{Str, codes, eqb, is_space, join}
use os_autoinst_scripts.Py.Num.{is_digit, decimal}
use os_autoinst_scripts.Py.Dict.{Dict, lookup, insert}
use os_autoinst_scripts.Py.Text.{in_lines}
use os_autoinst_scripts.Py.Regex.{
  Regex, Cursor, empty, one, seq, at_start, is_word, sub, literal, seqs, plus, times, one_of,
}
use os_autoinst_scripts.Investigate.Text.Classes.{is_hex, not_space}
use os_autoinst_scripts.Investigate.Step.{Step, num_of, text_of, title_of}
use os_autoinst_scripts.Investigate.Failures.{
  group_failures_by_proximity, post_fail_start, is_secondary,
}

-- `^\w{3} \d\d [\d:.]+ \S+ `
abbrev pub syslog_prefix_re : Regex
syslog_prefix_re = seqs (
    at_start
    ∷ times 3 (one is_word)
    ∷ literal (codes " ")
    ∷ times 2 (one is_digit)
    ∷ literal (codes " ")
    ∷ plus (one (λ c. is_digit c || one_of (codes ":.") c))
    ∷ literal (codes " ")
    ∷ plus not_space
    ∷ literal (codes " ")
    ∷ [])

-- `(?:[0-9a-fA-F]{2}:){5}[0-9a-fA-F]{2}`
abbrev pub mac_re : Regex
mac_re = seq (times 5 (seq (times 2 (one is_hex)) (literal (codes ":")))) (times 2 (one is_hex))

unfoldable pub failure_key : Step → Str
unfolding sub
failure_key detail =
    let text = sub syslog_prefix_re (λ c. []) (text_of detail) in
    let text = sub mac_re (λ c. codes "MAC") text in
    title_of detail ++ (codes "|" ++ sub (plus (one is_digit)) (λ c. codes "N") text)

-- The first step with a key, and the numbers of its repeats.
abbrev pub Group : Type 0
Group = Step × List ℕ

abbrev pub with_repeat : Step → Option Group → Group
with_repeat d none = (d, [])
with_repeat d (some (first, nums)) = (first, nums ++ (num_of d ∷ []))

unfoldable pub add_repeats : Dict Group → List Step → Dict Group
unfolding lookup insert failure_key
add_repeats groups [] = groups
add_repeats groups (d ∷ ds) =
    add_repeats (insert (failure_key d) (with_repeat d (lookup (failure_key d) groups)) groups) ds

unfoldable pub repeats_by_key : List Step → Dict Group
unfolding add_repeats
repeats_by_key cluster = add_repeats [] cluster

unfoldable pub group_repeated_failures : List Step → List Group
unfolding repeats_by_key
group_repeated_failures cluster = map (λ (entry : Str × Group). entry.1) (repeats_by_key cluster)

unfoldable pub repeat_note : List ℕ → Str
unfolding join decimal
repeat_note nums =
    codes "The failure below repeats "
    ++ (decimal (length nums)
        ++ (codes " more times: "
            ++ (join (codes ", ") (map (λ n. codes "#" ++ decimal n) (take 5 nums))
                ++ (if ltb 5 (length nums)
                    then codes ", ... (+" ++ (decimal (length nums - 5) ++ codes ")")
                    else []))))

-- Clusters with their place in the list, which tells one from another.
abbrev pub Placed : Type 0
Placed = ℕ × List Step

abbrev pub placed : ℕ → List (List Step) → List Placed
placed i [] = []
placed i (c ∷ clusters) = (i, c) ∷ placed (suc i) clusters

-- `frozenset` equality
abbrev pub same_keys : List Str → List Str → Bool
same_keys ks js = all (λ k. in_lines k js) ks && all (λ j. in_lines j ks) js

-- `groups.setdefault(keys, []).append(c)`
unfoldable pub add_cluster :
    List Str → Placed → List (List Str × List Placed) → List (List Str × List Placed)
unfolding in_lines
add_cluster keys c [] = (keys, c ∷ []) ∷ []
add_cluster keys c ((ks, cs) ∷ groups) =
    let later = add_cluster keys c groups in
    if same_keys ks keys then (ks, cs ++ (c ∷ [])) ∷ groups else (ks, cs) ∷ later

unfoldable pub cluster_groups :
    List (List Str × List Placed) → List Placed → List (List Str × List Placed)
unfolding add_cluster failure_key
cluster_groups groups [] = groups
cluster_groups groups (c ∷ clusters) =
    cluster_groups (add_cluster (map failure_key c.1) c groups) clusters

-- `c[0].get("num", 0)`
abbrev pub first_num : Placed → ℕ
first_num (i, []) = 0
first_num (i, d ∷ ds) = num_of d

-- `last.get(id(c))` for the group's clusters: the first numbers of all before the last, if `c` is it
unfoldable pub retries_of : ℕ → List Placed → List ℕ → Option (List ℕ)
retries_of i [] nums = none
retries_of i (c ∷ []) nums = if c.0 == i then some nums else none
retries_of i (c ∷ next ∷ cs) nums = retries_of i (next ∷ cs) (nums ++ (first_num c ∷ []))

unfoldable pub last_of : ℕ → List (List Str × List Placed) → Option (List ℕ)
unfolding retries_of
last_of i [] = none
last_of i ((ks, cs) ∷ groups) = elim (retries_of i cs []) [
  | none ↦ last_of i groups
  | some nums ↦ some nums
]

unfoldable pub keep_last : List (List Str × List Placed) → List Placed → List (List Step × List ℕ)
unfolding last_of
keep_last groups [] = []
keep_last groups (c ∷ clusters) = elim (last_of c.0 groups) [
  | none ↦ keep_last groups clusters
  | some nums ↦ (c.1, nums) ∷ keep_last groups clusters
]

unfoldable pub collapse_repeated_clusters : List (List Step) → List (List Step × List ℕ)
unfolding cluster_groups keep_last
collapse_repeated_clusters clusters =
    let cs = placed 0 clusters in keep_last (cluster_groups [] cs) cs

-- The steps of each cluster outside the post-fail hook, without the clusters that have none.
unfoldable pub primary_clusters : Option ℕ → List (List Step) → List (List Step)
unfolding is_secondary
primary_clusters post_start [] = []
primary_clusters post_start (c ∷ clusters) =
    let rest = primary_clusters post_start clusters in
    elim (filter (λ d. not (is_secondary d post_start)) c) [ [] ↦ rest | d ∷ ds ↦ (d ∷ ds) ∷ rest ]

unfoldable pub failing_cluster : List Step → Option (List Step × List ℕ)
unfolding group_failures_by_proximity post_fail_start primary_clusters collapse_repeated_clusters
failing_cluster all_details = last? (
    collapse_repeated_clusters
      (primary_clusters (post_fail_start all_details) (group_failures_by_proximity all_details 5)))
