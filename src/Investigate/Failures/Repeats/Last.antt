-- ===== src/Investigate/Failures/Repeats/Last.antt =====
-- Which cluster `failing_cluster` returns.
use os_autoinst_scripts.Prelude.{
  ℕ, suc, ◌≡◌, refl, Bool, true, false, not, ◌&&◌, Option, none, some, filter, filter-same, leb,
  List, [], ◌∷◌, ◌++◌, map, arith, if◌then◌else◌, last?, option_map, ◌⊎◌, inl, inr, ◌∙◌, sym, ap,
  subst, Option-cases,
}
use os_autoinst_scripts.Py.Str.{Str, codes, contains}
use os_autoinst_scripts.Investigate.Step.{Step, num_of, text_of}
use os_autoinst_scripts.Investigate.Failures.{
  group_failures_by_proximity, is_secondary, post_fail_start,
}
use os_autoinst_scripts.Investigate.Failures.Repeats.{
  Placed, placed, add_cluster, cluster_groups, retries_of, last_of, keep_last,
  collapse_repeated_clusters, primary_clusters, failing_cluster, failure_key, same_keys, first_num,
}

module _ {ℓ} {A : Type ℓ} where
  snoc-cases : (xs : List A) → (xs ≡ []) ⊎ ((ys : List A) × (z : A) × (xs ≡ ys ++ (z ∷ [])))
  snoc-cases [] = inl refl
  snoc-cases (x ∷ xs) = elim (snoc-cases xs) [
    | inl e ↦ inr ([], x, ap (λ l. x ∷ l) e)
    | inr (ys, z, e) ↦ inr (x ∷ ys, z, ap (λ l. x ∷ l) e)
  ]

  last-snoc : (xs : List A) (z : A) → last? (xs ++ (z ∷ [])) ≡ some z
  last-snoc [] z = refl
  last-snoc (x ∷ []) z = refl
  last-snoc (x ∷ y ∷ ys) z = last-snoc (y ∷ ys) z

retries_of-snoc :
    (i : ℕ) (c : List Step) (cs : List Placed) (nums : List ℕ)
    → (found : List ℕ) × (retries_of i (cs ++ ((i, c) ∷ [])) nums ≡ some found)
unfolding retries_of
retries_of-snoc i c [] nums = (nums, ground arith)
retries_of-snoc i c (d ∷ []) nums = (nums ++ (first_num d ∷ []), ground arith)
retries_of-snoc i c (d ∷ e ∷ cs) nums = retries_of-snoc i c (e ∷ cs) (nums ++ (first_num d ∷ []))

-- A cluster that has just been added is the last of its group.
last_of-add_cluster :
    (keys : List Str) (i : ℕ) (c : List Step) (groups : List (List Str × List Placed))
    → (found : List ℕ) × (last_of i (add_cluster keys (i, c) groups) ≡ some found)
unfolding last_of add_cluster
last_of-add_cluster keys i c [] = ([], ground arith)
last_of-add_cluster keys i c ((ks, cs) ∷ groups) =
    go (same_keys ks keys) (last_of-add_cluster keys i c groups)
  where
    go :
        (b : Bool)
        → (found : List ℕ) × (last_of i (add_cluster keys (i, c) groups) ≡ some found)
        → (found : List ℕ) × (last_of i (
              if b
              then (ks, cs ++ ((i, c) ∷ [])) ∷ groups
              else (ks, cs) ∷ add_cluster keys (i, c) groups)
            ≡ some found)
    go true k = let (found, e) = retries_of-snoc i c cs [] in (found, ground (arith, e))
    go false k = elim (Option-cases (retries_of i cs [])) [
      | inl e ↦ let (found, h) = k in (found, ground (arith, e, h))
      | inr (found, e) ↦ (found, ground (arith, e))
    ]

cluster_groups-snoc :
    (groups : List (List Str × List Placed)) (cs : List Placed) (c : Placed)
    → cluster_groups groups (cs ++ (c ∷ []))
      ≡ add_cluster (map failure_key c.1) c (cluster_groups groups cs)
unfolding cluster_groups
cluster_groups-snoc groups [] c = refl
cluster_groups-snoc groups (d ∷ cs) c =
    cluster_groups-snoc (add_cluster (map failure_key d.1) d groups) cs c

placed-snoc :
    (i : ℕ) (cs : List (List Step)) (c : List Step)
    → (j : ℕ) × (placed i (cs ++ (c ∷ [])) ≡ placed i cs ++ ((j, c) ∷ []))
placed-snoc i [] c = (i, refl)
placed-snoc i (d ∷ cs) c = let (j, e) = placed-snoc (suc i) cs c in (j, ap (λ l. (i, d) ∷ l) e)

last-cons {ℓ} : {A : Type ℓ} (x y : A) (xs : List A) → last? xs ≡ some y → last? (x ∷ xs) ≡ some y
last-cons x y [] e = cc
last-cons x y (z ∷ xs) e = e

last-keep_last :
    (groups : List (List Str × List Placed)) (cs : List Placed) (i : ℕ) (c : List Step)
    (nums : List ℕ)
    → last_of i groups ≡ some nums
    → last? (keep_last groups (cs ++ ((i, c) ∷ []))) ≡ some (c, nums)
unfolding keep_last
last-keep_last groups [] i c nums h = ground (arith, h)
last-keep_last groups (d ∷ cs) i c nums h =
    let behind = last-keep_last groups cs i c nums h in
    elim (Option-cases (last_of d.0 groups)) [
      | inl e ↦ ground (arith, e, behind)
      | inr (ns, e) ↦
          ground (
            arith,
            e,
            last-cons (d.1, ns) (c, nums) (keep_last groups (cs ++ ((i, c) ∷ []))) behind,
          )
    ]

collapse-snoc :
    (cs : List (List Step)) (c : List Step)
    → option_map
        (λ (found : List Step × List ℕ). found.0)
        (last? (collapse_repeated_clusters (cs ++ (c ∷ []))))
      ≡ some c
unfolding collapse_repeated_clusters
collapse-snoc cs c =
    let (j, e) = placed-snoc 0 cs c in
    let groups = cluster_groups [] (placed 0 cs) in
    let (nums, h) = last_of-add_cluster (map failure_key c) j c groups in
    rw e (
      rw (cluster_groups-snoc [] (placed 0 cs) (j, c)) (
        ap (option_map (λ (found : List Step × List ℕ). found.0)) (
          last-keep_last (add_cluster (map failure_key c) (j, c) groups) (placed 0 cs) j c nums h)))

collapse-last :
    (clusters : List (List Step))
    → option_map
        (λ (found : List Step × List ℕ). found.0)
        (last? (collapse_repeated_clusters clusters))
      ≡ last? clusters
unfolding collapse_repeated_clusters keep_last cluster_groups
collapse-last clusters = elim (snoc-cases clusters) [
  | inl e ↦ rw e refl
  | inr (cs, c, e) ↦
      subst
        (λ cl.
          option_map (λ (found : List Step × List ℕ). found.0)
            (last? (collapse_repeated_clusters cl))
          ≡ last? cl)
        (sym e) (collapse-snoc cs c ∙ sym (last-snoc cs c))
]

-- A step of the test itself: its text does not say that the post-fail hook died, and it does not come
-- behind the first marker of the hook.
abbrev pub is_primary : Option ℕ → Step → Bool
is_primary none d = not (contains (text_of d) (codes "# Post fail hook died"))
is_primary (some start) d =
    not (contains (text_of d) (codes "# Post fail hook died")) && leb (num_of d) start

abbrev pub has_step : List Step → Bool
has_step [] = false
has_step (d ∷ ds) = true

primary-same : (start : Option ℕ) (d : Step) → not (is_secondary d start) ≡ is_primary start d
unfolding is_secondary
primary-same none d = ground arith
primary-same (some start) d = ground arith

with_kept :
    (ds : List Step) (rest kept : List (List Step))
    → rest ≡ filter has_step kept
    → (elim ds [ [] ↦ rest | d ∷ es ↦ (d ∷ es) ∷ rest ]) ≡ filter has_step (ds ∷ kept)
with_kept [] rest kept h = h
with_kept (d ∷ ds) rest kept h = ap (λ l. (d ∷ ds) ∷ l) h

primary_clusters_lem :
    (start : Option ℕ) (clusters : List (List Step))
    → primary_clusters start clusters ≡ filter has_step (map (filter (is_primary start)) clusters)
unfolding primary_clusters
primary_clusters_lem start [] = refl
primary_clusters_lem start (c ∷ clusters) =
    let kept = map (filter (is_primary start)) clusters in
    with_kept (filter (λ d. not (is_secondary d start)) c) (primary_clusters start clusters) kept
      (primary_clusters_lem start clusters)
    ∙ ap (λ ds. filter has_step (ds ∷ kept))
        (filter-same (λ d. not (is_secondary d start)) (is_primary start) (primary-same start) c)

-- Of each cluster of failing steps at most five apart, keep the steps of the test itself: those whose
-- text does not say that the post-fail hook died, and whose number is at most that of the first
-- marker of the hook. The cluster that `failing_cluster` returns is the last one of which a step is
-- kept, with the kept steps; there is none only if none is kept in any cluster.
pub failing_cluster-last :
    (all_details : List Step)
    → option_map (λ (found : List Step × List ℕ). found.0) (failing_cluster all_details)
      ≡ last? (
          filter has_step (
            map
              (filter (is_primary (post_fail_start all_details)))
              (group_failures_by_proximity all_details 5)))
unfolding failing_cluster
failing_cluster-last all_details =
    let start = post_fail_start all_details in
    let clusters = group_failures_by_proximity all_details 5 in
    collapse-last (primary_clusters start clusters) ∙ ap last? (primary_clusters_lem start clusters)
