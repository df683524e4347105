-- ===== src/Investigate/Failures/Clusters.antt =====
-- What the clusters of failing steps have in common and what sets them apart.
use os_autoinst_scripts.Prelude.{
  ℕ, ◌+◌, ◌≡◌, refl, Bool, true, false, ◌&&◌, not, Option, none, some, List, [], ◌∷◌, ◌++◌,
  append_assoc, append-nil, arith, leb, filter, last?, all, ◌∙◌, sym, ap, Bool-cases, inl, inr,
}
use os_autoinst_scripts.Investigate.Step.{Step, num_of, is_fail}
use os_autoinst_scripts.Investigate.Failures.{
  is_near, add_failure, add_failures, group_failures_by_proximity,
}

-- All steps of the clusters, in order.
abbrev pub together : List (List Step) → List Step
together [] = []
together (c ∷ clusters) = c ++ together clusters

-- The numbers of two steps are at most `gap` apart, the first the smaller if they are not in order.
abbrev pub within : ℕ → Step → Step → Bool
within gap d e = leb (num_of e) (num_of d + gap)

-- A cluster has a step, and each of its steps is near to the one before.
abbrev pub is_close : ℕ → List Step → Bool
is_close gap [] = false
is_close gap (d ∷ []) = true
is_close gap (d ∷ e ∷ ds) = within gap d e && is_close gap (e ∷ ds)

-- The first step of a cluster is near to the last step of the one before.
abbrev pub meets : ℕ → Option Step → List Step → Bool
meets gap (some d) (e ∷ es) = within gap d e
meets gap _ _ = false

-- No cluster begins near to the end of the one before.
abbrev pub are_apart : ℕ → List (List Step) → Bool
are_apart gap [] = true
are_apart gap (c ∷ []) = true
are_apart gap (c ∷ next ∷ clusters) =
    not (meets gap (last? c) next) && are_apart gap (next ∷ clusters)

together-add_failure :
    (gap : ℕ) (clusters : List (List Step)) (d : Step)
    → together (add_failure gap clusters d) ≡ together clusters ++ (d ∷ [])
unfolding add_failure
together-add_failure gap [] d = refl
together-add_failure gap (c ∷ []) d = elim (Bool-cases (is_near gap c d)) [
  | inl e ↦ rw e (append-nil (c ++ (d ∷ [])) ∙ ap (λ x. x ++ (d ∷ [])) (sym (append-nil c)))
  | inr e ↦ rw e (ap (λ x. x ++ (d ∷ [])) (sym (append-nil c)))
]
together-add_failure gap (c ∷ next ∷ clusters) d =
    ap (λ x. c ++ x) (together-add_failure gap (next ∷ clusters) d)
    ∙ sym (append_assoc c (together (next ∷ clusters)) (d ∷ []))

close_more :
    (gap : ℕ) (c : List Step) (d : Step)
    → is_close gap c ≡ true
    → is_near gap c d ≡ true
    → is_close gap (c ++ (d ∷ [])) ≡ true
unfolding is_near
close_more gap [] d h k = ground (arith, h)
close_more gap (e ∷ []) d h k = ground (arith, k)
close_more gap (e ∷ f ∷ c) d h k = ground (arith, h, k, close_more gap (f ∷ c) d)

all-add_failure :
    (gap : ℕ) (clusters : List (List Step)) (d : Step)
    → all (is_close gap) clusters ≡ true
    → all (is_close gap) (add_failure gap clusters d) ≡ true
unfolding add_failure
all-add_failure gap [] d h = refl
all-add_failure gap (c ∷ []) d h = ground (arith, h, close_more gap c d)
all-add_failure gap (c ∷ next ∷ clusters) d h =
    ground (arith, h, all-add_failure gap (next ∷ clusters) d)

meets-near : (gap : ℕ) (c : List Step) (d : Step) → meets gap (last? c) (d ∷ []) ≡ is_near gap c d
unfolding is_near
meets-near gap c d = go (last? c)
  where
    go :
        (o : Option Step)
        → meets gap o (d ∷ []) ≡ (elim o [ none ↦ false | some p ↦ within gap p d ])
    go none = refl
    go (some p) = refl

-- What a cluster meets does not change when a step is added behind.
apart-behind :
    (gap : ℕ) (o : Option Step) (next : List Step) (clusters : List (List Step)) (d : Step)
    → is_close gap next ≡ true
    → meets gap o next ≡ false
    → (k : List Step) × (ks : List (List Step)) × (add_failure gap (next ∷ clusters) d ≡ k ∷ ks)
      × (meets gap o k ≡ false)
unfolding add_failure
apart-behind gap o [] clusters d h k = absurd (ground (arith, h))
apart-behind gap o (e ∷ es) (f ∷ clusters) d h k = (e ∷ es, _, refl, k)
apart-behind gap o (e ∷ es) [] d h k = elim (Bool-cases (is_near gap (e ∷ es) d)) [
  | inl n ↦ (e ∷ (es ++ (d ∷ [])), [], ground (arith, n), same o k)
  | inr n ↦ (e ∷ es, (d ∷ []) ∷ [], ground (arith, n), k)
]
  where
    same :
        (o : Option Step)
        → meets gap o (e ∷ es) ≡ false
        → meets gap o (e ∷ (es ++ (d ∷ []))) ≡ false
    same none k = refl
    same (some p) k = k

apart-add_failure :
    (gap : ℕ) (clusters : List (List Step)) (d : Step)
    → all (is_close gap) clusters ≡ true
    → are_apart gap clusters ≡ true
    → are_apart gap (add_failure gap clusters d) ≡ true
unfolding add_failure
apart-add_failure gap [] d h k = refl
apart-add_failure gap (c ∷ []) d h k = ground (arith, meets-near gap c d)
apart-add_failure gap (c ∷ next ∷ clusters) d h k =
    let (m, ms, e, apart) =
      apart-behind gap (last? c) next clusters d (ground (arith, h)) (ground (arith, k)) in
    let behind =
      apart-add_failure gap (next ∷ clusters) d (ground (arith, h)) (ground (arith, k)) in
    ground (arith, e, apart, behind)

-- The clusters so far are as they should be.
abbrev pub grouped : ℕ → List (List Step) → Bool
grouped gap clusters = all (is_close gap) clusters && are_apart gap clusters

add_failures_lem :
    (gap : ℕ) (clusters : List (List Step)) (ds : List Step)
    → grouped gap clusters ≡ true
    → (together (add_failures gap clusters ds) ≡ together clusters ++ ds)
      × (grouped gap (add_failures gap clusters ds) ≡ true)
unfolding add_failures
add_failures_lem gap clusters [] h = (sym (append-nil (together clusters)), h)
add_failures_lem gap clusters (d ∷ ds) h =
    let all_close : all (is_close gap) clusters ≡ true = ground (arith, h) in
    let apart : are_apart gap clusters ≡ true = ground (arith, h) in
    let kept : grouped gap (add_failure gap clusters d) ≡ true = ground (
      arith,
      all-add_failure gap clusters d all_close,
      apart-add_failure gap clusters d all_close apart,
    ) in
    let (same, good) = add_failures_lem gap (add_failure gap clusters d) ds kept in
    (
      same
          ∙ ap (λ x. x ++ ds) (together-add_failure gap clusters d)
          ∙ append_assoc (together clusters) (d ∷ []) ds,
      good,
    )

-- The clusters hold exactly the failing steps, in order. No cluster is empty, the numbers of two
-- steps that follow each other in one are at most `gap` apart, and those of the last step of a
-- cluster and the first step of the next are further apart.
pub group_failures_by_proximity_lem :
    (details : List Step) (gap : ℕ)
    → (together (group_failures_by_proximity details gap) ≡ filter is_fail details)
      × (all (is_close gap) (group_failures_by_proximity details gap) ≡ true)
      × (are_apart gap (group_failures_by_proximity details gap) ≡ true)
unfolding group_failures_by_proximity
group_failures_by_proximity_lem details gap =
    let (same, good) = add_failures_lem gap [] (filter is_fail details) refl in
    (same, ground (arith, good), ground (arith, good))
