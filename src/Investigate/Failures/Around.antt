-- ===== src/Investigate/Failures/Around.antt =====
-- What `get_context_steps` returns: the steps around a cluster.
use os_autoinst_scripts.Prelude.{
  ℕ, zero, suc, ◌-◌, ◌≤◌, ◌<◌, List, [], ◌∷◌, arith, leb, if◌then◌else◌, length, length-take_le,
  take, drop, length-drop, All, Bool-cases, inl, inr, leb→gt,
}
use os_autoinst_scripts.Investigate.Step.{Step, num_of}
use os_autoinst_scripts.Investigate.Failures.{first_from, behind_last, get_context_steps}

module _ {ℓ} {A : Type ℓ} (P : A → Type 0) where
  All-drop : (n : ℕ) (xs : List A) → All P xs → All P (drop n xs)
  All-drop zero xs h = h
  All-drop (suc n) [] h = h
  All-drop (suc n) (x ∷ xs) h = All-drop n xs h.1

  All-take : (n : ℕ) (xs : List A) → All P xs → All P (take n xs)
  All-take zero xs h = tt
  All-take (suc n) [] h = tt
  All-take (suc n) (x ∷ xs) h = (h.0, All-take n xs h.1)

before-first_from :
    (low : ℕ) (ds : List Step) → All (λ d. num_of d < low) (take (first_from low ds) ds)
unfolding first_from
before-first_from low [] = tt
before-first_from low (d ∷ ds) = elim (Bool-cases (leb low (num_of d))) [
  | inl e ↦ rw e tt
  | inr e ↦ rw e (leb→gt _ _ e, before-first_from low ds)
]

behind-behind_last :
    (high : ℕ) (ds : List Step) → All (λ d. high < num_of d) (drop (behind_last high ds) ds)
unfolding behind_last
behind-behind_last high [] = tt
behind-behind_last high (d ∷ ds) = go (behind_last high ds) (behind-behind_last high ds)
  where
    go :
        (n : ℕ)
        → All (λ d. high < num_of d) (drop n ds)
        → All
            (λ d. high < num_of d)
            (drop
              (elim n [ zero ↦ if leb (num_of d) high then 1 else 0 | suc k ↦ suc (suc k) ])
              (d ∷ ds))
    go zero h = elim (Bool-cases (leb (num_of d) high)) [
      | inl e ↦ rw e h
      | inr e ↦ rw e (leb→gt _ _ e, h)
    ]
    go (suc k) h = h

length-take_first :
    (low : ℕ) (ds : List Step) → length (take (first_from low ds) ds) ≤ first_from low ds
length-take_first low ds = length-take_le (first_from low ds) ds

-- At most `before` steps are shown before a cluster and at most `after` behind it. None of the
-- former has a number from the cluster's least on, and none of the latter one up to its greatest.
pub get_context_steps_lem :
    (details : List Step) (low high before after : ℕ)
    → let shown = get_context_steps details low high before after in
      (length shown.0 ≤ before)
      × (length shown.1 ≤ after)
      × All (λ d. num_of d < low) shown.0
      × All (λ d. high < num_of d) shown.1
unfolding get_context_steps
get_context_steps_lem details low high before after =
    let n = first_from low details in
    (
      omega (arith, length-drop (n - before) (take n details), length-take_le n details),
      length-take_le after (drop (behind_last high details) details),
      All-drop (λ d. num_of d < low) (n - before) _ (before-first_from low details),
      All-take (λ d. high < num_of d) after _ (behind-behind_last high details),
    )
