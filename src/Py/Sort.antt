-- ===== src/Py/Sort.antt =====
-- `sorted(xs, key=key)`: a stable sort, here by insertion from the right.
use os_autoinst_scripts.Prelude.{
  suc, ◌≡◌, refl, Bool, true, false, not, ◌&&◌, ◌||◌, List, [], ◌∷◌, ◌++◌, arith, if◌then◌else◌,
  length, filter, Bool-cases, inl, inr, ap, ◌∙◌,
}

module _ {ℓ} {A : Type ℓ} (le : A → A → Bool) where
  unfoldable pub insert_sorted : A → List A → List A
  insert_sorted x [] = x ∷ []
  insert_sorted x (y ∷ ys) =
      let rest = insert_sorted x ys in if le x y then x ∷ y ∷ ys else y ∷ rest

  unfoldable pub sort_by : List A → List A
  unfolding insert_sorted
  sort_by [] = []
  sort_by (x ∷ xs) = insert_sorted x (sort_by xs)

  -- Each element is at most the next.
  abbrev pub is_sorted : List A → Bool
  is_sorted [] = true
  is_sorted (x ∷ []) = true
  is_sorted (x ∷ y ∷ ys) = le x y && is_sorted (y ∷ ys)

  module _ (total : (x y : A) → (le x y || le y x) ≡ true) where
    is_sorted-insert_sorted :
        (x : A) (ys : List A) → is_sorted ys ≡ true → is_sorted (insert_sorted x ys) ≡ true
    unfolding insert_sorted
    is_sorted-insert_sorted x [] h = refl
    is_sorted-insert_sorted x (y ∷ []) h = ground (arith, total x y)
    is_sorted-insert_sorted x (y ∷ z ∷ zs) h =
        ground (arith, h, total x y, is_sorted-insert_sorted x (z ∷ zs))

    pub is_sorted-sort_by : (xs : List A) → is_sorted (sort_by xs) ≡ true
    unfolding sort_by
    is_sorted-sort_by [] = refl
    is_sorted-sort_by (x ∷ xs) = is_sorted-insert_sorted x (sort_by xs) (is_sorted-sort_by xs)

  count-insert_sorted :
      (p : A → Bool) (x : A) (ys : List A)
      → length (filter p (insert_sorted x ys)) ≡ length (filter p (x ∷ ys))
  unfolding insert_sorted
  count-insert_sorted p x [] = refl
  count-insert_sorted p x (y ∷ ys) = ground (arith, count-insert_sorted p x ys)

  -- The sorted list has as many elements of each kind as the list.
  pub count-sort_by :
      (p : A → Bool) (xs : List A) → length (filter p (sort_by xs)) ≡ length (filter p xs)
  unfolding sort_by
  count-sort_by p [] = refl
  count-sort_by p (x ∷ xs) =
      ground (arith, count-insert_sorted p x (sort_by xs), count-sort_by p xs)

  length-insert_sorted : (x : A) (ys : List A) → length (insert_sorted x ys) ≡ suc (length ys)
  unfolding insert_sorted
  length-insert_sorted x [] = refl
  length-insert_sorted x (y ∷ ys) = ground (arith, length-insert_sorted x ys)

  pub length-sort_by : (xs : List A) → length (sort_by xs) ≡ length xs
  unfolding sort_by
  length-sort_by [] = refl
  length-sort_by (x ∷ xs) = ground (arith, length-insert_sorted x (sort_by xs), length-sort_by xs)

-- By a test that puts the elements that meet it first, the sort is a partition: the elements that meet
-- it, in their order, and then the others, in theirs.
module _ {ℓ} {A : Type ℓ} (k : A → Bool) where
  abbrev first_k : A → A → Bool
  first_k x y = k x || not (k y)

  abbrev parts : List A → List A
  parts xs = filter k xs ++ filter (λ x. not (k x)) xs

  insert_front : (x : A) (ys : List A) → k x ≡ true → insert_sorted first_k x ys ≡ x ∷ ys
  unfolding insert_sorted
  insert_front x [] h = refl
  insert_front x (y ∷ ys) h = rw h refl

  insert_behind :
      (x : A) (xs ys : List A)
      → k x ≡ false
      → insert_sorted first_k x (filter k xs ++ filter (λ y. not (k y)) ys)
        ≡ filter k xs ++ (x ∷ filter (λ y. not (k y)) ys)
  unfolding insert_sorted
  insert_behind x [] [] h = refl
  insert_behind x [] (y ∷ ys) h = elim (Bool-cases (k y)) [
    | inl e ↦ rw e (insert_behind x [] ys h)
    | inr e ↦ rw (e, h, e) refl
  ]
  insert_behind x (z ∷ xs) ys h = elim (Bool-cases (k z)) [
    | inl e ↦ rw (e, h, e) (ap (λ l. z ∷ l) (insert_behind x xs ys h))
    | inr e ↦ rw e (insert_behind x xs ys h)
  ]

  pub sort_by-parts : (xs : List A) → sort_by first_k xs ≡ parts xs
  unfolding sort_by
  sort_by-parts [] = refl
  sort_by-parts (x ∷ xs) = elim (Bool-cases (k x)) [
    | inl e ↦
        ap (insert_sorted first_k x) (sort_by-parts xs) ∙ insert_front x (parts xs) e ∙ rw e refl
    | inr e ↦ ap (insert_sorted first_k x) (sort_by-parts xs) ∙ insert_behind x xs xs e ∙ rw e refl
  ]

-- Two orders that agree sort the same lists.
pub is_sorted-same {ℓ} :
    {A : Type ℓ} (le le' : A → A → Bool)
    → ((x y : A) → le x y ≡ le' x y)
    → (xs : List A) → is_sorted le xs ≡ is_sorted le' xs
is_sorted-same le le' h [] = refl
is_sorted-same le le' h (x ∷ []) = refl
is_sorted-same le le' h (x ∷ y ∷ ys) = rw (h x y, is_sorted-same le le' h (y ∷ ys)) refl
