-- ===== src/Py/Regex/Masks.antt =====
-- `re.sub` of the runs of a class of characters.
use os_autoinst_scripts.Prelude.{
  ℕ, zero, suc, ◌≤◌, ◌≡◌, ◌⊎◌, refl, Bool, true, false, Option, none, some, List, [], ◌∷◌, ◌++◌,
  any, any-append, arith, length, inl, inr, ◌∙◌, ap, if◌then◌else◌, ltb,
}
use os_autoinst_scripts.Py.Str.{Str}
use os_autoinst_scripts.Py.Dict.{or_else}
use os_autoinst_scripts.Py.Regex.{
  Cursor, cursor, greedy, matches, one, plus, step_one, sub, sub_from, when,
}

module _ (p : ℕ → Bool) where
  abbrev Ends : Str → Option Cursor → Type 0
  Ends s o = (d : Cursor) × (o ≡ some d) × (length d.rest ≤ length s)

  or_else-Ends :
      (s : Str) (o : Option Cursor) (c : Cursor)
      → ((d : Cursor) → o ≡ some d → length d.rest ≤ length s)
      → length c.rest ≤ length s
      → Ends s (or_else o (some c))
  or_else-Ends s none c h k = (c, refl, k)
  or_else-Ends s (some d) c h k = (d, refl, h d refl)

  step_one-rest :
      (n m : ℕ) (before s : Str) (groups : List (ℕ × Str)) (d : Cursor)
      → ((c : Cursor) → Ends c.rest (greedy (matches (one p)) n c some))
      → step_one p before s groups
          (λ d. when (ltb m (length d.before)) (greedy (matches (one p)) n d some))
        ≡ some d
      → length d.rest ≤ length s
  step_one-rest n m before [] groups d h e = absurd (ground (arith, e))
  step_one-rest n m before (c ∷ s) groups d h e =
      let next : Cursor = record { before = c ∷ before; rest = s; groups = groups } in
      let (last, f, l) = h next in
      go (p c) (ltb m (suc (length before))) (greedy (matches (one p)) n next some) last f l e
    where
      go :
          (a b : Bool) (o : Option Cursor) (last : Cursor)
          → o ≡ some last
          → length last.rest ≤ length s
          → (if a then when b o else none) ≡ some d
          → length d.rest ≤ suc (length s)
      go false b o last f l e = absurd (ground (arith, e))
      go true false o last f l e = absurd (ground (arith, e))
      go true true o last f l e =
          let same : last ≡ d = ground (arith, f, e) in
          omega (arith, l, ap (λ (x : Cursor). length x.rest) same)

  -- The loop over a class ends somewhere, and not before where it started.
  greedy-Ends : (n : ℕ) (c : Cursor) → Ends c.rest (greedy (matches (one p)) n c some)
  unfolding greedy matches
  greedy-Ends zero c = (c, refl, omega arith)
  greedy-Ends (suc n) c =
      or_else-Ends c.rest
        (step_one p c.before c.rest c.groups
          (λ d. when (ltb (length c.before) (length d.before)) (greedy (matches (one p)) n d some)))
        c (λ d e. step_one-rest n (length c.before) c.before c.rest c.groups d (greedy-Ends n) e)
        (omega arith)

  -- What a match at the first character gives.
  run_of :
      (before s : Str) (c : ℕ)
      → ((matches (plus (one p)) (cursor before (c ∷ s)) some ≡ none) × (p c ≡ false))
        ⊎ Ends s (matches (plus (one p)) (cursor before (c ∷ s)) some)
  unfolding matches
  run_of before s c =
      let next : Cursor = record { before = c ∷ before; rest = s; groups = [] } in
      go (p c) (greedy (matches (one p)) (length s) next some) refl (greedy-Ends (length s) next)
    where
      go :
          (b : Bool) (o : Option Cursor)
          → p c ≡ b
          → Ends s o
          → (((if b then o else none) ≡ none) × (p c ≡ false)) ⊎ Ends s (if b then o else none)
      go true o e h = inr h
      go false o e h = inl (refl, e)

  any-step :
      (repl : Str) (n : ℕ) (before s : Str) (c : ℕ) (o : Option Cursor)
      → any p repl ≡ false
      → ((before s' : Str)
          → length s' ≤ length s
          → any p (sub_from n (plus (one p)) (λ c. repl) before s') ≡ false)
      → ((o ≡ none) × (p c ≡ false)) ⊎ Ends s o
      → any p (elim o [
        | none ↦ c ∷ sub_from n (plus (one p)) (λ c. repl) (c ∷ before) s
        | some d ↦ repl ++ sub_from n (plus (one p)) (λ c. repl) d.before d.rest
      ])
        ≡ false
  any-step repl n before s c o h ih (inl (e, f)) = rw (e, f) (ih (c ∷ before) s (omega arith))
  any-step repl n before s c o h ih (inr (d, e, l)) = rw e (
      any-append p repl (sub_from n (plus (one p)) (λ c. repl) d.before d.rest)
      ∙ rw (h, ih d.before d.rest l) refl)

  any-sub_from :
      (repl : Str)
      → any p repl ≡ false
      → (n : ℕ) (before s : Str) → length s ≤ n
      → any p (sub_from n (plus (one p)) (λ c. repl) before s) ≡ false
  unfolding sub_from
  any-sub_from repl h zero before [] k = refl
  any-sub_from repl h zero before (c ∷ s) k = absurd (omega (arith, k))
  any-sub_from repl h (suc n) before [] k = refl
  any-sub_from repl h (suc n) before (c ∷ s) k =
      any-step repl n before s c (matches (plus (one p)) (cursor before (c ∷ s)) some) h
        (λ b s' l. any-sub_from repl h n b s' (omega (arith, k, l))) (run_of before s c)

  pub any-sub :
      (repl : Str)
      → any p repl ≡ false
      → (s : Str) → any p (sub (plus (one p)) (λ c. repl) s) ≡ false
  unfolding sub
  any-sub repl h s = any-sub_from repl h (length s) [] s (omega arith)
