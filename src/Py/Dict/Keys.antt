-- ===== src/Py/Dict/Keys.antt =====
-- The keys of a dictionary that is filled in a loop.
use os_autoinst_scripts.Prelude.{
  ◌≡◌, refl, true, false, List, [], ◌∷◌, ◌++◌, any-append, arith, append_assoc, Bool-cases, inl,
  inr, ap, sym, ◌∙◌,
}
use os_autoinst_scripts.Py.Str.{Str, eqb}
use os_autoinst_scripts.Py.Dict.{Dict, insert, keys, keys-insert, has_key}
use os_autoinst_scripts.Py.Text.{in_lines, unique_from}

-- One round of the loop: `filled` is what the rounds after it make of a dictionary.
pub keys-step {ℓ} :
    {V : Type ℓ} (k : Str) (v : V) (d : Dict V) (seen ks : List Str) (filled : Dict V → List Str)
    → ((j : Str) → in_lines j seen ≡ in_lines j (keys d))
    → ((seen : List Str)
        → ((j : Str) → in_lines j seen ≡ in_lines j (keys (insert k v d)))
        → filled (insert k v d) ≡ keys (insert k v d) ++ unique_from seen ks)
    → filled (insert k v d) ≡ keys d ++ unique_from seen (k ∷ ks)
unfolding unique_from in_lines
keys-step k v d seen ks filled h next = elim (Bool-cases (has_key k (keys d))) [
  | inl e ↦
      let same : keys (insert k v d) ≡ keys d = keys-insert k v d ∙ rw e refl in
      let was : in_lines k seen ≡ true = h k ∙ e in
      next seen (λ j. h j ∙ ap (in_lines j) (sym same))
      ∙ ap (λ l. l ++ unique_from seen ks) same
      ∙ rw was refl
  | inr e ↦
      let same : keys (insert k v d) ≡ keys d ++ (k ∷ []) = keys-insert k v d ∙ rw e refl in
      let was : in_lines k seen ≡ false = h k ∙ e in
      next (k ∷ seen) (λ j.
        ground (arith, h j, any-append (eqb j) (keys d) (k ∷ [])) ∙ ap (in_lines j) (sym same))
      ∙ ap (λ l. l ++ unique_from (k ∷ seen) ks) same
      ∙ append_assoc (keys d) (k ∷ []) (unique_from (k ∷ seen) ks)
      ∙ rw was refl
]
