-- ===== src/Py/Dict.antt =====
-- Python's `dict` with string keys, in insertion order.
pub mod Keys
use os_autoinst_scripts.Prelude.{
  ◌≡◌, refl, Option, none, some, List, [], ◌∷◌, ◌++◌, arith, if◌then◌else◌, map, any, Bool, true,
  false, ◌||◌, Bool-cases, inl, inr, ap, sym, ◌∙◌,
}
use os_autoinst_scripts.Py.Str.{Str, eqb, eqb_iff}

abbrev pub Dict {ℓ} : Type ℓ → Type ℓ
Dict V = List (Str × V)

module _ {ℓ} {V : Type ℓ} where
  -- `d.get(k)`
  unfoldable pub lookup : Str → Dict V → Option V
  lookup k [] = none
  lookup k ((j, v) ∷ d) = if eqb j k then some v else lookup k d

  -- `d[k] = v`, which keeps the place of a key that is there
  unfoldable pub insert : Str → V → Dict V → Dict V
  insert k v [] = (k, v) ∷ []
  insert k v ((j, w) ∷ d) = if eqb j k then (j, v) ∷ d else (j, w) ∷ insert k v d

  -- `d.setdefault(k, v)`
  unfoldable pub set_default : Str → V → Dict V → Dict V
  set_default k v d = elim (lookup k d) [ none ↦ insert k v d | some _ ↦ d ]

  pub lookup-insert :
      (k j : Str) (v : V) (d : Dict V)
      → lookup j (insert k v d) ≡ (if eqb k j then some v else lookup j d)
  unfolding lookup insert
  lookup-insert k j v [] = refl
  lookup-insert k j v ((i, w) ∷ d) =
      ground (arith, eqb_iff k j, eqb_iff i k, eqb_iff i j, lookup-insert k j v d)

-- The first of two values that is there.
abbrev pub or_else {ℓ} : {A : Type ℓ} → Option A → Option A → Option A
or_else none o = o
or_else (some a) o = some a

module _ {ℓ} {V : Type ℓ} where
  pub lookup-set_default :
      (k j : Str) (v : V) (d : Dict V)
      → lookup j (set_default k v d) ≡ or_else (lookup j d) (if eqb k j then some v else none)
  unfolding set_default
  lookup-set_default k j v d = ground (arith, lookup-insert k j v d, eqb_iff k j)

-- The keys in their order, and whether none comes twice.
abbrev pub keys {ℓ} : {V : Type ℓ} → Dict V → List Str
keys d = map (λ e. e.0) d

abbrev pub has_key : Str → List Str → Bool
has_key k ks = any (eqb k) ks

-- A new key goes to the end, and one that is there stays where it is.
pub keys-insert {ℓ} :
    {V : Type ℓ} (k : Str) (v : V) (d : Dict V)
    → keys (insert k v d) ≡ (if has_key k (keys d) then keys d else keys d ++ (k ∷ []))
unfolding insert
keys-insert k v [] = refl
keys-insert k v ((j, w) ∷ d) = elim (Bool-cases (eqb j k)) [
  | inl e ↦ let f : eqb k j ≡ true = ground (arith, e, eqb_iff j k, eqb_iff k j) in rw (e, f) refl
  | inr e ↦
      let f : eqb k j ≡ false = ground (arith, e, eqb_iff j k, eqb_iff k j) in
      elim (Bool-cases (has_key k (keys d))) [
        | inl h ↦ rw (e, f, h) (ap (λ ks. j ∷ ks) (keys-insert k v d ∙ rw h refl))
        | inr h ↦ rw (e, f, h) (ap (λ ks. j ∷ ks) (keys-insert k v d ∙ rw h refl))
      ]
]
