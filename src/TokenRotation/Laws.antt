-- ===== src/TokenRotation/Laws.antt =====
-- When rotate-gitlab-token.py rotates a token, and what becomes of the new one.
use os_autoinst_scripts.Prelude.{
  ℕ, ◌&&◌, ◌==◌, ◌+◌, ◌≤◌, ◌≡◌, ◌⊎◌, inl, inr, refl, Bool, true, false, Option, none, some, List,
  [], ◌∷◌, ◌++◌, arith, if◌then◌else◌, any, any-append, leb, leb→le, Bool-cases, ◌∙◌,
}
use os_autoinst_scripts.Py.Str.{Str, eqb}
use os_autoinst_scripts.TokenRotation.{
  Action, GitLab, Lookup, Run, ◌>>=◌, act, after, answer, broken, create_or_update_ci_pipeline,
  days_until_token_rotation, fetch_tokenid_by_name, found, Token, main, missing, new_token_of, pure,
  rotate, rotate_if_due, rotate_token, set_found, set_variable, update_ci_var,
}
use os_autoinst_scripts.TokenRotation.Keeps.{Keeps, is_rotate, create_or_update_ci_pipeline-Keeps}

-- The list has an active token of the name, with the id.
abbrev pub has_token : Str → ℕ → List Token → Bool
has_token token_name id tokens =
    any (λ (t : Token). (eqb t.name token_name && t.active) && (t.id == id)) tokens

has_token-fetch :
    (token_name : Str) (id : ℕ) (tokens : List Token)
    → fetch_tokenid_by_name tokens token_name ≡ some id
    → has_token token_name id tokens ≡ true
unfolding fetch_tokenid_by_name
has_token-fetch token_name id [] h = ground (arith, h)
has_token-fetch token_name id (t ∷ tokens) h =
    ground (arith, h, has_token-fetch token_name id tokens)

module _ (gl : GitLab) (var token_name : Str) (today later : ℕ) where
  abbrev pub expiry : ℕ
  expiry = later + 364

  -- How the script ends once the token has been rotated, behind other changes.
  abbrev pub Stored : ℕ → List Action → Run Bool → Type 0
  Stored id before r =
      (r ≡ (before ++ (rotate id expiry ∷ []), none))
      ⊎ ((token : Str) × (gl.rotated id expiry ≡ some token)
          × (r ≡ (before ++ (rotate id expiry ∷ set_variable var token ∷ []), some true)))

  -- An active token of the name, which expires in at most 21 days.
  abbrev pub IsDue : ℕ → Type 0
  IsDue id =
      ((tokens : List Token) × (gl.tokens ≡ some tokens) × (has_token token_name id tokens ≡ true))
      × ((e : ℕ) × (gl.expires_at id ≡ some e) × (e ≤ today + days_until_token_rotation))

  abbrev pub Ends : Run Bool → Type 0
  Ends r =
      Keeps r
      ⊎ ((id : ℕ) × (before : List Action) × (any is_rotate before ≡ false)
          × IsDue id
          × Stored id before r)

  update_ci_var-cases :
      (token : Str)
      → (update_ci_var gl var token ≡ ([], none))
        ⊎ (update_ci_var gl var token ≡ (set_variable var token ∷ [], some true))
  unfolding update_ci_var
  update_ci_var-cases token = go (gl.opens (some token)) (gl.variable var)
    where
      go :
          (b : Bool) (l : Lookup)
          → ((if b then set_found gl var token l else ([], none)) ≡ ([], none))
            ⊎ ((if b then set_found gl var token l else ([], none))
                ≡ (set_variable var token ∷ [], some true))
      go false l = inl refl
      go true missing = inl refl
      go true broken = inl refl
      go true found = elim (Bool-cases (gl.accepts (set_variable var token))) [
        | inl e ↦ rw e (inr refl)
        | inr e ↦ rw e (inl refl)
      ]

  -- What follows the schedule.
  abbrev rotation : ℕ → Run Bool
  rotation id =
      act gl (rotate id expiry)
      >>= (λ ok. new_token_of gl id expiry ok >>= λ token. update_ci_var gl var token)

  abbrev Rotation : ℕ → Run Bool → Type 0
  Rotation id r = (r ≡ ([], none)) ⊎ Stored id [] r

  rotated-Stored :
      (id : ℕ)
      → gl.accepts (rotate id expiry) ≡ true
      → (o : Option Str) → gl.rotated id expiry ≡ o
      → Stored id []
          (after (rotate id expiry ∷ []) (answer o >>= λ token. update_ci_var gl var token))
  rotated-Stored id a none e = inl refl
  rotated-Stored id a (some token) e = elim (update_ci_var-cases token) [
    | inl h ↦ rw h (inl refl)
    | inr h ↦ rw h (inr (token, e, refl))
  ]

  rotation-Rotation : (id : ℕ) → Rotation id (rotation id)
  rotation-Rotation id = elim (Bool-cases (gl.accepts (rotate id expiry))) [
    | inl a ↦ rw a (inr (rotated-Stored id a (gl.rotated id expiry) refl))
    | inr a ↦ rw a (inl refl)
  ]

  after-Ends :
      (id : ℕ) (before : List Action) (r : Run Bool)
      → any is_rotate before ≡ false
      → IsDue id
      → Rotation id r
      → Ends (after before r)
  after-Ends id before r h due (inl e) = inl (rw e (any-append is_rotate before [] ∙ rw h refl))
  after-Ends id before r h due (inr (inl e)) = inr (id, before, h, due, inl (rw e refl))
  after-Ends id before r h due (inr (inr (token, f, e))) =
      inr (id, before, h, due, inr (token, f, rw e refl))

  pipeline-Ends :
      (id : ℕ) (pipeline : Run Bool)
      → Keeps pipeline
      → IsDue id
      → Ends (pipeline >>= λ _. rotation id)
  pipeline-Ends id (before, none) h due = inl h
  pipeline-Ends id (before, some b) h due =
      after-Ends id before (rotation id) h due (rotation-Rotation id)

  rotate_token-Ends : (id : ℕ) → IsDue id → Ends (rotate_token gl var id expiry)
  unfolding rotate_token
  rotate_token-Ends id due =
      pipeline-Ends id (create_or_update_ci_pipeline gl expiry)
        (create_or_update_ci_pipeline-Keeps gl expiry) due

  -- A run behind answers that change nothing.
  behind-Ends : (r : Run Bool) → Ends r → Ends (after [] r)
  behind-Ends (actions, o) h = h

  if_due-Ends :
      (tokens : List Token) (found : Option ℕ)
      → gl.tokens ≡ some tokens
      → fetch_tokenid_by_name tokens token_name ≡ found
      → Ends (rotate_if_due gl var today later found)
  if_due-Ends tokens none l f = inl refl
  if_due-Ends tokens (some id) l f = go (gl.expires_at id) refl
    where
      go :
          (o : Option ℕ)
          → gl.expires_at id ≡ o
          → Ends (
              answer o >>= (λ expires_at.
                if leb expires_at (today + days_until_token_rotation)
                then rotate_token gl var id (later + 364)
                else pure true))
      go none e = inl refl
      go (some day) e = elim (Bool-cases (leb day (today + days_until_token_rotation))) [
        | inl d ↦ rw d (
            behind-Ends (rotate_token gl var id expiry) (
              rotate_token-Ends id
                ((tokens, l, has_token-fetch token_name id tokens f), (day, e, leb→le _ _ d))))
        | inr d ↦ rw d (inl refl)
      ]

  tokens-Ends :
      (o : Option (List Token))
      → gl.tokens ≡ o
      → Ends (
          answer o >>= (λ tokens.
            rotate_if_due gl var today later (fetch_tokenid_by_name tokens token_name)))
  tokens-Ends none l = inl refl
  tokens-Ends (some tokens) l =
      behind-Ends (rotate_if_due gl var today later (fetch_tokenid_by_name tokens token_name))
        (if_due-Ends tokens (fetch_tokenid_by_name tokens token_name) l refl)

  -- At most one token is rotated, once, and only an active token of the given name that expires in at
  -- most 21 days. Behind the rotation
  -- the only change is that the new token is stored in the variable of the given name, which it is if
  -- the script ends without an exception.
  pub main-Ends :
      (getenv : Str → Option Str) → Ends (main gl getenv token_name (some var) today later)
  unfolding main
  main-Ends getenv = elim (Bool-cases (gl.opens (getenv var))) [
    | inl e ↦ rw e (tokens-Ends gl.tokens refl)
    | inr e ↦ rw e (inl refl)
  ]
