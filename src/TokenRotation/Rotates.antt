-- ===== src/TokenRotation/Rotates.antt =====
-- A run of rotate-gitlab-token.py where GitLab answers and accepts everything.
use os_autoinst_scripts.Prelude.{
  ℕ, ◌+◌, ◌≤◌, ◌≡◌, inl, inr, refl, Bool, true, false, Option, none, some, List, [], ◌∷◌, ◌++◌,
  arith, if◌then◌else◌, any, leb, Bool-cases, ap, sym, ◌∙◌,
}
use os_autoinst_scripts.Py.Str.{Str, eqb}
use os_autoinst_scripts.TokenRotation.{
  Action, GitLab, Run, Schedule, Token, ◌>>=◌, act, after, answer, create_or_update_ci_pipeline,
  create_schedule, create_unless, cron_sched, days_until_token_rotation, fetch_tokenid_by_name,
  found, is_ours, main, new_token_of, pure, rotate, rotate_if_due, rotate_token, save_created,
  save_schedule, set_found, set_variable, stop, take_ownership, update_ci_var, update_schedule,
  update_schedules,
}
use os_autoinst_scripts.TokenRotation.Keeps.{is_rotate, create_or_update_ci_pipeline-Keeps}

-- The run ends without an exception.
abbrev Works : Run Bool → Type 0
Works r = (done : List Action) × (b : Bool) × (r ≡ (done, some b))

taken : {A : Type 0} (b : Bool) (m n : A) → b ≡ true → (if b then m else n) ≡ m
taken b m n h = ap (λ c. if c then m else n) h

bound :
    {A B : Type 0} (m : Run A) (f : A → Run B) (done : List Action) (a : A) (r : Run B)
    → m ≡ (done, some a)
    → f a ≡ r
    → (m >>= f) ≡ after done r
bound m f done a r e h = ap (λ x. x >>= f) e ∙ ap (after done) h

answered :
    {A B : Type 0} (o : Option A) (f : A → Run B) (a : A) (r : Run B)
    → o ≡ some a
    → f a ≡ r
    → (answer o >>= f) ≡ after [] r
answered o f a r e h = bound (answer o) f [] a r (ap answer e) h

bind-Works :
    (m : Run Bool) (f : Bool → Run Bool) → Works m → ((b : Bool) → Works (f b)) → Works (m >>= f)
bind-Works m f (done, b, e) h =
    let (next, c, n) = h b in (done ++ next, c, bound m f done b (next, some c) e n)

module _ (gl : GitLab) (accepts : (a : Action) → gl.accepts a ≡ true) where
  act_lem : (a : Action) → act gl a ≡ (a ∷ [], some true)
  act_lem a = taken (gl.accepts a) (a ∷ [], some true) ([], none) (accepts a)

  act-Works : (a : Action) → Works (act gl a)
  act-Works a = (a ∷ [], true, act_lem a)

  update_schedule-Works : (cron : Str) (sched : Schedule) → Works (update_schedule gl cron sched)
  update_schedule-Works cron sched = elim (Bool-cases (eqb cron sched.cron)) [
    | inl e ↦ rw e ([], true, refl)
    | inr e ↦ rw e (
        bind-Works (act gl (take_ownership sched.id)) (λ _. act gl (save_schedule sched.id cron))
          (act-Works (take_ownership sched.id)) (λ _. act-Works (save_schedule sched.id cron)))
  ]

  update_schedules-Works :
      (cron : Str) (schedules : List Schedule) → Works (update_schedules gl cron schedules)
  unfolding update_schedules
  update_schedules-Works cron [] = ([], false, refl)
  update_schedules-Works cron (sched ∷ schedules) =
      let rest = update_schedules gl cron schedules in
      let works = update_schedules-Works cron schedules in
      elim (Bool-cases (is_ours sched)) [
        | inl e ↦ rw e (
            bind-Works (update_schedule gl cron sched) (λ _. rest >>= λ _. pure true)
              (update_schedule-Works cron sched)
              (λ _. bind-Works rest (λ _. pure true) works (λ _. ([], true, refl))))
        | inr e ↦ rw e works
      ]

  create_unless-Works : (cron : Str) (exists : Bool) → Works (create_unless gl cron exists)
  create_unless-Works cron true = ([], true, refl)
  create_unless-Works cron false =
      bind-Works (act gl (create_schedule cron)) (λ _. act gl (save_created cron))
        (act-Works (create_schedule cron)) (λ _. act-Works (save_created cron))

  pipeline-Works :
      (expiry : ℕ) (schedules : List Schedule)
      → gl.schedules ≡ some schedules
      → Works (create_or_update_ci_pipeline gl expiry)
  unfolding create_or_update_ci_pipeline
  pipeline-Works expiry schedules h =
      let cron = cron_sched expiry in
      let f = λ (s : List Schedule).
        update_schedules gl cron s >>= λ exists. create_unless gl cron exists in
      let (done, b, e) =
        bind-Works (update_schedules gl cron schedules) (λ exists. create_unless gl cron exists)
          (update_schedules-Works cron schedules) (create_unless-Works cron) in
      (done, b, answered gl.schedules f schedules (done, some b) h e)

  update_ci_var_lem :
      (var token : Str)
      → gl.opens (some token) ≡ true
      → gl.variable var ≡ found
      → update_ci_var gl var token ≡ (set_variable var token ∷ [], some true)
  unfolding update_ci_var
  update_ci_var_lem var token o v =
      taken (gl.opens (some token)) (set_found gl var token (gl.variable var)) stop o
      ∙ ap (set_found gl var token) v
      ∙ act_lem (set_variable var token)

  rotate_token_lem :
      (var : Str) (id expiry : ℕ) (token : Str) (before : List Action) (b : Bool)
      → gl.opens (some token) ≡ true
      → gl.variable var ≡ found
      → gl.rotated id expiry ≡ some token
      → create_or_update_ci_pipeline gl expiry ≡ (before, some b)
      → rotate_token gl var id expiry
        ≡ (before ++ (rotate id expiry ∷ set_variable var token ∷ []), some true)
  unfolding rotate_token
  rotate_token_lem var id expiry token before b o v r e =
      let set : Run Bool = (set_variable var token ∷ [], some true) in
      let give = λ (ok : Bool).
        new_token_of gl id expiry ok >>= λ new_token. update_ci_var gl var new_token in
      bound (create_or_update_ci_pipeline gl expiry) (λ _. act gl (rotate id expiry) >>= give)
        before b (rotate id expiry ∷ set_variable var token ∷ [], some true) e
        (bound (act gl (rotate id expiry)) give (rotate id expiry ∷ []) true set
          (act_lem (rotate id expiry))
          (answered (gl.rotated id expiry) (update_ci_var gl var) token set r
            (update_ci_var_lem var token o v)))

  -- If GitLab accepts every change, opens the project with every token and lists the schedules and
  -- the tokens, if the first active token of the name expires in at most 21 days, the rotation gives a
  -- new token and the variable exists, then the script ends well: its last two changes are the
  -- rotation of that token, to 364 days, and the new token in the variable, and it rotates no token
  -- before.
  pub main-rotates :
      (var token_name : Str) (today later : ℕ) (getenv : Str → Option Str)
      (schedules : List Schedule) (tokens : List Token) (id day : ℕ) (token : Str)
      → ((t : Option Str) → gl.opens t ≡ true)
      → gl.schedules ≡ some schedules
      → gl.tokens ≡ some tokens
      → fetch_tokenid_by_name tokens token_name ≡ some id
      → gl.expires_at id ≡ some day
      → day ≤ today + days_until_token_rotation
      → gl.rotated id (later + 364) ≡ some token
      → gl.variable var ≡ found
      → (before : List Action) × (any is_rotate before ≡ false)
        × (main gl getenv token_name (some var) today later
            ≡ (before ++ (rotate id (later + 364) ∷ set_variable var token ∷ []), some true))
  unfolding main
  main-rotates var token_name today later getenv schedules tokens id day token opens s l f d due r
        v =
      let (before, b, e) = pipeline-Works (later + 364) schedules s in
      let due_now : leb day (today + days_until_token_rotation) ≡ true = ground (arith, due) in
      let kept : any is_rotate before ≡ false =
        ap (λ (x : Run Bool). any is_rotate x.0) (sym e)
        ∙ create_or_update_ci_pipeline-Keeps gl (later + 364) in
      let rotated = rotate_token gl var id (later + 364) in
      let result : Run Bool =
        (before ++ (rotate id (later + 364) ∷ set_variable var token ∷ []), some true) in
      let last = rotate_token_lem var id (later + 364) token before b (opens (some token)) v r e in
      (
        before,
        kept,
        taken (gl.opens (getenv var))
              (answer gl.tokens >>= λ ts.
                rotate_if_due gl var today later (fetch_tokenid_by_name ts token_name))
              stop (opens (getenv var))
            ∙ answered gl.tokens
                (λ ts. rotate_if_due gl var today later (fetch_tokenid_by_name ts token_name))
                tokens result l
                (ap (rotate_if_due gl var today later) f
                  ∙ answered (gl.expires_at id)
                      (λ expires_at.
                        if leb expires_at (today + days_until_token_rotation)
                        then rotated
                        else pure true)
                      day result d
                      (taken (leb day (today + days_until_token_rotation)) rotated (pure true)
                          due_now
                        ∙ last)),
      )
