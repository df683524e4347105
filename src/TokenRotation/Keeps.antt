-- ===== src/TokenRotation/Keeps.antt =====
-- The schedule of rotate-gitlab-token.py, and rotations.
use os_autoinst_scripts.Prelude.{
  ℕ, ◌≡◌, inl, inr, refl, Bool, true, false, none, some, List, [], ◌∷◌, arith, any, any-append,
  Bool-cases, ◌∙◌,
}
use os_autoinst_scripts.Py.Str.{Str, eqb}
use os_autoinst_scripts.TokenRotation.{
  Action, GitLab, Run, Schedule, ◌>>=◌, act, answer, create_or_update_ci_pipeline, create_schedule,
  create_unless, cron_sched, is_ours, pure, rotate, save_created, save_schedule, take_ownership,
  update_schedule, update_schedules,
}

abbrev pub is_rotate : Action → Bool
is_rotate (rotate id expiry) = true
is_rotate _ = false

abbrev pub Keeps : {A : Type 0} → Run A → Type 0
Keeps r = any is_rotate r.0 ≡ false

bind-Keeps :
    {A B : Type 0} (m : Run A) (f : A → Run B) → Keeps m → ((a : A) → Keeps (f a)) → Keeps (m >>= f)
bind-Keeps (done, none) f h k = h
bind-Keeps (done, some a) f h k = any-append is_rotate done (f a).0 ∙ rw (h, k a) refl

act-Keeps : (gl : GitLab) (a : Action) → is_rotate a ≡ false → Keeps (act gl a)
act-Keeps gl a h = ground (arith, h)

update_schedule-Keeps :
    (gl : GitLab) (cron : Str) (sched : Schedule) → Keeps (update_schedule gl cron sched)
update_schedule-Keeps gl cron sched = elim (Bool-cases (eqb cron sched.cron)) [
  | inl e ↦ rw e refl
  | inr e ↦ rw e (
      bind-Keeps (act gl (take_ownership sched.id)) (λ _. act gl (save_schedule sched.id cron))
        (act-Keeps gl (take_ownership sched.id) refl)
        (λ _. act-Keeps gl (save_schedule sched.id cron) refl))
]

update_schedules-Keeps :
    (gl : GitLab) (cron : Str) (schedules : List Schedule)
    → Keeps (update_schedules gl cron schedules)
unfolding update_schedules
update_schedules-Keeps gl cron [] = refl
update_schedules-Keeps gl cron (sched ∷ schedules) =
    let rest = update_schedules gl cron schedules in
    let kept = update_schedules-Keeps gl cron schedules in
    elim (Bool-cases (is_ours sched)) [
      | inl e ↦ rw e (
          bind-Keeps (update_schedule gl cron sched) (λ _. rest >>= λ _. pure true)
            (update_schedule-Keeps gl cron sched)
            (λ _. bind-Keeps rest (λ _. pure true) kept (λ _. refl)))
      | inr e ↦ rw e kept
    ]

create_unless-Keeps :
    (gl : GitLab) (cron : Str) (exists : Bool) → Keeps (create_unless gl cron exists)
create_unless-Keeps gl cron true = refl
create_unless-Keeps gl cron false =
    bind-Keeps (act gl (create_schedule cron)) (λ _. act gl (save_created cron))
      (act-Keeps gl (create_schedule cron) refl) (λ _. act-Keeps gl (save_created cron) refl)

pub create_or_update_ci_pipeline-Keeps :
    (gl : GitLab) (expiry : ℕ) → Keeps (create_or_update_ci_pipeline gl expiry)
unfolding create_or_update_ci_pipeline
create_or_update_ci_pipeline-Keeps gl expiry =
    let cron = cron_sched expiry in
    bind-Keeps (answer gl.schedules)
      (λ schedules. update_schedules gl cron schedules >>= λ exists. create_unless gl cron exists)
      refl
      (λ schedules.
        bind-Keeps (update_schedules gl cron schedules) (λ exists. create_unless gl cron exists)
          (update_schedules-Keeps gl cron schedules) (λ exists. create_unless-Keeps gl cron exists))
