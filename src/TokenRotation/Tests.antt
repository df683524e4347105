-- ===== src/TokenRotation/Tests.antt =====
-- Runs of rotate-gitlab-token.py.
use os_autoinst_scripts.Prelude.{
  ◌≡◌, refl, true, false, Option, none, some, List, [], ◌∷◌, ◌++◌, any, arith,
}
use os_autoinst_scripts.Py.Str.{Str, codes}
use os_autoinst_scripts.TokenRotation.{
  Action, GitLab, Lookup, Schedule, create_schedule, cron_sched, fetch_tokenid_by_name, found, main,
  missing, rotate, save_created, save_schedule, set_variable, take_ownership,
}
use os_autoinst_scripts.TokenRotation.Keeps.{is_rotate}
use os_autoinst_scripts.TokenRotation.Laws.{Ends, main-Ends}
use os_autoinst_scripts.TokenRotation.Rotates.{main-rotates}

abbrev sched : Schedule
sched = record {
  id = 5;
  description = codes "Rotate_Proj_Access_Token";
  active = true;
  ref = codes "refs/heads/master";
  cron = codes "0 0 1 1 *";
}

abbrev gitlab : List Schedule → Lookup → GitLab
gitlab schedules variable = record {
  opens = λ token. true;
  schedules = some schedules;
  tokens = some (record { id = 3; name = codes "push"; active = true } ∷ []);
  expires_at = λ id. some 1010;
  rotated = λ id expiry. some (codes "new");
  variable = λ key. variable;
  accepts = λ a. true;
}

abbrev no_env : Str → Option Str
no_env key = none

main-Ends_example :
    Ends
      (gitlab (sched ∷ []) found)
      (codes "V")
      (codes "push")
      1000
      1000
      (main (gitlab (sched ∷ []) found) no_env (codes "push") (some (codes "V")) 1000 1000)
main-Ends_example =
    main-Ends (gitlab (sched ∷ []) found) (codes "V") (codes "push") 1000 1000 no_env

main-rotates_example :
    (before : List Action) × (any is_rotate before ≡ false)
    × (main (gitlab (sched ∷ []) found) no_env (codes "push") (some (codes "V")) 1000 1000
        ≡ (before ++ (rotate 3 1364 ∷ set_variable (codes "V") (codes "new") ∷ []), some true))
unfolding fetch_tokenid_by_name
main-rotates_example =
    main-rotates (gitlab (sched ∷ []) found) (λ a. refl) (codes "V") (codes "push") 1000 1000 no_env
      (sched ∷ []) (record { id = 3; name = codes "push"; active = true } ∷ []) 3 1010 (codes "new")
      (λ t. refl) refl refl refl refl (omega arith) refl refl

-- 2026-11-26 is day 740251.
cron_test : cron_sched 740251 ≡ codes "55 23 07 11 *"
unfolding cron_sched
cron_test = refl

rotated_test : main (gitlab [] found) no_env (codes "push") (some (codes "V")) 1000 1001 ≡ (
  create_schedule (cron_sched 1365)
      ∷ save_created (cron_sched 1365)
      ∷ rotate 3 1365
      ∷ set_variable (codes "V") (codes "new")
      ∷ [],
  some true,
)
unfolding main
rotated_test = refl

-- Without the variable the new token is lost: it is stored nowhere.
lost_test :
    main (gitlab (sched ∷ []) missing) no_env (codes "push") (some (codes "V")) 1000 1000
    ≡ (take_ownership 5 ∷ save_schedule 5 (cron_sched 1364) ∷ rotate 3 1364 ∷ [], none)
unfolding main
lost_test = refl

not_due_test :
    main (gitlab (sched ∷ []) found) no_env (codes "push") (some (codes "V")) 988 988
    ≡ ([], some true)
unfolding main
not_due_test = refl
