-- ===== src/TokenRotation.antt =====
-- rotate-gitlab-token.py: the rotation of a project access token, of the variable that holds it and of
-- the schedule of the pipeline. Dates are numbers of days since 1 March of the year 0.
pub mod Keeps
pub mod Laws
pub mod Rotates
pub mod Tests
use os_autoinst_scripts.Prelude.{
  ℕ, ◌+◌, ◌-◌, ◌*◌, ◌/◌, ◌%◌, Bool, true, false, ◌&&◌, ◌||◌, not, Option, none, some, List, [], ◌∷◌,
  ◌++◌, leb, ltb, if◌then◌else◌, find, option_map,
}
use os_autoinst_scripts.Py.Str.{Str, codes, contains, eqb}

pub record Schedule : Type 0 where
  pub id : ℕ
  pub description : Str
  pub active : Bool
  pub ref : Str
  pub cron : Str

pub record Token : Type 0 where
  pub id : ℕ
  pub name : Str
  pub active : Bool

-- What the script changes in GitLab.
pub data Action : Type 0 where
  take_ownership : ℕ → Action
  save_schedule : ℕ → Str → Action
  create_schedule : Str → Action
  save_created : Str → Action
  rotate : ℕ → ℕ → Action
  set_variable : Str → Str → Action

-- The answer to `variables.get`: the variable, a `GitlabGetError`, or another exception
pub data Lookup : Type 0 where
  found missing broken : Lookup

-- GitLab: what it answers, where none is an exception, and which changes it accepts. `rotated` is the
-- new token.
pub record GitLab : Type 0 where
  pub opens : Option Str → Bool
  pub schedules : Option (List Schedule)
  pub tokens : Option (List Token)
  pub expires_at : ℕ → Option ℕ
  pub rotated : ℕ → ℕ → Option Str
  pub variable : Str → Lookup
  pub accepts : Action → Bool

-- The changes that were accepted, and the result, none for an exception.
abbrev pub Run : Type 0 → Type 0
Run A = List Action × Option A

abbrev pub after : {A : Type 0} → List Action → Run A → Run A
after done (actions, r) = (done ++ actions, r)

infixl 5 ◌>>=◌
abbrev pub ◌>>=◌ : {A B : Type 0} → Run A → (A → Run B) → Run B
(done, none) >>= f = (done, none)
(done, some a) >>= f = after done (f a)

abbrev pub answer : {A : Type 0} → Option A → Run A
answer o = ([], o)

abbrev pub pure : {A : Type 0} → A → Run A
pure a = ([], some a)

abbrev pub stop : {A : Type 0} → Run A
stop = ([], none)

abbrev pub act : GitLab → Action → Run Bool
act gl a = if gl.accepts a then (a ∷ [], some true) else ([], none)

abbrev pub ci_var_key : Str
ci_var_key = codes "CI_PUSH_TOKEN"

abbrev pub ci_rotate_sched_desc : Str
ci_rotate_sched_desc = codes "Rotate_Proj_Access_Token"

abbrev pub days_until_token_rotation : ℕ
days_until_token_rotation = 21

-- The day of the year that begins in March, and the month and the day of the month of it.
abbrev pub day_of_year : ℕ → ℕ
day_of_year days =
    let doe = days % 146097 in
    let yoe = (doe + doe / 36524 - doe / 1460 - doe / 146096) / 365 in
    doe + yoe / 100 - 365 * yoe - yoe / 4

abbrev pub month_of : ℕ → ℕ
month_of doy = let mp = (5 * doy + 2) / 153 in if ltb mp 10 then mp + 3 else mp - 9

abbrev pub day_of : ℕ → ℕ
day_of doy = let mp = (5 * doy + 2) / 153 in doy + 1 - (153 * mp + 2) / 5

abbrev pub two_digits : ℕ → Str
two_digits n = (48 + n / 10) ∷ (48 + n % 10) ∷ []

-- `strftime("%M %H %d %m *")` of 23:55 on the day, so many days before the token expires
unfoldable pub cron_sched : ℕ → Str
cron_sched token_expiry_date =
    let doy = day_of_year (token_expiry_date - (days_until_token_rotation - 2)) in
    codes "55 23 " ++ (two_digits (day_of doy) ++ (32 ∷ (two_digits (month_of doy) ++ codes " *")))

unfoldable pub is_ours : Schedule → Bool
unfolding eqb contains
is_ours sched =
    eqb sched.description ci_rotate_sched_desc
    && sched.active
    && contains sched.ref (codes "master")

abbrev pub update_schedule : GitLab → Str → Schedule → Run Bool
update_schedule gl cron sched =
    if eqb cron sched.cron
    then pure true
    else act gl (take_ownership sched.id) >>= λ _. act gl (save_schedule sched.id cron)

-- The loop over the schedules: whether one of them is the script's own.
unfoldable pub update_schedules : GitLab → Str → List Schedule → Run Bool
unfolding is_ours eqb
update_schedules gl cron [] = pure false
update_schedules gl cron (sched ∷ schedules) =
    let rest = update_schedules gl cron schedules in
    if is_ours sched then update_schedule gl cron sched >>= (λ _. rest >>= λ _. pure true) else rest

abbrev pub create_unless : GitLab → Str → Bool → Run Bool
create_unless gl cron true = pure true
create_unless gl cron false = act gl (create_schedule cron) >>= λ _. act gl (save_created cron)

unfoldable pub create_or_update_ci_pipeline : GitLab → ℕ → Run Bool
unfolding update_schedules cron_sched
create_or_update_ci_pipeline gl token_expiry_date =
    let cron = cron_sched token_expiry_date in
    answer gl.schedules
    >>= (λ schedules. update_schedules gl cron schedules >>= λ exists. create_unless gl cron exists)

-- A missing variable is logged, and the use of `ci_var` raises an `UnboundLocalError` then.
abbrev pub set_found : GitLab → Str → Str → Lookup → Run Bool
set_found gl key new_token found = act gl (set_variable key new_token)
set_found gl key new_token _ = stop

unfoldable pub update_ci_var : GitLab → Str → Str → Run Bool
update_ci_var gl key new_token =
    if gl.opens (some new_token) then set_found gl key new_token (gl.variable key) else stop

-- The id of the token, none for -1
unfoldable pub fetch_tokenid_by_name : List Token → Str → Option ℕ
unfolding eqb
fetch_tokenid_by_name tokens tok_name =
    option_map (λ (t : Token). t.id) (find (λ (t : Token). eqb t.name tok_name && t.active) tokens)

abbrev pub new_token_of : GitLab → ℕ → ℕ → Bool → Run Str
new_token_of gl id expiry accepted = answer (gl.rotated id expiry)

unfoldable pub rotate_token : GitLab → Str → ℕ → ℕ → Run Bool
unfolding create_or_update_ci_pipeline update_ci_var
rotate_token gl ci_var_name id expiry = create_or_update_ci_pipeline gl expiry >>= (λ _.
    act gl (rotate id expiry) >>= (λ ok.
      new_token_of gl id expiry ok >>= λ new_token. update_ci_var gl ci_var_name new_token))

-- From the id of the token: whether the script ends well, and not by `sys.exit(1)`. `today` is the day
-- when the days left are counted, `later` the one when the new expiry is set.
abbrev pub rotate_if_due : GitLab → Str → ℕ → ℕ → Option ℕ → Run Bool
rotate_if_due gl ci_var_name today later none = pure false
rotate_if_due gl ci_var_name today later (some id) = answer (gl.expires_at id) >>= (λ expires_at.
    if leb expires_at (today + days_until_token_rotation)
    then rotate_token gl ci_var_name id (later + 364)
    else pure true)

abbrev pub with_var : GitLab → (Str → Option Str) → Str → ℕ → ℕ → Str → Run Bool
with_var gl getenv token_name today later ci_var_name =
    if gl.opens (getenv ci_var_name)
    then answer gl.tokens >>= (λ tokens.
      rotate_if_due gl ci_var_name today later (fetch_tokenid_by_name tokens token_name))
    else stop

-- `main`, from the arguments and the environment. Without a name of a variable the script exits or
-- meets an unbound name, although the parser always gives one.
unfoldable pub main : GitLab → (Str → Option Str) → Str → Option Str → ℕ → ℕ → Run Bool
unfolding fetch_tokenid_by_name rotate_token
main gl getenv token_name none today later = elim (getenv ci_var_key) [
  | none ↦ pure false
  | some tok ↦ stop
]
main gl getenv token_name (some ci_var_name) today later =
    with_var gl getenv token_name today later ci_var_name
