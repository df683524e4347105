-- ===== src/Investigate/History.antt =====
-- The rows and lookups of openqa_llm_investigate/history.py, and its description of failed jobs.
pub mod Budget
pub mod Reads
pub mod Reviews
pub mod Runs
pub mod Siblings
pub mod Header
use os_autoinst_scripts.Prelude.{
  ℕ, zero, suc, ◌+◌, ◌-◌, ◌≡◌, refl, Bool, true, false, ◌&&◌, ◌||◌, not, Option, none, some, List,
  [], ◌∷◌, ◌++◌, map, leb, ltb, ◌==◌, if◌then◌else◌, length, take, filter, any, option_map,
}
use os_autoinst_scripts.Py.Str.{Str, codes, eqb, join, is_space}
use os_autoinst_scripts.Py.Num.{decimal}
use os_autoinst_scripts.Py.Text.{not_empty_text, in_lines}
use os_autoinst_scripts.Py.Sort.{sort_by}
use os_autoinst_scripts.Investigate.Step.{Step}
use os_autoinst_scripts.Investigate.Failures.Modules.{Module, details_of, extract_failed_modules}
use os_autoinst_scripts.Investigate.Failures.Repeats.{failing_cluster}
use os_autoinst_scripts.Investigate.Failures.Commands.{failing_command}

-- `comment_data` of a run: its bugrefs, its newest label, and whether openQA counts it as reviewed.
pub record Comments : Type 0 where
  pub bugs : List Str
  pub label : Option Str
  pub reviewed : Bool

-- A row of openQA's 'Next & previous results'.
pub record Row : Type 0 where
  pub id : ℕ
  pub state : Str
  pub result : Str
  pub build : Option Str
  pub failedmodules : List Str
  pub comment_data : Option Comments
  pub iscurrent : Bool

-- A job of the same group and build.
pub record Sibling : Type 0 where
  pub id : ℕ
  pub result : Str
  pub test : Str
  pub flavor : Option Str
  pub modules : List Module

-- What the server answers, decoded; `none` where the client raises an `AnalyzerError`.
pub record Server : Type 0 where
  pub details : ℕ → Option (List Module)
  pub rows : Str → Option (List Row)
  pub jobs : Str → Option (List Sibling)

-- A failed job as `_failure_groups` takes it.
pub record Failed : Type 0 where
  pub id : ℕ
  pub result : Str
  pub test : Str
  pub build : Option Str
  pub same_flavor : Bool
  pub modules : List Str

abbrev pub history_max_fetches : ℕ
history_max_fetches = 8

abbrev pub history_max_groups : ℕ
history_max_groups = 6

-- `" ".join(c.split())`: runs of white space become one space. `gap` says that one stands before.
unfoldable pub squeeze_spaces : Bool → Str → Str
unfolding is_space
squeeze_spaces gap [] = []
squeeze_spaces true (c ∷ s) =
    let skip = squeeze_spaces true s in
    let more = squeeze_spaces false s in if is_space c then skip else 32 ∷ c ∷ more
squeeze_spaces false (c ∷ s) =
    let skip = squeeze_spaces true s in
    let more = squeeze_spaces false s in if is_space c then skip else c ∷ more

abbrev pub drop_space : Str → Str
drop_space [] = []
drop_space (c ∷ s) = if c == 32 then s else c ∷ s

-- `c if len(c) <= 80 else c[:79] + "…"`
unfoldable pub shortened : Str → Str
shortened c = if leb (length c) 80 then c else take 79 c ++ codes "…"

-- The command of each module that has a failing cluster with a command.
unfoldable pub commands_in : List Module → List Str
unfolding failing_cluster failing_command
commands_in [] = []
commands_in (m ∷ modules) =
    let rest = commands_in modules in
    elim (failing_cluster (details_of m)) [
      | none ↦ rest
      | some c ↦ elim (failing_command c.0) [ none ↦ rest | some found ↦ found.1.0 ∷ rest ]
    ]

unfoldable pub failed_commands : Server → ℕ → List Str
unfolding extract_failed_modules commands_in squeeze_spaces shortened
failed_commands server id = elim (server.details id) [
  | none ↦ []
  | some modules ↦
      map (λ c. shortened (drop_space (squeeze_spaces false c)))
        (take 2 (commands_in (extract_failed_modules modules false)))
]

-- The jobs under one key, which the first of them gives.
abbrev pub Group : Type 0
Group = Failed × List Failed

abbrev pub eqb_bool : Bool → Bool → Bool
eqb_bool true b = b
eqb_bool false b = not b

unfoldable pub eqb_texts : List Str → List Str → Bool
unfolding eqb
eqb_texts [] [] = true
eqb_texts [] (t ∷ ts) = false
eqb_texts (s ∷ ss) [] = false
eqb_texts (s ∷ ss) (t ∷ ts) = eqb s t && eqb_texts ss ts

-- `(same_flavor, test if with_test else "", result, modules)` of both are equal
unfoldable pub same_kind : Bool → Failed → Failed → Bool
unfolding eqb eqb_texts
same_kind with_test j k =
    eqb_bool j.same_flavor k.same_flavor
    && (not with_test || eqb j.test k.test)
    && eqb j.result k.result
    && eqb_texts j.modules k.modules

-- `groups.setdefault(key, []).append(j)`; the second part is all jobs of the group
unfoldable pub add_job : Bool → Failed → List Group → List Group
unfolding same_kind
add_job with_test j [] = (j, j ∷ []) ∷ []
add_job with_test j ((k, js) ∷ groups) =
    let later = add_job with_test j groups in
    if same_kind with_test k j then (k, js ++ (j ∷ [])) ∷ groups else (k, js) ∷ later

unfoldable pub kinds : Bool → List Group → List Failed → List Group
unfolding add_job
kinds with_test groups [] = groups
kinds with_test groups (j ∷ jobs) = kinds with_test (add_job with_test j groups) jobs

-- `(not same_flavor, -len(jobs))` in order
abbrev pub leb_group : Group → Group → Bool
leb_group g h =
    if eqb_bool g.0.same_flavor h.0.same_flavor
    then leb (length h.1) (length g.1)
    else g.0.same_flavor

unfoldable pub ranked : List Group → List Group
unfolding sort_by
ranked groups = take history_max_groups (sort_by leb_group groups)

-- `max(js, key=id)`, the first of several
abbrev pub latest : Failed → List Failed → Failed
latest j [] = j
latest j (k ∷ js) = latest (if ltb j.id k.id then k else j) js

abbrev pub latest_of : Group → Failed
latest_of (k, []) = k
latest_of (k, j ∷ js) = latest j js

abbrev pub has_modules : Group → Bool
has_modules g = ltb 0 (length g.0.modules)

-- The jobs whose details are fetched, while the budget lasts.
unfoldable pub to_fetch : ℕ → List Group → List ℕ
to_fetch fetched groups =
    take (history_max_fetches - fetched) (map (λ g. (latest_of g).id) (filter has_modules groups))

abbrev pub member : ℕ → List ℕ → Bool
member n ns = any (λ k. k == n) ns

abbrev pub build_note : Option Str → Str
build_note none = []
build_note (some []) = []
build_note (some (c ∷ s)) = codes ", build " ++ (c ∷ s)

abbrev pub command_note : List Str → Str
command_note [] = []
command_note (c ∷ cs) =
    codes " ("
    ++ (join (codes "; ") (map (λ x. codes "`" ++ (x ++ codes "`")) (c ∷ cs)) ++ codes ")")

abbrev pub in_modules : List Str → List Str → Str
in_modules [] commands = []
in_modules (m ∷ ms) commands = codes " in " ++ (join (codes ", ") (m ∷ ms) ++ command_note commands)

unfoldable pub group_text : Server → Bool → List ℕ → Group → Str
unfolding failed_commands decimal join
group_text server with_test fetch g =
    let last = latest_of g in
    let commands = if member last.id fetch then failed_commands server last.id else [] in
    let named = with_test && not_empty_text g.0.test in
    let name = (if named then g.0.test ++ codes " " else []) ++ g.0.result in
    (if ltb 1 (length g.1) then decimal (length g.1) ++ codes "x " else [])
    ++ (name
        ++ (in_modules g.0.modules commands
            ++ (codes " [job " ++ (decimal last.id ++ (build_note last.build ++ codes "]")))))

-- `_failure_groups`: the description, and how many details have been fetched by then
unfoldable pub failure_groups : Server → ℕ → List Failed → Bool → Str × ℕ
unfolding kinds ranked to_fetch group_text decimal join
failure_groups server fetched jobs with_test =
    let groups = kinds with_test [] jobs in
    let shown = ranked groups in
    let fetch = to_fetch fetched shown in
    let parts = map (group_text server with_test fetch) shown in
    let more =
      if ltb history_max_groups (length groups)
      then (codes "+" ++ (decimal (length groups - history_max_groups) ++ codes " more")) ∷ []
      else [] in
    (join (codes "; ") (parts ++ more), fetched + length fetch)
