-- ===== src/Investigate/History/Header.antt =====
-- A job of the API and its header lines: openqa_llm_investigate/history.py.
use os_autoinst_scripts.Prelude.{
  ℕ, Bool, false, ◌||◌, Option, none, some, List, [], ◌∷◌, ◌++◌, map, ltb, if◌then◌else◌, length,
  filter,
}
use os_autoinst_scripts.Py.Str.{Str, codes, eqb, join}
use os_autoinst_scripts.Py.Num.{decimal}
use os_autoinst_scripts.Py.Dict.{Dict, lookup}
use os_autoinst_scripts.Py.Regex.{is_some}
use os_autoinst_scripts.Py.Text.{not_empty_text, or_empty}
use os_autoinst_scripts.Investigate.Text.Redact.{redact}
use os_autoinst_scripts.Investigate.Failures.Modules.{Module}
use os_autoinst_scripts.Investigate.History.Siblings.{Job, with_blank}

-- The fields of a job in `/api/v1/jobs` that the package reads, each given or not.
pub record ApiJob : Type 0 where
  pub test : Option Str
  pub result : Option Str
  pub state : Option Str
  pub reason : Option Str
  pub group_id : Option ℕ
  pub settings : Dict Str

-- `{}`
abbrev pub no_job : ApiJob
no_job = record {
  test = none;
  result = none;
  state = none;
  reason = none;
  group_id = none;
  settings = [];
}

-- `job or other`: a job without fields counts as none.
abbrev pub has_fields : ApiJob → Bool
has_fields job =
    is_some job.test
    || is_some job.result
    || is_some job.state
    || is_some job.reason
    || is_some job.group_id
    || ltb 0 (length job.settings)

-- `job.get("state", "unknown")` and the like
abbrev pub or_default : Str → Option Str → Str
or_default default none = default
or_default default (some s) = s

abbrev pub settings_job : ApiJob → Job
settings_job job = record {
  group_id = job.group_id;
  build = lookup (codes "BUILD") job.settings;
  flavor = lookup (codes "FLAVOR") job.settings;
  version = lookup (codes "VERSION") job.settings;
}

-- A line for a value that is given and not empty.
abbrev pub line_if : Str → Str → List Str
line_if start value = if not_empty_text value then (start ++ value) ∷ [] else []

abbrev pub header_settings : List Str
header_settings =
    codes "MACHINE"
    ∷ codes "BACKEND"
    ∷ codes "QEMURAM"
    ∷ codes "UEFI"
    ∷ codes "ENCRYPT"
    ∷ codes "BOOTFROM"
    ∷ codes "HDD_1"
    ∷ codes "BOOT_HDD_IMAGE"
    ∷ []

abbrev pub setting : Dict Str → Str → Str
setting settings k = or_empty (lookup k settings)

abbrev pub settings_line : Dict Str → List Str → List Str
settings_line settings [] = []
settings_line settings (k ∷ ks) =
    (codes "Settings: "
      ++ join (codes " ") (map (λ k. k ++ (codes "=" ++ setting settings k)) (k ∷ ks)))
    ∷ []

-- `results.count(r)`
abbrev pub count_result : Str → List Module → ℕ
count_result r modules =
    length (filter (λ (m : Module). elim m.result [ none ↦ false | some s ↦ eqb s r ]) modules)

abbrev pub counted_result : List Module → Str → Str
counted_result modules r = decimal (count_result r modules) ++ (codes " " ++ r)

abbrev pub modules_line : List Module → List Str
modules_line [] = []
modules_line (m ∷ modules) =
    (codes "Modules: "
      ++ join (codes " / ") (
          map (counted_result (m ∷ modules))
            (codes "failed" ∷ codes "softfailed" ∷ codes "skipped" ∷ [])))
    ∷ []

-- `job.get("test") or settings.get("TEST")`
abbrev pub or_text : Str → Str → Str
or_text [] other = other
or_text (c ∷ s) other = c ∷ s

unfoldable pub header_lines : ApiJob → List Module → List Str
unfolding lookup eqb join decimal
header_lines job modules =
    let settings = job.settings in
    let result = or_empty job.result in
    line_if (codes "Test: ") (or_text (or_empty job.test) (setting settings (codes "TEST")))
    ++ ((if not_empty_text result
          then (codes "Result: "
              ++ (result
                  ++ (codes " (state " ++ (or_default (codes "unknown") job.state ++ codes ")"))))
            ∷ []
          else [])
        ++ (line_if (codes "Reason: ") (or_empty job.reason)
            ++ (line_if (codes "Description: ") (setting settings (codes "JOB_DESCRIPTION"))
                ++ (settings_line settings
                      (filter (λ k. not_empty_text (setting settings k)) header_settings)
                    ++ modules_line modules))))

unfoldable pub job_header : ApiJob → List Module → List Str
unfolding header_lines redact
job_header job modules = with_blank (map redact (header_lines job modules))
