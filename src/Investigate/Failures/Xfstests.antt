-- ===== src/Investigate/Failures/Xfstests.antt =====
-- The summary of an xfstests module: openqa_llm_investigate/failures.py.
use os_autoinst_scripts.Prelude.{◌&&◌, ◌||◌, not, List, [], ◌∷◌, ◌++◌, if◌then◌else◌, filter}
use os_autoinst_scripts.Py.Str.{Str, codes, eqb, ends_with, strip}
use os_autoinst_scripts.Py.Text.{not_empty_text, in_lines}
use os_autoinst_scripts.Py.Regex.{is_some}
use os_autoinst_scripts.Investigate.Text.Redact.{redact}
use os_autoinst_scripts.Investigate.Step.{Step, text_of, title_of}

-- The xfstests summary steps, and the lines that show them.
abbrev pub xfstests_summary_titles : List Str
xfstests_summary_titles =
    codes "INFO" ∷ codes "output" ∷ codes "out.bad" ∷ codes "full" ∷ codes "dmesg" ∷ []

unfoldable pub extract_xfstests_result_steps : List Step → List Step
unfolding in_lines
extract_xfstests_result_steps details =
    filter (λ (d : Step). in_lines (title_of d) xfstests_summary_titles && is_some d.text_data)
      details

unfoldable pub xfstests_step : Step → List Str
unfolding ends_with redact eqb strip
xfstests_step step =
    let title = title_of step in
    let body = strip (text_of step) in
    if not (not_empty_text body) || ends_with body (codes "not exist")
    then []
    else if eqb title (codes "INFO")
    then body ∷ [] ∷ []
    else (codes "--- " ++ (title ++ codes " ---")) ∷ redact body ∷ [] ∷ []

abbrev pub xfstests_bodies : List Step → List Str
xfstests_bodies [] = []
xfstests_bodies (step ∷ steps) = xfstests_step step ++ xfstests_bodies steps

abbrev pub under_title : List Step → List Str
under_title [] = []
under_title (step ∷ steps) = codes "xfstests result:" ∷ xfstests_bodies (step ∷ steps)

unfoldable pub xfstests_lines : List Step → List Str
unfolding extract_xfstests_result_steps xfstests_step
xfstests_lines all_details = under_title (extract_xfstests_result_steps all_details)
