-- ===== src/Investigate/Analysis/Section.antt =====
-- The sections of an analysis, and the marks that openqa_llm_investigate/analysis.py shares.
use os_autoinst_scripts.Prelude.{List, [], ◌∷◌, ◌++◌, map}
use os_autoinst_scripts.Py.Str.{Str, codes}
use os_autoinst_scripts.Investigate.Text.Redact.{redact}

abbrev pub stack_trace : Str
stack_trace = codes "Stack trace"

abbrev pub section_end : Str
section_end = codes "--- End of Log Section ---"

abbrev pub test_died : Str
test_died = codes "# Test died:"

unfoldable pub section_start : Str → Str
section_start title = codes "--- " ++ (title ++ codes " ---")

unfoldable pub section : Str → List Str → List Str
unfolding section_start
section title body = section_start title ∷ (body ++ (section_end ∷ [] ∷ []))

unfoldable pub masked : List Str → List Str
unfolding redact
masked lines = map redact lines
