-- ===== src/Investigate/Tests/Uploads.antt =====
-- Runs of openqa_llm_investigate/uploads.py.
use os_autoinst_scripts.Py.Regex.{group_of}
use os_autoinst_scripts.Investigate.Text.Lines.{is_text}
use os_autoinst_scripts.Py.Text.{in_lines}
use os_autoinst_scripts.Prelude.{◌≡◌, refl, none, some, List, [], ◌∷◌}
use os_autoinst_scripts.Py.Str.{Str, codes, eqb, is_space}
use os_autoinst_scripts.Py.Dict.{Dict}
use os_autoinst_scripts.Py.Json.{Value, text, object, field, end}
use os_autoinst_scripts.Investigate.Http.{Client}
use os_autoinst_scripts.Investigate.Uploads.{
  console_warnings, dedupe_lines, log_excerpt, select_console_files, select_uploaded_logs,
}
use os_autoinst_scripts.Investigate.Uploads.Collect.{collect_uploaded_logs, list_job_files}
use os_autoinst_scripts.Investigate.Uploads.Widgets.{summarize_widgets, add_pair}

abbrev lines : List Str
lines =
    codes "Jan 01 10:00:00 host kernel: error 17"
    ∷ codes "[  1.5] oops"
    ∷ codes "Jan 02 11:00:01 susetest kernel: error 4"
    ∷ []

dedupe_test :
    dedupe_lines lines 2
    ≡ codes "Jan 01 10:00:00 host kernel: error 17 (x2)" ∷ codes "[  1.5] oops" ∷ []
unfolding dedupe_lines eqb is_space
dedupe_test = refl

select_test :
    select_uploaded_logs
      (codes "yast-widgets.json"
        ∷ codes "yast-console.txt"
        ∷ codes "full_journal.txt"
        ∷ codes "yast_x.log"
        ∷ codes "video.ogv"
        ∷ codes "yast-terraform"
        ∷ codes "yast_x.log"
        ∷ [])
      (codes "yast")
    ≡ codes "yast-widgets.json"
      ∷ codes "full_journal.txt"
      ∷ codes "yast_x.log"
      ∷ codes "yast-terraform"
      ∷ []
unfolding select_uploaded_logs
select_test = refl

consoles_test :
    select_console_files
      (codes "a-console-end.txt" ∷ codes "b-console-end.txt" ∷ codes "a-console-beginning.txt" ∷ [])
    ≡ codes "b-console-end.txt" ∷ codes "a-console-beginning.txt" ∷ []
unfolding select_console_files
consoles_test = refl

warnings_test :
    console_warnings
      (codes "i-0ab\tFailed to start x\nfine\nFailed to populate /etc: Failed to start y\n")
    ≡ codes "Failed to start x" ∷ []
unfolding console_warnings
warnings_test = refl

excerpt_test :
    log_excerpt (codes "x.log") (codes "a\nb\n│ Error: no\n\nd\ne")
    ≡ codes "b" ∷ codes "Error: no" ∷ []
unfolding log_excerpt
excerpt_test = refl

abbrev dump : Value
dump = object (
    field (codes "title") (text (codes " OK "))
      (field (codes "items") (object (field (codes "title") (text (codes " OK ")) end)) end))

-- A text with white space around it is taken up as often as it comes.
widgets_test :
    summarize_widgets (λ s. some dump) (codes "{}")
    ≡ (codes "title", codes "OK") ∷ (codes "title", codes "OK") ∷ []
unfolding summarize_widgets in_lines is_text add_pair
widgets_test = refl

abbrev client : Client
client = record {
  get = λ path.
      some (codes "<a href=\"/tests/1/file/x-y.log\"><a href=\"/file/z?q\"><a href=\"/file/z\">");
  stream = λ path. some (codes "fatal" ∷ []);
  decode = λ bytes. bytes;
}

files_test : (list_job_files client (codes "1") []).0 ≡ codes "x-y.log" ∷ codes "z" ∷ []
unfolding list_job_files group_of
files_test = refl

uploads_test :
    (collect_uploaded_logs client
      (λ s. none)
      (codes "1")
      (codes "x-y.log" ∷ codes "z" ∷ [])
      (codes "x")
      []).0
    ≡ (codes "x-y.log", codes "fatal" ∷ []) ∷ []
unfolding collect_uploaded_logs
uploads_test = refl
