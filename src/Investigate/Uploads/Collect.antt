-- ===== src/Investigate/Uploads/Collect.antt =====
-- What is fetched of the files of a job, and how it is listed: openqa_llm_investigate/uploads.py.
use os_autoinst_scripts.Prelude.{Option, List, [], ◌∷◌, ◌++◌, map, if◌then◌else◌, filter, take}
use os_autoinst_scripts.Py.Str.{Str, codes, ends_with, rstrip, split}
use os_autoinst_scripts.Py.Dict.{Dict, insert}
use os_autoinst_scripts.Py.Json.{Value}
use os_autoinst_scripts.Py.Text.{in_lines, unique}
use os_autoinst_scripts.Py.Regex.{
  Regex, one, seq, group, is_some, search_in, find_all, literal, plus, one_of, none_of,
}
use os_autoinst_scripts.Investigate.Text.Classes.{alts}
use os_autoinst_scripts.Investigate.Text.Commands.{group_1}
use os_autoinst_scripts.Investigate.Text.Lines.{is_text}
use os_autoinst_scripts.Investigate.Text.Redact.{redact}
use os_autoinst_scripts.Investigate.Http.{Client, job_file, job_file_max_bytes, text_or_empty}
use os_autoinst_scripts.Investigate.Uploads.{
  select_console_files, console_warnings, dedupe_lines, select_uploaded_logs, log_excerpt,
}
use os_autoinst_scripts.Investigate.Uploads.Widgets.{summarize_widgets}

-- `ERROR|WARNING|Traceback|[Ee]xception`
abbrev pub cloudreg_signal_re : Regex
cloudreg_signal_re = alts (
    literal (codes "ERROR")
    ∷ literal (codes "WARNING")
    ∷ literal (codes "Traceback")
    ∷ seq (one (one_of (codes "Ee"))) (literal (codes "xception"))
    ∷ [])

-- `/file/([^"'?#]+)`
abbrev pub file_link_re : Regex
file_link_re = seq (literal (codes "/file/")) (group 1 (plus (one (none_of (codes "\"'?#")))))

unfoldable pub list_job_files : Client → Str → Dict Str → List Str × Dict Str
unfolding text_or_empty find_all unique
list_job_files client job_id cache =
    let (body, cache) =
      text_or_empty client (codes "/tests/" ++ (job_id ++ codes "/downloads_ajax")) cache in
    (unique (map group_1 (find_all file_link_re body)), cache)

-- A file with nothing to show is left out.
abbrev pub if_lines : Str → List Str → Dict (List Str) → Dict (List Str)
if_lines name [] logs = logs
if_lines name (l ∷ lines) logs = insert name (l ∷ lines) logs

unfoldable pub collect_consoles :
    Client → Str → List Str → Dict (List Str) → Dict Str → Dict (List Str) × Dict Str
unfolding job_file console_warnings insert
collect_consoles client job_id [] logs cache = (logs, cache)
collect_consoles client job_id (n ∷ names) logs cache =
    let (text, cache) = job_file client job_id n job_file_max_bytes cache in
    collect_consoles client job_id names (if_lines n (console_warnings text) logs) cache

abbrev pub cloudregister : Str
cloudregister = codes "cloudregister.txt"

abbrev pub cloudregister_lines : List Str → Dict (List Str)
cloudregister_lines [] = []
cloudregister_lines (l ∷ hits) = (cloudregister, dedupe_lines (l ∷ hits) 15) ∷ []

unfoldable pub cloudregister_log : Str → Dict (List Str)
unfolding search_in rstrip dedupe_lines split
cloudregister_log text = cloudregister_lines (
    map (λ line. take 200 (rstrip line))
      (filter (λ line. is_some (search_in cloudreg_signal_re line)) (split 10 text)))

unfoldable pub collect_job_level_logs :
    Client → Str → List Str → Dict Str → (Dict (List Str) × Dict (List Str)) × Dict Str
unfolding select_console_files collect_consoles in_lines job_file cloudregister_log
collect_job_level_logs client job_id names cache =
    let (consoles, cache) = collect_consoles client job_id (select_console_files names) [] cache in
    let fetched = job_file client job_id cloudregister job_file_max_bytes cache in
    if in_lines cloudregister names
    then ((consoles, cloudregister_log fetched.0), fetched.1)
    else ((consoles, []), cache)

unfoldable pub upload_lines : (Str → Option Value) → Str → Str → List Str
unfolding ends_with summarize_widgets is_text log_excerpt
upload_lines loads name text =
    if ends_with name (codes "-widgets.json")
    then take 30
        (map (λ (p : Str × Str). p.0 ++ (codes ": " ++ p.1)) (summarize_widgets loads text))
    else if is_text text
    then log_excerpt name text
    else []

unfoldable pub collect_uploads :
    Client
    → (Str → Option Value)
    → Str
    → List Str
    → Dict (List Str)
    → Dict Str
    → Dict (List Str) × Dict Str
unfolding job_file upload_lines insert
collect_uploads client loads job_id [] logs cache = (logs, cache)
collect_uploads client loads job_id (n ∷ names) logs cache =
    let (text, cache) = job_file client job_id n job_file_max_bytes cache in
    collect_uploads client loads job_id names (if_lines n (upload_lines loads n text) logs) cache

unfoldable pub collect_uploaded_logs :
    Client → (Str → Option Value) → Str → List Str → Str → Dict Str → Dict (List Str) × Dict Str
unfolding select_uploaded_logs collect_uploads
collect_uploaded_logs client loads job_id names module_name cache =
    collect_uploads client loads job_id (select_uploaded_logs names module_name) [] cache

unfoldable pub format_uploaded_logs : Dict (List Str) → Str → List Str
unfolding redact
format_uploaded_logs [] label = []
format_uploaded_logs ((name, lines) ∷ logs) label =
    (codes "--- " ++ (label ++ (codes ": " ++ (name ++ codes " ---"))))
    ∷ (map redact lines
        ++ (codes "--- End of Log Section ---" ∷ [] ∷ format_uploaded_logs logs label))
