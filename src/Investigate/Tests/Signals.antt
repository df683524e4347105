-- ===== src/Investigate/Tests/Signals.antt =====
-- Runs of the signal rules and the job-level report of openqa_llm_investigate/logs.py.
use os_autoinst_scripts.Py.Regex.{group_of}
use os_autoinst_scripts.Prelude.{◌≡◌, refl, true, false, none, some, [], ◌∷◌}
use os_autoinst_scripts.Py.Str.{codes, is_space}
use os_autoinst_scripts.Investigate.Logs.Signals.{
  dialog_signal, last_test_died, summarize_key_error,
}
use os_autoinst_scripts.Investigate.Logs.Job.{extract_job_log_excerpt}
use os_autoinst_scripts.Investigate.History.Header.{ApiJob, header_lines}

selinux_test :
    summarize_key_error
      (codes "avc:  denied { read } scon=a:b:bin_t:s0 x tcon=u:r:etc_t:s0 perm=read")
      []
      false
    ≡ some (codes "SELinux denial (bin_t -> etc_t read)")
unfolding summarize_key_error is_space
selinux_test = refl

permissive_test :
    summarize_key_error (codes "avc:  denied { read } permissive=1\nx") [] false ≡ none
unfolding summarize_key_error is_space
permissive_test = refl

step_beats_test :
    summarize_key_error
      (codes "avc:  denied { read }")
      (codes "curl: (6) Could not resolve host: scc.suse.com" ∷ [])
      true
    ≡ some (codes "name resolution failed (scc.suse.com)")
unfolding summarize_key_error
step_beats_test = refl

sudo_test :
    summarize_key_error [] (codes "$ sudo ls\n[sudo] password for bernhard: \n" ∷ []) false
    ≡ some (codes "command waited for a sudo password")
unfolding summarize_key_error is_space
sudo_test = refl

mount_test :
    summarize_key_error []
      (codes "x\n\rmount: /mnt: wrong fs type, bad option, bad superblock on /dev/sda" ∷ [])
      false
    ≡ some (codes "mount failed (wrong fs type, bad option, bad superblock)")
unfolding summarize_key_error is_space
mount_test = refl

dialog_rule_test :
    summarize_key_error (codes "a\nDIALOG: Sure?\nb") [] false
    ≡ some (codes "unexpected dialog: \"Sure?\"")
unfolding summarize_key_error
dialog_rule_test = refl

dialog_test : dialog_signal (codes "#x" ∷ codes "text: a: b" ∷ []) ≡ some (codes "DIALOG: a: b")
unfolding dialog_signal
dialog_test = refl

died_test :
    last_test_died (codes "Test died: a\nx\n[t] Test died: b at c")
    ≡ some (codes "Test died: b at c", 2)
unfolding last_test_died group_of
died_test = refl

excerpt_test :
    extract_job_log_excerpt (codes "a\n\u{1b}[31m[warn] b\nc\nd\ne\n")
    ≡ codes "[warn] b" ∷ codes "c" ∷ codes "d" ∷ []
unfolding extract_job_log_excerpt
excerpt_test = refl

abbrev job : ApiJob
job = record {
  test = some (codes "boot");
  result = some (codes "incomplete");
  state = none;
  reason = some (codes "died");
  group_id = none;
  settings = (codes "MACHINE", codes "64bit") ∷ [];
}

header_test :
    header_lines job []
    ≡ codes "Test: boot"
      ∷ codes "Result: incomplete (state unknown)"
      ∷ codes "Reason: died"
      ∷ codes "Settings: MACHINE=64bit"
      ∷ []
unfolding header_lines
header_test = refl
