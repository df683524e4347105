-- ===== src/Investigate/Tests/Commits.antt =====
-- Runs of openqa_llm_investigate/commits.py.
use os_autoinst_scripts.Investigate.Text.Classes.{is_letter}
use os_autoinst_scripts.Py.Regex.{group_of}
use os_autoinst_scripts.Prelude.{
  ◌+◌, ◌≤◌, ◌<◌, ◌≡◌, refl, true, false, none, some, List, [], ◌∷◌, length,
}
use os_autoinst_scripts.Py.Str.{Str, codes, is_space}
use os_autoinst_scripts.Investigate.Failures.Modules.{Module}
use os_autoinst_scripts.Investigate.Commits.{commits_section, shown_commit, summary}
use os_autoinst_scripts.Investigate.Commits.Files.{
  abbreviated, commits, is_file, sides, stack_files,
}
use os_autoinst_scripts.Investigate.Commits.Overview.{summary_lem}

abbrev log : Str
log =
    codes
      "0123456789 [poo#1] [x] Fix boot\n tests/boot/grub.pm | 2 +-\n lib/utils.pm       | 4 ++--\n 2 files changed\nfedcba9876 Other\n README | 1 +\n"

abbrev grub : Module
grub = record {
  place = 0;
  name = some (codes "grub#2");
  category = some (codes "boot");
  result = some (codes "failed");
  details = none;
}

abbrev analysis : Str
analysis =
    codes
      "--- Stack trace ---\n foo at /var/lib/openqa/share/tests/sle/lib/utils.pm line 12.\n at /usr/lib/x.pm line 3\n--- End of Log Section ---\n at other.pm line 4"

abbrev paths : List Str
paths = codes "tests/boot/grub.pm" ∷ []

summary_lem_example :
    let s = summary (commits log) paths [] in
    (s.shown ≡ (codes "[failed module] 0123456789 Fix boot" ∷ []))
    × (length s.shown ≤ 10)
    × (length s.shown + s.more + s.others ≡ length (commits log))
    × (0 < s.more → length s.shown ≡ 10)
unfolding commits is_space is_file shown_commit
summary_lem_example = summary_lem (commits log) paths []

abbreviated_test : abbreviated (codes "lib/a/b.pm") 9 ≡ codes ".../b.pm"
unfolding commits is_space is_file shown_commit
abbreviated_test = refl

sides_test : sides (codes "a/{x => }/b") ≡ codes "a/x/b" ∷ codes "a/b" ∷ []
unfolding sides
sides_test = refl

frame_test : stack_files analysis ≡ codes "/var/lib/openqa/share/tests/sle/lib/utils.pm" ∷ []
unfolding stack_files group_of
frame_test = refl

renamed_test : is_file (codes ".../{old => new}/b.pm") 30 (codes "x/new/b.pm") false ≡ true
unfolding is_file
renamed_test = refl

section_test :
    commits_section
      (some (record { test_log = some log; test_diff_stat = none }))
      (grub ∷ [])
      analysis
    ≡ codes
        "Test commits since the last good job:\n[failed module]: changes the failed module's test file; [stack]: changes a file in the failing step's stack trace\n[failed module] [stack] 0123456789 Fix boot\nand 1 other test commit\n\n"
unfolding commits_section is_letter
section_test = refl
