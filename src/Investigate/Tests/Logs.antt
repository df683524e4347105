-- ===== src/Investigate/Tests/Logs.antt =====
-- Searches of openqa_llm_investigate/logs.py in small logs.
use os_autoinst_scripts.Prelude.{◌≡◌, refl, none, some, [], ◌∷◌}
use os_autoinst_scripts.Py.Str.{Str, codes, split}
use os_autoinst_scripts.Py.Num.{is_digit}
use os_autoinst_scripts.Investigate.Logs.{find_in_log, find_log_range, match_index}
use os_autoinst_scripts.Investigate.Logs.Bounds.{
  Found, find_in_log-Found, AtMost, find_log_range-AtMost,
}
use os_autoinst_scripts.Investigate.Logs.Crash.{fatal_events, kdump_oops_symbol}

abbrev log : Str
log = codes "start\n# zypper in x\nzypper in x\nerror\nend"

find_in_log-Found_example :
    Found
      (split 10 log)
      (codes "zypper in x")
      1
      2
      (find_in_log log (some (codes "zypper in x")) 1 (some 2))
find_in_log-Found_example = find_in_log-Found log b'z' (codes "ypper in x") 1 2

find_log_range-AtMost_example :
    AtMost 3 (find_log_range log (some (codes "start")) (some (codes "end")) (some 2))
find_log_range-AtMost_example =
    find_log_range-AtMost log (some (codes "start")) (some (codes "end")) 2

match_index_test : match_index (split 10 log) (codes "zypper in x") ≡ some 1
unfolding match_index split
match_index_test = refl

find_log_range_test :
    find_log_range log (some (codes "error")) (some (codes "end")) none
    ≡ some (codes "error" ∷ codes "end" ∷ [])
unfolding find_log_range
find_log_range_test = refl

fatal_events_test :
    fatal_events (codes "ok" ∷ codes "BUG: x" ∷ codes "Kernel panic" ∷ []) ≡ (1 ∷ 2 ∷ []) ∷ []
unfolding fatal_events is_digit
fatal_events_test = refl

kdump_test : kdump_oops_symbol (codes "sysrq: Trigger a crash\nKernel panic") ≡ none
unfolding kdump_oops_symbol
kdump_test = refl
