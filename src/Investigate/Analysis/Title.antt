-- ===== src/Investigate/Analysis/Title.antt =====
-- How openqa_llm_investigate/analysis.py names a module and those before it.
use os_autoinst_scripts.Prelude.{Option, none, some, List, [], ◌∷◌, ◌++◌, map, option_map}
use os_autoinst_scripts.Py.Str.{Str, codes, join}
use os_autoinst_scripts.Py.Regex.{Regex, group, word_edge, search_in, literal, seqs, plus}
use os_autoinst_scripts.Investigate.Step.{Step, text_of}
use os_autoinst_scripts.Investigate.Text.Classes.{no_space_nor}
use os_autoinst_scripts.Investigate.Text.Commands.{first_of, group_1}
use os_autoinst_scripts.Investigate.History.Header.{or_default}
use os_autoinst_scripts.Investigate.Failures.Commands.{extract_test_died_errors}
use os_autoinst_scripts.Investigate.Failures.Modules.{
  Module, details_of, previous_modules, place_among,
}

-- `\btests/([^/\s]+)/NAME\.pm`
abbrev pub module_path_re : Str → Regex
module_path_re name = seqs (
    word_edge
    ∷ literal (codes "tests/")
    ∷ group 1 (plus (no_space_nor (codes "/")))
    ∷ literal (codes "/" ++ (name ++ codes ".pm"))
    ∷ [])

unfoldable pub path_in : Str → List Step → Option Str
unfolding first_of search_in
path_in name details =
    first_of (λ d. option_map group_1 (search_in (module_path_re name) (text_of d))) details

abbrev pub under : Str → Option Str → Str
under name none = name
under name (some path) = path ++ (codes "/" ++ name)

-- A module without a category is named by the path in its stack trace; an empty category is left out.
abbrev pub title_under : Str → Option Str → Option Str → Str
title_under name none path = under name path
title_under name (some []) path = name
title_under name (some (c ∷ category)) path = (c ∷ category) ++ (codes "/" ++ name)

unfoldable pub module_title : Module → Str
unfolding path_in extract_test_died_errors
module_title m =
    let name = or_default (codes "unknown") m.name in
    title_under name m.category (path_in name (extract_test_died_errors (details_of m)))

abbrev pub or_first : Str → Str
or_first [] = codes "none (first module)"
or_first (c ∷ s) = c ∷ s

abbrev pub listed_module : Module → Str
listed_module m =
    module_title m ++ (codes " (" ++ (or_default (codes "unknown") m.result ++ codes ")"))

unfoldable pub previous_modules_line : List Module → Module → Str
unfolding previous_modules place_among module_title join
previous_modules_line all_modules m =
    let previous = previous_modules all_modules (place_among m all_modules) 3 in
    codes "Previous modules: " ++ or_first (join (codes ", ") (map listed_module previous))
