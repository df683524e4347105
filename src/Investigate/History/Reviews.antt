-- ===== src/Investigate/History/Reviews.antt =====
-- Which reviews of earlier runs are named.
use os_autoinst_scripts.Prelude.{
  Bool, false, Option, none, some, List, [], ◌∷◌, if◌then◌else◌, any, not, ◌&&◌,
}
use os_autoinst_scripts.Py.Dict.{Dict, or_else}
use os_autoinst_scripts.Py.Str.{Str, codes, eqb, partition}
use os_autoinst_scripts.Investigate.History.{Row, Comments}
use os_autoinst_scripts.Investigate.History.Runs.{review_text}

-- What is said of a mark that is among the marks of a run.
abbrev pub mark_of : Str → Row → List (Str × Str) → Option Str
mark_of k j [] = none
mark_of k j ((mark, note) ∷ marks) =
    or_else (if eqb mark k then some (review_text j mark note) else none) (mark_of k j marks)

-- The run failed in each of the modules, of which there is one.
abbrev pub is_similar : List Str → List Str → Bool
is_similar [] failed = false
is_similar (m ∷ []) failed = any (eqb m) failed
is_similar (m ∷ k ∷ modules) failed = any (eqb m) failed && is_similar (k ∷ modules) failed

-- The label is the mark, and not one of openQA's or of ttm's.
abbrev pub is_label : Str → Option Str → Bool
is_label k none = false
is_label k (some []) = false
is_label k (some (c ∷ s)) =
    eqb (c ∷ s) k
    && not (eqb (partition b':' (c ∷ s)).0 (codes "linked"))
    && not (eqb (partition b':' (c ∷ s)).0 (codes "unknown_failure"))

-- What is said of a mark that a run carries, as a bugref or else as its label.
abbrev pub said : Str → Row → Option Comments → Option Str
said k j none = none
said k j (some c) =
    if any (λ bug. eqb bug k) c.bugs
    then some (review_text j k [])
    else if is_label k c.label
    then some (review_text j k (codes "label, "))
    else none

-- The first of the runs that failed in all of the modules and carry the mark.
abbrev pub first_review : List Str → Str → List Row → Option Str
first_review modules k [] = none
first_review modules k (j ∷ rows) =
    or_else (if is_similar modules j.failedmodules then said k j j.comment_data else none)
      (first_review modules k rows)
