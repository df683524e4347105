-- ===== src/Investigate/History/Runs.antt =====
-- Previous and next runs and their reviews: openqa_llm_investigate/history.py.
use os_autoinst_scripts.Prelude.{
  ℕ, suc, Bool, false, ◌&&◌, ◌||◌, not, Option, none, some, List, [], ◌∷◌, ◌++◌, map, leb, ltb,
  ◌==◌, if◌then◌else◌, length, take, filter, all, find,
}
use os_autoinst_scripts.Py.Str.{Str, codes, eqb, join, partition}
use os_autoinst_scripts.Py.Num.{decimal}
use os_autoinst_scripts.Py.Dict.{Dict, lookup, insert, set_default}
use os_autoinst_scripts.Py.Text.{in_lines, or_empty}
use os_autoinst_scripts.Py.Sort.{sort_by}
use os_autoinst_scripts.Investigate.History.{
  Row, Comments, Server, Failed, failure_groups, build_note,
}

abbrev pub history_failed : List Str
history_failed =
    codes "failed" ∷ codes "incomplete" ∷ codes "timeout_exceeded" ∷ codes "parallel_failed" ∷ []

-- `Counter`, in the order in which the results come first
abbrev pub one_more : Option ℕ → ℕ
one_more none = 1
one_more (some n) = suc n

unfoldable pub counted : Dict ℕ → List Str → Dict ℕ
unfolding lookup insert
counted counts [] = counts
counted counts (r ∷ rs) = counted (insert r (one_more (lookup r counts)) counts) rs

abbrev pub as_failed : Row → Failed
as_failed j = record {
  id = j.id;
  result = j.result;
  test = [];
  build = j.build;
  same_flavor = false;
  modules = j.failedmodules;
}

abbrev pub has_failed : Row → Bool
has_failed j = in_lines j.result history_failed

-- The description of the failed runs, if there are any, and the details fetched by then.
abbrev pub failed_part : Server → ℕ → List Failed → List Str × ℕ
failed_part server fetched [] = ([], fetched)
failed_part server fetched (j ∷ jobs) =
    let (text, n) = failure_groups server fetched (j ∷ jobs) false in (text ∷ [], n)

unfoldable pub runs_text : Server → ℕ → Str → List Row → Str × ℕ
unfolding counted in_lines failure_groups decimal join
runs_text server fetched label runs =
    let ok = counted [] (map (λ (j : Row). j.result) (filter (λ j. not (has_failed j)) runs)) in
    let passed = map (λ (e : Str × ℕ). decimal e.1 ++ (codes " " ++ e.0)) ok in
    let failed = failed_part server fetched (map as_failed (filter has_failed runs)) in
    (
      label
          ++ (codes " "
              ++ (decimal (length runs)
                  ++ (codes " run(s): " ++ join (codes ", ") (passed ++ failed.0)))),
      failed.1,
    )

-- `done[j["id"]] = j`
unfoldable pub put_row : Row → List Row → List Row
put_row j [] = j ∷ []
put_row j (k ∷ ks) = let rest = put_row j ks in if k.id == j.id then j ∷ ks else k ∷ rest

abbrev pub is_done : Row → Bool
is_done j = eqb j.state (codes "done")

unfoldable pub done_rows : ℕ → List Row → List Row → List Row
unfolding put_row eqb
done_rows cur done [] = done
done_rows cur done (j ∷ rows) =
    done_rows cur (if is_done j && not (j.id == cur) then put_row j done else done) rows

abbrev pub leb_id : Row → Row → Bool
leb_id j k = leb j.id k.id

abbrev pub geb_id : Row → Row → Bool
geb_id j k = leb k.id j.id

abbrev pub side : Server → ℕ → Str → List Row → List Str × ℕ
side server fetched label [] = ([], fetched)
side server fetched label (j ∷ runs) =
    let (text, n) = runs_text server fetched label (take 5 (j ∷ runs)) in (text ∷ [], n)

abbrev pub sentence : Str → List Str → Option Str
sentence start [] = none
sentence start (p ∷ parts) = some (start ++ (join (codes "; ") (p ∷ parts) ++ codes "."))

-- `_neighbour_summary`, from the rows of the job
unfoldable pub neighbour_summary : Server → List Row → ℕ → ℕ → Option Str × ℕ
unfolding done_rows sort_by runs_text join
neighbour_summary server rows cur fetched =
    let done = done_rows cur [] rows in
    let prev = sort_by geb_id (filter (λ j. ltb j.id cur) done) in
    let nxt = sort_by leb_id (filter (λ j. ltb cur j.id) done) in
    let before = side server fetched (codes "previous") prev in
    let behind = side server before.1 (codes "next") nxt in
    (sentence (codes "Previous/next runs: ") (before.0 ++ behind.0), behind.1)

-- A label that a reviewer has set: not linked by openQA and not one of ttm's.
unfoldable pub label_marks : Str → List (Str × Str)
unfolding partition eqb
label_marks [] = []
label_marks (c ∷ s) =
    let kind = (partition b':' (c ∷ s)).0 in
    if eqb kind (codes "linked") || eqb kind (codes "unknown_failure")
    then []
    else (c ∷ s, codes "label, ") ∷ []

unfoldable pub review_marks : Option Comments → List (Str × Str)
unfolding label_marks
review_marks none = []
review_marks (some c) = map (λ bug. (bug, [])) c.bugs ++ label_marks (or_empty c.label)

unfoldable pub review_text : Row → Str → Str → Str
unfolding decimal
review_text j mark note =
    mark
    ++ (codes " ("
        ++ (note ++ (codes "job " ++ (decimal j.id ++ (build_note j.build ++ codes ")")))))

unfoldable pub add_marks : Row → List (Str × Str) → Dict Str → Dict Str
unfolding set_default review_text
add_marks j [] found = found
add_marks j ((mark, note) ∷ marks) found =
    add_marks j marks (set_default mark (review_text j mark note) found)

-- `modules and modules <= set(failedmodules)`
unfoldable pub failed_in_all : List Str → Row → Bool
unfolding in_lines
failed_in_all modules j = ltb 0 (length modules) && all (λ m. in_lines m j.failedmodules) modules

unfoldable pub reviews_of : List Str → Dict Str → List Row → Dict Str
unfolding failed_in_all review_marks add_marks
reviews_of modules found [] = found
reviews_of modules found (j ∷ rows) =
    reviews_of modules
      (if failed_in_all modules j then add_marks j (review_marks j.comment_data) found else found)
      rows

abbrev pub modules_of : Option Row → List Str
modules_of none = []
modules_of (some j) = j.failedmodules

unfoldable pub earlier_reviews : List Row → ℕ → Option Str
unfolding sort_by reviews_of eqb join
earlier_reviews rows cur =
    let modules = modules_of (find (λ (j : Row). j.id == cur) rows) in
    let prev = sort_by geb_id (filter (λ j. is_done j && ltb j.id cur) rows) in
    let found = reviews_of modules [] (take 20 prev) in
    sentence (codes "Earlier reviews of runs failing in the same module: ")
      (take 5 (map (λ (e : Str × Str). e.1) found))

unfoldable pub rows_query : ℕ → Bool → Str
unfolding decimal
rows_query job_id neighbours =
    codes "/tests/"
    ++ (decimal job_id
        ++ (codes "/ajax" ++ (if neighbours then [] else codes "?previous_limit=0&next_limit=0")))

unfoldable pub fetch_rows : Server → ℕ → Bool → List Row
unfolding rows_query
fetch_rows server job_id neighbours = elim (server.rows (rows_query job_id neighbours)) [
  | none ↦ []
  | some rows ↦ rows
]

abbrev pub reviewed_row : Option Row → Bool
reviewed_row none = false
reviewed_row (some j) = elim j.comment_data [ none ↦ false | some c ↦ c.reviewed ]

unfoldable pub is_reviewed : List Row → Bool
is_reviewed rows = reviewed_row (find (λ (j : Row). j.iscurrent) rows)
