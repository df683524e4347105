-- ===== src/Investigate/Commits/Overview.antt =====
-- Every commit is listed or counted, and what a column cuts of a path:
-- openqa_llm_investigate/commits.py.
use os_autoinst_scripts.Prelude.{
  ℕ, ◌+◌, ◌-◌, ◌≤◌, ◌<◌, ◌≡◌, ◌⊎◌, inl, inr, refl, Bool, true, false, not, ◌&&◌, any, ltb,
  if◌then◌else◌, List, [], ◌∷◌, ◌++◌, map, arith, leb, ◌==◌, length, take, drop, filter,
  length-take_le, length-map, length-filter_le, length-drop, append-take-drop, length-append,
  Bool-cases, leb→le, leb→gt, ap, sym, ◌∙◌, append_assoc,
}
use os_autoinst_scripts.Py.Str.{Str, codes, eqb}
use os_autoinst_scripts.Py.Text.{in_lines}
use os_autoinst_scripts.Py.Sort.{length-sort_by, sort_by-parts}
use os_autoinst_scripts.Investigate.Commits.Files.{Commit, abbreviated, from_slash, is_file}
use os_autoinst_scripts.Investigate.Commits.{
  Marked, marks, is_module_file, is_frame_file, is_marked, with_marks, leb_marked, marked_commits,
  summary, shown_commit, touches_module,
}

length-marked_commits :
    (found : List Commit) (paths frames : List Str)
    → length (marked_commits found paths frames) ≤ length found
unfolding marked_commits
length-marked_commits found paths frames =
    let all : List Marked = map (with_marks paths frames) found in
    omega (
      arith,
      length-sort_by leb_marked (filter is_marked all),
      length-filter_le is_marked all,
      length-map (with_marks paths frames) found,
    )

length-take-drop {ℓ} :
    {A : Type ℓ} (n : ℕ) (xs : List A) → length (take n xs) + (length xs - n) ≡ length xs
length-take-drop n xs = omega (
  arith,
  ap length (append-take-drop n xs),
  length-append (take n xs) (drop n xs),
  length-drop n xs,
)

-- A file of the commit is the test file of a failed module.
abbrev pub changes : List Str → Commit → Bool
changes paths c = any (λ f. any (λ path. is_file f.0 f.1 path false) paths) c.files

-- Another file of the commit is in the stack trace.
abbrev pub on_stack : List Str → List Str → Commit → Bool
on_stack paths frames c =
    any
      (λ f.
        not (any (λ path. is_file f.0 f.1 path false) paths)
        && any (λ frame. is_file f.0 f.1 frame true) frames)
      c.files

abbrev module_commit : List Str → List Str → Commit → Marked
module_commit paths frames c =
    (codes "[failed module]" ∷ (if on_stack paths frames c then codes "[stack]" ∷ [] else []), c)

abbrev stack_commit : Commit → Marked
stack_commit c = (codes "[stack]" ∷ [], c)

-- The commits that change a failed module, in their order, and then the others that change a file of
-- the stack trace, each with its marks.
abbrev pub relevant : List Commit → List Str → List Str → List Marked
relevant found paths frames =
    map (module_commit paths frames) (filter (changes paths) found)
    ++ map stack_commit (filter (λ c. not (changes paths c) && on_stack paths frames c) found)

any-length {ℓ} : {A : Type ℓ} (p : A → Bool) (xs : List A) → ltb 0 (length (filter p xs)) ≡ any p xs
any-length p [] = refl
any-length p (x ∷ xs) = ground (arith, any-length p xs)

any-filter {ℓ} :
    {A : Type ℓ} (p q : A → Bool) (xs : List A) → any q (filter p xs) ≡ any (λ x. p x && q x) xs
any-filter p q [] = refl
any-filter p q (x ∷ xs) = elim (Bool-cases (p x)) [
  | inl e ↦ rw (e, any-filter p q xs) refl
  | inr e ↦ rw (e, any-filter p q xs) refl
]

abbrev marks_if : Bool → Bool → List Str
marks_if in_module in_stack =
    (if in_module then codes "[failed module]" ∷ [] else [])
    ++ (if in_stack then codes "[stack]" ∷ [] else [])

marks_lem :
    (c : Commit) (paths frames : List Str)
    → marks c.files paths frames ≡ marks_if (changes paths c) (on_stack paths frames c)
unfolding marks
marks_lem c paths frames =
    let p = is_module_file paths in
    ap (λ b. marks_if b (any (is_frame_file frames) (filter (λ f. not (p f)) c.files)))
      (any-length p c.files)
    ∙ ap (marks_if (changes paths c)) (any-filter (λ f. not (p f)) (is_frame_file frames) c.files)

abbrev marked_of : List Str → List Str → List Commit → List Marked
marked_of paths frames found = filter is_marked (map (with_marks paths frames) found)

-- The commits of the first kind among the marked ones, and those of the second.
module_part :
    (paths frames : List Str) (found : List Commit)
    → filter touches_module (marked_of paths frames found)
      ≡ map (module_commit paths frames) (filter (changes paths) found)
unfolding in_lines eqb
module_part paths frames [] = refl
module_part paths frames (c ∷ found) =
    let ih = module_part paths frames found in
    rw (marks_lem c paths frames) (elim (Bool-cases (changes paths c)) [
      | inl e ↦ elim (Bool-cases (on_stack paths frames c)) [
        | inl s ↦ rw (e, s) (ap (λ l. (codes "[failed module]" ∷ codes "[stack]" ∷ [], c) ∷ l) ih)
        | inr s ↦ rw (e, s) (ap (λ l. (codes "[failed module]" ∷ [], c) ∷ l) ih)
      ]
      | inr e ↦ elim (Bool-cases (on_stack paths frames c)) [
        | inl s ↦ rw (e, s) ih
        | inr s ↦ rw (e, s) ih
      ]
    ])

stack_part :
    (paths frames : List Str) (found : List Commit)
    → filter (λ m. not (touches_module m)) (marked_of paths frames found)
      ≡ map stack_commit (filter (λ c. not (changes paths c) && on_stack paths frames c) found)
unfolding in_lines eqb
stack_part paths frames [] = refl
stack_part paths frames (c ∷ found) =
    let ih = stack_part paths frames found in
    rw (marks_lem c paths frames) (elim (Bool-cases (changes paths c)) [
      | inl e ↦ rw e ih
      | inr e ↦ elim (Bool-cases (on_stack paths frames c)) [
        | inl s ↦ rw (e, s) (ap (λ l. stack_commit c ∷ l) ih)
        | inr s ↦ rw (e, s) ih
      ]
    ])

marked_commits-relevant :
    (found : List Commit) (paths frames : List Str)
    → marked_commits found paths frames ≡ relevant found paths frames
unfolding marked_commits
marked_commits-relevant found paths frames =
    let front = map (module_commit paths frames) (filter (changes paths) found) in
    sort_by-parts touches_module (marked_of paths frames found)
    ∙ ap (λ l. l ++ filter (λ m. not (touches_module m)) (marked_of paths frames found))
        (module_part paths frames found)
    ∙ ap (λ l. front ++ l) (stack_part paths frames found)

-- At most ten commits are listed: the first ten of those that change the test file of a failed module,
-- followed by those others that change another file of the stack trace, both in their order and
-- with their marks. Those that are listed, the marked ones that are only counted and the others are
-- as many as the commits, and ten are listed if a marked one is only counted.
pub summary_lem :
    (found : List Commit) (paths frames : List Str)
    → let s = summary found paths frames in
      (s.shown ≡ map shown_commit (take 10 (relevant found paths frames)))
      × (length s.shown ≤ 10)
      × (length s.shown + s.more + s.others ≡ length found)
      × (0 < s.more → length s.shown ≡ 10)
unfolding summary
summary_lem found paths frames =
    let marked = marked_commits found paths frames in
    let same = length-map shown_commit (take 10 marked) in
    let few = length-take_le 10 marked in
    let cut = length-take-drop 10 marked in
    (
      ap (λ l. map shown_commit (take 10 l)) (marked_commits-relevant found paths frames),
      omega (arith, same, few),
      omega (arith, same, cut, length-marked_commits found paths frames),
      λ h. omega (arith, same, few, cut, h),
    )

from_slash-Tail :
    (whole s : Str) (skipped : Str)
    → whole ≡ skipped ++ s
    → (head : Str) × (whole ≡ head ++ from_slash whole s)
from_slash-Tail whole [] skipped h = ([], refl)
from_slash-Tail whole (c ∷ s) skipped h = elim (Bool-cases (c == b'/')) [
  | inl e ↦ rw e (skipped, h)
  | inr e ↦
      rw e
        (from_slash-Tail whole s (skipped ++ (c ∷ [])) (h ∙ sym (append_assoc skipped (c ∷ []) s)))
]

-- A path that fits into the column is shown in whole. Of one that does not, a tail is shown behind
-- `...`, and a column of three characters at least is not exceeded.
pub abbreviated_lem :
    (path : Str) (width : ℕ)
    → ((length path ≤ width) × (abbreviated path width ≡ path))
      ⊎ ((head tail : Str) × (abbreviated path width ≡ codes "..." ++ tail)
          × (path ≡ head ++ tail)
          × (3 ≤ width → length (abbreviated path width) ≤ width))
unfolding abbreviated
abbreviated_lem path width =
    let n = length path - (width - 3) in
    let kept = drop n path in
    let (head, e) = from_slash-Tail kept kept [] refl in
    let tail = from_slash kept kept in
    elim (Bool-cases (leb (length path) width)) [
      | inl fits ↦ inl (leb→le _ _ fits, rw fits refl)
      | inr over ↦
          let shorter : length tail ≤ length kept =
            omega (arith, ap length e, length-append head tail) in
          inr (
            take n path ++ head,
            tail,
            rw over refl,
            append-take-drop n path
                ∙ ap (λ t. take n path ++ t) e
                ∙ sym (append_assoc (take n path) head tail),
            rw over (λ h. omega (arith, h, shorter, length-drop n path, leb→gt _ _ over)),
          )
    ]
