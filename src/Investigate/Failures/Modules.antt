-- ===== src/Investigate/Failures/Modules.antt =====
-- The modules of a job: openqa_llm_investigate/failures.py.
use os_autoinst_scripts.Prelude.{
  ℕ, suc, ◌-◌, ◌==◌, if◌then◌else◌, option_map, ◌≡◌, refl, Bool, true, false, ◌&&◌, ◌||◌, Option,
  none, some, List, [], ◌∷◌, ◌++◌, map, arith, leb, length, take, drop, filter, filter-same, not,
  ap, sym, ◌∙◌,
}
use os_autoinst_scripts.Py.Sort.{
  sort_by, is_sorted, is_sorted-same, is_sorted-sort_by, count-sort_by,
}
use os_autoinst_scripts.Py.Str.{Str, codes, eqb}
use os_autoinst_scripts.Py.Text.{or_empty}
use os_autoinst_scripts.Investigate.Step.{Step, num_of, is_fail}
use os_autoinst_scripts.Investigate.Failures.{least}

pub record Module : Type 0 where
  -- the identity of the object: its place among the modules of the job
  pub place : ℕ
  pub name : Option Str
  pub category : Option Str
  pub result : Option Str
  pub details : Option (List Step)

abbrev pub details_of : Module → List Step
details_of m = elim m.details [ none ↦ [] | some ds ↦ ds ]

-- Infinity, for a module without a failing step, is `none`.
unfoldable pub first_fail_num : Module → Option ℕ
unfolding is_fail
first_fail_num m = least (map num_of (filter is_fail (details_of m)))

abbrev pub leb_num : Option ℕ → Option ℕ → Bool
leb_num (some a) (some b) = leb a b
leb_num (some a) none = true
leb_num none (some b) = false
leb_num none none = true

abbrev pub leb_step : Step → Step → Bool
leb_step d e = leb (num_of d) (num_of e)

abbrev pub leb_module : Module → Module → Bool
leb_module m n = leb_num (first_fail_num m) (first_fail_num n)

unfoldable pub is_failed : Bool → Module → Bool
unfolding eqb
is_failed include_softfailed m =
    eqb (or_empty m.result) (codes "failed")
    || (include_softfailed && eqb (or_empty m.result) (codes "softfailed"))

abbrev pub sort_details : Option (List Step) → Option (List Step)
sort_details none = none
sort_details (some ds) = some (sort_by leb_step ds)

abbrev pub with_sorted_details : Module → Module
with_sorted_details m = record {
  place = m.place;
  name = m.name;
  category = m.category;
  result = m.result;
  details = sort_details m.details;
}

unfoldable pub extract_failed_modules : List Module → Bool → List Module
unfolding sort_by first_fail_num is_failed
extract_failed_modules modules include_softfailed =
    sort_by leb_module (map with_sorted_details (filter (is_failed include_softfailed) modules))

-- `previous_modules`, for the place of the module in the list, if it stands there
unfoldable pub previous_modules : List Module → Option ℕ → ℕ → List Module
previous_modules all_modules none n = []
previous_modules all_modules (some idx) n = drop (idx - n) (take idx all_modules)

-- `next((i for i, m in enumerate(all_modules) if m is module), None)`
unfoldable pub place_among : Module → List Module → Option ℕ
place_among m [] = none
place_among m (k ∷ modules) =
    let later = option_map suc (place_among m modules) in
    if k.place == m.place then some 0 else later

-- `extract_failed_modules` sorts the details of the failed modules of the answer itself.
unfoldable pub sorted_in_place : List Module → Bool → List Module
unfolding is_failed sort_by
sorted_in_place modules include_softfailed =
    map (λ m. if is_failed include_softfailed m then with_sorted_details m else m) modules

-- A missing category or name is printed as None.
abbrev pub or_none : Option Str → Str
or_none none = codes "None"
or_none (some s) = s

unfoldable pub module_key : Module → Str
module_key m = or_none m.category ++ (codes "/" ++ or_none m.name)

leb_num-total : (a b : Option ℕ) → (leb_num a b || leb_num b a) ≡ true
leb_num-total (some a) (some b) = ground arith
leb_num-total (some a) none = refl
leb_num-total none (some b) = refl
leb_num-total none none = refl

-- The result of the module is failed, or softfailed where those count.
abbrev pub has_failed : Bool → Module → Bool
has_failed include_softfailed m = elim m.result [
  | none ↦ false
  | some r ↦ eqb r (codes "failed") || (include_softfailed && eqb r (codes "softfailed"))
]

abbrev lesser : ℕ → Option ℕ → Option ℕ
lesser n none = some n
lesser n (some k) = if leb n k then some n else some k

abbrev is_failing : Step → Bool
is_failing d = elim d.result [ none ↦ false | some r ↦ eqb r (codes "fail") ]

-- The lowest number of a step whose result is fail.
abbrev pub lowest : List Step → Option ℕ
lowest [] = none
lowest (d ∷ ds) = if is_failing d then lesser (num_of d) (lowest ds) else lowest ds

-- Modules by that number, those without one at the end.
abbrev pub fails_first : Module → Module → Bool
fails_first m n = leb_num (lowest (details_of m)) (lowest (details_of n))

is_failed-has_failed : (b : Bool) (m : Module) → is_failed b m ≡ has_failed b m
unfolding is_failed
is_failed-has_failed b m = ground arith

least-lowest : (ds : List Step) → least (map num_of (filter is_fail ds)) ≡ lowest ds
unfolding is_fail
least-lowest [] = refl
least-lowest (d ∷ ds) = ground (arith, least-lowest ds)

leb_module-fails_first : (m n : Module) → leb_module m n ≡ fails_first m n
unfolding first_fail_num
leb_module-fails_first m n = rw (least-lowest (details_of m), least-lowest (details_of n)) refl

-- The steps of a module are not in the order of their numbers.
abbrev pub is_unordered : Module → Bool
is_unordered m = not (is_sorted (λ d e. leb (num_of d) (num_of e)) (details_of m))

sort_details-ordered : (m : Module) → is_unordered (with_sorted_details m) ≡ false
sort_details-ordered m = go m.details
  where
    go :
        (o : Option (List Step))
        → not (
            is_sorted
              (λ d e. leb (num_of d) (num_of e))
              (elim (sort_details o) [ none ↦ [] | some ds ↦ ds ]))
          ≡ false
    go none = refl
    go (some ds) = ap not (is_sorted-sort_by leb_step (λ d e. ground arith) ds)

none_unordered : (ms : List Module) → length (filter is_unordered (map with_sorted_details ms)) ≡ 0
none_unordered [] = refl
none_unordered (m ∷ ms) = rw (sort_details-ordered m) (none_unordered ms)

-- The modules that failed, or softfailed where those count, come out by the lowest number of a failing
-- step, those without one at the end, and with the steps of each in the order of their numbers. Of
-- every kind there are as many as among the failed modules that went in, with their steps sorted.
pub extract_failed_modules_lem :
    (modules : List Module) (include_softfailed : Bool)
    → let found = extract_failed_modules modules include_softfailed in
      (is_sorted fails_first found ≡ true)
      × (length (filter is_unordered found) ≡ 0)
      × ((p : Module → Bool)
          → length (filter p found)
            ≡ length (
                filter p
                  (map with_sorted_details (filter (has_failed include_softfailed) modules))))
unfolding extract_failed_modules
extract_failed_modules_lem modules include_softfailed =
    let failed = map with_sorted_details (filter (is_failed include_softfailed) modules) in
    let same =
      filter-same (is_failed include_softfailed) (has_failed include_softfailed)
        (is_failed-has_failed include_softfailed) modules in
    (
      sym (is_sorted-same leb_module fails_first leb_module-fails_first (sort_by leb_module failed))
          ∙ is_sorted-sort_by leb_module
              (λ m n. leb_num-total (first_fail_num m) (first_fail_num n)) failed,
      count-sort_by leb_module is_unordered failed
          ∙ none_unordered (filter (is_failed include_softfailed) modules),
      λ p.
          count-sort_by leb_module p failed
          ∙ ap (λ ms. length (filter p (map with_sorted_details ms))) same,
    )
