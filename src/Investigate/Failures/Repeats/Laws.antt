-- ===== src/Investigate/Failures/Repeats/Laws.antt =====
-- What `group_repeated_failures` tells of each failure.
use os_autoinst_scripts.Prelude.{
  ℕ, ◌≡◌, refl, Bool, true, false, Option, none, some, List, [], ◌∷◌, ◌++◌, map, append_assoc,
  append-nil, if◌then◌else◌, filter, ◌∙◌, sym, ap,
}
use os_autoinst_scripts.Py.Str.{Str, eqb, eqb_iff}
use os_autoinst_scripts.Py.Dict.{Dict, lookup, insert, lookup-insert, keys}
use os_autoinst_scripts.Py.Dict.Keys.{keys-step}
use os_autoinst_scripts.Py.Text.{in_lines, unique, unique_from}
use os_autoinst_scripts.Investigate.Step.{Step, num_of}
use os_autoinst_scripts.Investigate.Failures.Repeats.{
  Group, failure_key, with_repeat, add_repeats, repeats_by_key,
}

-- The group of the steps with a key, from what is known of the group already.
abbrev pub continued : Option Group → List Step → Option Group
continued g [] = g
continued g (d ∷ ds) = continued (some (with_repeat d g)) ds

continued-some :
    (first : Step) (nums : List ℕ) (ds : List Step)
    → continued (some (first, nums)) ds ≡ some (first, nums ++ map num_of ds)
continued-some first nums [] = ap (λ x. some (first, x)) (sym (append-nil nums))
continued-some first nums (d ∷ ds) =
    continued-some first (nums ++ (num_of d ∷ [])) ds
    ∙ ap (λ x. some (first, x)) (append_assoc nums (num_of d ∷ []) (map num_of ds))

-- A step joins the group of its own key, and leaves the others as they are.
continued-if :
    (key : Str) (groups : Dict Group) (d : Step) (ds : List Step) (b : Bool)
    → eqb (failure_key d) key ≡ b
    → continued
        (if b then some (with_repeat d (lookup (failure_key d) groups)) else lookup key groups)
        ds
      ≡ continued (lookup key groups) (if b then d ∷ ds else ds)
continued-if key groups d ds false h = refl
continued-if key groups d ds true h =
    ap (λ k. continued (some (with_repeat d (lookup k groups))) ds)
      ((eqb_iff (failure_key d) key).0 h)

lookup-add_repeats :
    (key : Str) (groups : Dict Group) (ds : List Step)
    → lookup key (add_repeats groups ds)
      ≡ continued (lookup key groups) (filter (λ d. eqb (failure_key d) key) ds)
unfolding add_repeats
lookup-add_repeats key groups [] = refl
lookup-add_repeats key groups (d ∷ ds) =
    let g = with_repeat d (lookup (failure_key d) groups) in
    let same = filter (λ (e : Step). eqb (failure_key e) key) ds in
    lookup-add_repeats key (insert (failure_key d) g groups) ds
    ∙ ap (λ o. continued o same) (lookup-insert (failure_key d) key g groups)
    ∙ continued-if key groups d same (eqb (failure_key d) key) refl

-- The first of the steps with the numbers of the others.
abbrev pub as_group : List Step → Option Group
as_group [] = none
as_group (d ∷ ds) = some (d, map num_of ds)

continued-none : (ds : List Step) → continued none ds ≡ as_group ds
continued-none [] = refl
continued-none (d ∷ ds) = continued-some d [] ds

keys-add_repeats :
    (groups : Dict Group) (seen : List Str) (ds : List Step)
    → ((k : Str) → in_lines k seen ≡ in_lines k (keys groups))
    → keys (add_repeats groups ds) ≡ keys groups ++ unique_from seen (map failure_key ds)
unfolding add_repeats unique_from
keys-add_repeats groups seen [] h = sym (append-nil (keys groups))
keys-add_repeats groups seen (d ∷ ds) h =
    let k = failure_key d in
    let v = with_repeat d (lookup k groups) in
    keys-step k v groups seen (map failure_key ds) (λ g. keys (add_repeats g ds)) h
      (λ s e. keys-add_repeats (insert k v groups) s ds e)

-- Each normalised text of a failure has one entry, in the order in which the texts first come. It
-- holds the first step with that text, and the numbers of all other steps that have it, in their
-- order; there is no entry under any other text.
pub repeats_by_key_lem :
    (cluster : List Step)
    → (keys (repeats_by_key cluster) ≡ unique (map failure_key cluster))
      × ((key : Str)
          → lookup key (repeats_by_key cluster)
            ≡ as_group (filter (λ d. eqb (failure_key d) key) cluster))
unfolding repeats_by_key lookup unique
repeats_by_key_lem cluster = (
  keys-add_repeats [] [] cluster (λ k. refl),
  λ key.
      lookup-add_repeats key [] cluster
      ∙ continued-none (filter (λ d. eqb (failure_key d) key) cluster),
)
