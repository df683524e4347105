-- ===== src/PowerManagement/Counts.antt =====
-- The machines in the lists of openqa-powermanagement.py, counted.
use os_autoinst_scripts.Prelude.{
  ℕ, ◌-◌, ◌≡◌, refl, Bool, true, false, ◌&&◌, not, List, [], ◌∷◌, arith, if◌then◌else◌, length,
  filter, any, ap, ◌∙◌, ltb,
}
use os_autoinst_scripts.Py.Str.{Str, codes, eqb, eqb_iff}
use os_autoinst_scripts.Py.Sort.{count-sort_by}
use os_autoinst_scripts.Py.Text.{in_lines, leb_text, unique, unique_from}
use os_autoinst_scripts.PowerManagement.{
  Worker, sorted_set, hosts_with, remove_first, remove_each, machines_of,
}

-- How often a machine is in a list.
abbrev count : Str → List Str → ℕ
count m xs = length (filter (eqb m) xs)

abbrev one_if : Bool → ℕ
one_if true = 1
one_if false = 0

in_lines-count : (m : Str) (xs : List Str) → in_lines m xs ≡ ltb 0 (count m xs)
unfolding in_lines
in_lines-count m [] = refl
in_lines-count m (x ∷ xs) = ground (arith, in_lines-count m xs)

count-unique_from :
    (m : Str) (seen xs : List Str)
    → count m (unique_from seen xs) ≡ (if in_lines m seen then 0 else one_if (in_lines m xs))
unfolding unique_from in_lines
count-unique_from m seen [] = ground arith
count-unique_from m seen (x ∷ xs) =
    ground (arith, count-unique_from m seen xs, count-unique_from m (x ∷ seen) xs, eqb_iff m x)

count-sorted_set : (m : Str) (xs : List Str) → count m (sorted_set xs) ≡ one_if (in_lines m xs)
unfolding sorted_set unique
count-sorted_set m xs = count-sort_by leb_text (eqb m) (unique xs) ∙ count-unique_from m [] xs

pub in_lines-sorted_set : (m : Str) (xs : List Str) → in_lines m (sorted_set xs) ≡ in_lines m xs
in_lines-sorted_set m xs = ground (arith, in_lines-count m (sorted_set xs), count-sorted_set m xs)

count-remove_first :
    (m x : Str) (xs : List Str) → count m (remove_first x xs) ≡ count m xs - one_if (eqb m x)
unfolding remove_first
count-remove_first m x [] = ground arith
count-remove_first m x (y ∷ xs) =
    ground (arith, count-remove_first m x xs, eqb_iff m x, eqb_iff y x, eqb_iff m y)

removed_once :
    (m y : Str) (xs : List Str)
    → count m (if in_lines y xs then remove_first y xs else xs) ≡ count m xs - one_if (eqb m y)
removed_once m y xs =
    ground (arith, count-remove_first m y xs, in_lines-count y xs, in_lines-count m xs, eqb_iff m y)

count-remove_each :
    (m : Str) (ys xs : List Str) → count m (remove_each ys xs) ≡ count m xs - count m ys
unfolding remove_each
count-remove_each m [] xs = omega arith
count-remove_each m (y ∷ ys) xs = ground (
  arith,
  count-remove_each m ys (if in_lines y xs then remove_first y xs else xs),
  removed_once m y xs,
)

-- A worker of the machine has the status.
abbrev pub has : Str → Str → List Worker → Bool
has m status workers = any (λ (w : Worker). eqb m w.host && eqb w.status status) workers

in_lines-hosts_with :
    (m status : Str) (workers : List Worker)
    → in_lines m (hosts_with status workers) ≡ has m status workers
unfolding hosts_with in_lines
in_lines-hosts_with m status [] = refl
in_lines-hosts_with m status (w ∷ workers) = ground (arith, in_lines-hosts_with m status workers)

count-hosts :
    (m status : Str) (workers : List Worker)
    → count m (sorted_set (hosts_with status workers)) ≡ one_if (has m status workers)
count-hosts m status workers =
    count-sorted_set m (hosts_with status workers)
    ∙ ap one_if (in_lines-hosts_with m status workers)

abbrev pub idle : Str
idle = codes "idle"

abbrev pub dead : Str
dead = codes "dead"

abbrev pub running : Str
running = codes "running"

abbrev pub broken : Str
broken = codes "broken"

count-idle :
    (m : Str) (workers : List Worker)
    → count m (machines_of workers).idle
      ≡ one_if (has m idle workers && not (has m running workers))
unfolding machines_of
count-idle m workers =
    let busy = sorted_set (hosts_with running workers) in
    ground (
      arith,
      count-remove_each m busy (sorted_set (hosts_with idle workers)),
      count-hosts m running workers,
      count-hosts m idle workers,
    )

pub in_lines-idle :
    (m : Str) (workers : List Worker)
    → in_lines m (machines_of workers).idle ≡ (has m idle workers && not (has m running workers))
in_lines-idle m workers =
    ground (arith, in_lines-count m (machines_of workers).idle, count-idle m workers)

pub in_lines-offline :
    (m : Str) (workers : List Worker)
    → in_lines m (machines_of workers).offline
      ≡ (has m dead workers && not (has m running workers) && not (has m idle workers))
unfolding machines_of
in_lines-offline m workers =
    let busy = sorted_set (hosts_with running workers) in
    let off = remove_each busy (sorted_set (hosts_with dead workers)) in
    let kept = remove_each busy (sorted_set (hosts_with idle workers)) in
    ground (
      arith,
      in_lines-count m (remove_each kept off),
      count-remove_each m kept off,
      count-remove_each m busy (sorted_set (hosts_with dead workers)),
      count-remove_each m busy (sorted_set (hosts_with idle workers)),
      count-hosts m running workers,
      count-hosts m idle workers,
      count-hosts m dead workers,
    )

pub in_lines-broken :
    (m : Str) (workers : List Worker)
    → in_lines m (machines_of workers).broken ≡ has m broken workers
unfolding machines_of
in_lines-broken m workers =
    in_lines-sorted_set m (hosts_with broken workers) ∙ in_lines-hosts_with m broken workers
