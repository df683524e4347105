-- ===== src/Reaper/Check/Pids/Laws.antt =====
-- Which processes are reported, and in which order.
use os_autoinst_scripts.Prelude.{
  ◌≡◌, refl, ◌∙◌, inl, inr, Bool, true, false, ◌&&◌, ◌||◌, All, some, List, [], ◌∷◌, arith, filter,
  leb, Bool-cases, Option-cases,
}
use os_autoinst_scripts.Py.Str.{Str, eqb, eqb_iff}
use os_autoinst_scripts.Py.Num.{all_digits, int_from}
use os_autoinst_scripts.Reaper.Check.Pids.{
  member, distinct_lines, stuck, leb_text, pid_leb, insert_pid, sort_pids,
}

member-distinct_lines : (l : Str) (ls : List Str) → member l (distinct_lines ls) ≡ member l ls
unfolding member distinct_lines
member-distinct_lines l [] = refl
member-distinct_lines l (k ∷ ls) =
    ground (arith, member-distinct_lines l ls, member-distinct_lines k ls, eqb_iff l k)

member-filter :
    (l : Str) (p : Str → Bool) (ls : List Str) → member l (filter p ls) ≡ (member l ls && p l)
unfolding member
member-filter l p [] = refl
member-filter l p (k ∷ ls) = ground (arith, member-filter l p ls, eqb_iff l k)

-- A line counts as a persistent process exactly if both samples show it.
pub member-stuck :
    (line : Str) (initial verified : List Str)
    → member line (stuck initial verified) ≡ (member line initial && member line verified)
unfolding stuck
member-stuck line initial verified =
    member-distinct_lines line _ ∙ member-filter line (λ l. member l verified) initial

-- No pid stands before a smaller one.
abbrev pub IsSorted : List Str → Type 0
IsSorted [] = Unit
IsSorted (x ∷ []) = Unit
IsSorted (x ∷ y ∷ ys) = (pid_leb x y ≡ some true) × IsSorted (y ∷ ys)

leb_text_total : (s t : Str) → leb_text s t ≡ false → leb_text t s ≡ true
unfolding leb_text
leb_text_total [] t h = cc
leb_text_total (c ∷ s) [] h = refl
leb_text_total (c ∷ s) (d ∷ t) h = ground (arith, leb_text_total s t)

pid_leb_total : (x y : Str) → pid_leb x y ≡ some false → pid_leb y x ≡ some true
unfolding pid_leb
pid_leb_total x y h = ground (arith, leb_text_total x y)

insert_pid-below :
    (y x : Str) (ys zs : List Str)
    → pid_leb y x ≡ some true
    → IsSorted (y ∷ ys)
    → insert_pid x ys ≡ some zs
    → IsSorted (y ∷ zs)
unfolding insert_pid
insert_pid-below y x [] zs h sorted e = ground (arith, h)
insert_pid-below y x (z ∷ ys) zs h sorted e = elim (Option-cases (insert_pid x ys)) [
  | inl n ↦ ground (arith, n)
  | inr (ws, w) ↦ ground (arith, w, pid_leb_total x z, insert_pid-below z x ys ws)
]

insert_pid-IsSorted :
    (x : Str) (ys zs : List Str) → IsSorted ys → insert_pid x ys ≡ some zs → IsSorted zs
unfolding insert_pid
insert_pid-IsSorted x [] zs sorted e = ground arith
insert_pid-IsSorted x (y ∷ ys) zs sorted e = elim (Option-cases (insert_pid x ys)) [
  | inl n ↦ ground (arith, n)
  | inr (ws, w) ↦ ground (arith, w, pid_leb_total x y, insert_pid-below y x ys ws)
]

member-insert_pid :
    (l x : Str) (ys zs : List Str)
    → insert_pid x ys ≡ some zs
    → member l zs ≡ (eqb l x || member l ys)
unfolding insert_pid member
member-insert_pid l x [] zs e = ground arith
member-insert_pid l x (y ∷ ys) zs e = elim (Option-cases (insert_pid x ys)) [
  | inl n ↦ ground (arith, n)
  | inr (ws, w) ↦ ground (arith, w, member-insert_pid l x ys ws)
]

-- The pids that `sorted` returns are in order, numbers by value, and they are those that were given.
pub sort_pids_lem :
    (xs ys : List Str)
    → sort_pids xs ≡ some ys
    → IsSorted ys × ((pid : Str) → member pid ys ≡ member pid xs)
unfolding sort_pids member
sort_pids_lem [] ys e = let empty : [] ≡ ys = cc in rw (← empty) (tt, λ pid. refl)
sort_pids_lem (x ∷ xs) ys e = elim (Option-cases (sort_pids xs)) [
  | inl n ↦ absurd (ground (arith, n))
  | inr (ws, w) ↦
      let h : insert_pid x ws ≡ some ys = ground (arith, w) in
      let (sorted, same) = sort_pids_lem xs ws w in
      (
        insert_pid-IsSorted x ws ys sorted h,
        λ pid. ground (arith, member-insert_pid pid x ws ys h, same pid),
      )
]

abbrev pub AllNumbers : List Str → Type 0
AllNumbers = All (λ x. all_digits x ≡ true)

insert_pid-total :
    (x : Str) (ys : List Str)
    → all_digits x ≡ true
    → AllNumbers ys
    → (zs : List Str) × (insert_pid x ys ≡ some zs) × AllNumbers zs
unfolding insert_pid pid_leb
insert_pid-total x [] d h = (x ∷ [], refl, (d, tt))
insert_pid-total x (y ∷ ys) d h =
    let (ws, w, k) = insert_pid-total x ys d h.1 in
    elim (Bool-cases (leb (int_from 0 x) (int_from 0 y))) [
      | inl before ↦ (x ∷ y ∷ ys, ground (arith, d, h.0), (d, h))
      | inr after ↦ (y ∷ ws, ground (arith, d, h.0, w), (h.0, k))
    ]

-- Sorting pids that are all numbers, as the detector prints them, does not raise.
pub sort_pids-total :
    (xs : List Str) → AllNumbers xs → (ys : List Str) × (sort_pids xs ≡ some ys) × AllNumbers ys
unfolding sort_pids
sort_pids-total [] h = ([], refl, tt)
sort_pids-total (x ∷ xs) h =
    let (ws, w, k) = sort_pids-total xs h.1 in
    let (zs, z, l) = insert_pid-total x ws h.0 k in (zs, ground (arith, w, z), l)
