-- ===== src/Investigate/Text/Lines/Frames.antt =====
-- What `trim_stack_frames`, `_keep_tail` and `_capped` keep, and how long their results are.
use os_autoinst_scripts.Prelude.{
  ℕ, suc, ◌+◌, ◌-◌, ◌≤◌, ◌≡◌, some, List, [], ◌∷◌, ◌++◌, arith, leb, ltb, if◌then◌else◌, length,
  take, length-append, length-drop, length-take, Bool-cases, inl, inr,
}
use os_autoinst_scripts.Py.Str.{Str, codes}
use os_autoinst_scripts.Py.Num.{decimal}
use os_autoinst_scripts.Investigate.Text.Lines.{
  is_frame, flushed, trim_from, trim_stack_frames, keep_tail, capped,
}

length-flushed : (skipped : List Str) → length (flushed skipped) ≤ length skipped
unfolding flushed
length-flushed [] = omega arith
length-flushed (line ∷ skipped) = omega arith

length-trim_from :
    (keep run : ℕ) (skipped lines : List Str)
    → length (trim_from keep run skipped lines) ≤ length skipped + length lines
unfolding trim_from
length-trim_from keep run skipped [] = omega (arith, length-flushed skipped)
length-trim_from keep run skipped (line ∷ lines) = ground (
  arith,
  length-flushed skipped,
  length-append skipped (line ∷ []),
  length-append (flushed skipped) (line ∷ trim_from keep 0 [] lines),
  length-trim_from keep (suc run) (skipped ++ (line ∷ [])) lines,
  length-trim_from keep (suc run) skipped lines,
  length-trim_from keep 0 [] lines,
)

-- The first list is what is left of the second when lines are taken out.
pub data Within : List Str → List Str → Type 0 where
  none_left : Within [] []
  kept : {l : Str} {ls ks : List Str} → Within ls ks → Within (l ∷ ls) (l ∷ ks)
  added : {l : Str} {ls ks : List Str} → Within ls ks → Within ls (l ∷ ks)

-- The lines but those frames that stand behind `keep` others in their run.
abbrev pub shown_frames : ℕ → ℕ → List Str → List Str
shown_frames keep run [] = []
shown_frames keep run (line ∷ lines) =
    let next = shown_frames keep (suc run) lines in
    let other = shown_frames keep 0 lines in
    if is_frame line then (if ltb keep (suc run) then next else line ∷ next) else line ∷ other

Within-append : (ks : List Str) {ls ms : List Str} → Within ls ms → Within ls (ks ++ ms)
Within-append [] h = h
Within-append (k ∷ ks) h = added (Within-append ks h)

Within-flushed : (skipped : List Str) → Within [] (flushed skipped)
unfolding flushed
Within-flushed [] = none_left
Within-flushed (line ∷ skipped) = added none_left

Within-trim_from :
    (keep run : ℕ) (skipped lines : List Str)
    → Within (shown_frames keep run lines) (trim_from keep run skipped lines)
unfolding trim_from
Within-trim_from keep run skipped [] = Within-flushed skipped
Within-trim_from keep run skipped (line ∷ lines) = elim (Bool-cases (is_frame line)) [
  | inl frame ↦ elim (Bool-cases (ltb keep (suc run))) [
    | inl surplus ↦
        rw (frame, surplus) (Within-trim_from keep (suc run) (skipped ++ (line ∷ [])) lines)
    | inr within ↦ rw (frame, within) (kept (Within-trim_from keep (suc run) skipped lines))
  ]
  | inr other ↦ rw other (Within-append (flushed skipped) (kept (Within-trim_from keep 0 [] lines)))
]

-- `trim_stack_frames` keeps, in their order, all lines but the frames behind the first `keep` of
-- their run, and its result with the notes is not longer than what it was given.
pub trim_stack_frames_lem :
    (keep : ℕ) (lines : List Str)
    → Within (shown_frames keep 0 lines) (trim_stack_frames keep lines)
      × (length (trim_stack_frames keep lines) ≤ length lines)
unfolding trim_stack_frames
trim_stack_frames_lem keep lines =
    (Within-trim_from keep 0 [] lines, omega (arith, length-trim_from keep 0 [] lines))

-- A log that is cut to its tail has the note and as many lines as asked, and a log that is short
-- enough is kept as it is.
pub length-keep_tail :
    (lines : List Str) (n : ℕ)
    → length (keep_tail lines (some n)) ≡ (if leb (length lines) n then length lines else suc n)
unfolding keep_tail
length-keep_tail lines n = ground (arith, length-drop (length lines - n) lines)

-- A text that is capped has as many lines as asked and the note, and a text that is short enough is
-- kept as it is.
pub length-capped :
    (lines : List Str) (n : ℕ)
    → length (capped lines n) ≡ (if leb (length lines) n then length lines else suc n)
unfolding capped
length-capped lines n =
    let note = codes "... (" ++ (decimal (length lines - n) ++ codes " more lines)") in
    ground (arith, length-take n lines, length-append (take n lines) (note ∷ []))
