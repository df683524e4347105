-- ===== src/Investigate/Text/Bounds.antt =====
-- How much of a failure and of the output of a command is shown.
use os_autoinst_scripts.Prelude.{
  ℕ, zero, suc, ◌-◌, ◌≤◌, List, map, arith, length, drop, filter, length-drop, Option-cases, inl,
  inr, Bool-cases,
}
use os_autoinst_scripts.Py.Str.{Str, codes, split}
use os_autoinst_scripts.Py.Text.{partition_at}
use os_autoinst_scripts.Investigate.Text.Lines.{capped, is_text}
use os_autoinst_scripts.Investigate.Text.Lines.Frames.{length-capped}
use os_autoinst_scripts.Investigate.Text.Noise.{split_died_text, clean_died_text, split_at_mark}
use os_autoinst_scripts.Investigate.Text.Summary.{tail_of, step_output_tail, is_output, shown_line}

capped-bound : (lines : List Str) (n : ℕ) → length (capped lines n) ≤ suc n
capped-bound lines n = ground (arith, length-capped lines n)

-- Of a failure at most `max_lines` lines of the message and of the stack trace are shown, each part
-- with a note if it was cut.
pub split_died_text-bounds :
    (text : Str) (max_lines : ℕ)
    → (length (split_died_text text max_lines).0 ≤ suc max_lines)
      × (length (split_died_text text max_lines).1 ≤ suc max_lines)
unfolding split_died_text
split_died_text-bounds text max_lines =
    let lines = split 10 (clean_died_text text (length (split 10 text))) in
    let parts = split_at_mark lines in
    elim (Bool-cases (is_text text)) [
      | inl e ↦ rw e (capped-bound parts.0 max_lines, capped-bound parts.1 max_lines)
      | inr e ↦ rw e (omega arith, omega arith)
    ]

length-tail_of : (n : ℕ) (body : List Str) → length (tail_of (suc n) body) ≤ suc (suc n)
unfolding tail_of
length-tail_of n body = ground (arith, length-drop (length body - suc n) body)

-- For n ≥ 1, at most the last `n` lines of the output of a command are shown, and a note if there
-- are more.
pub step_output_tail-bound :
    (text_data : Str) (n : ℕ) → 1 ≤ n → length (step_output_tail text_data n) ≤ suc n
unfolding step_output_tail
step_output_tail-bound text_data zero h = absurd (omega arith)
step_output_tail-bound text_data (suc n) h =
    elim (Option-cases (partition_at (codes "# Result:\n") text_data)) [
      | inl e ↦ rw (step_output_tail, e) (omega arith)
      | inr (parts, e) ↦
          rw (step_output_tail, e)
            (length-tail_of n (filter is_output (map shown_line (drop 1 (split 10 parts.1)))))
    ]
