-- ===== src/Investigate/Step.antt =====
-- The steps of a test module as openQA's `details_ajax` lists them: the fields that
-- openqa_llm_investigate reads, each given or not.
use os_autoinst_scripts.Prelude.{ℕ, Bool, Option, none, some, List}
use os_autoinst_scripts.Py.Str.{Str, codes, eqb}
use os_autoinst_scripts.Py.Text.{or_empty}

pub record Step : Type 0 where
  -- the identity of the object, which `is` and `id` tell apart: its place among the steps
  pub place : ℕ
  pub num : Option ℕ
  pub result : Option Str
  pub display_title : Option Str
  pub text_data : Option Str
  pub screenshot : Option Str
  pub needle : Option Str
  pub tags : List Str
  -- the similarity of each area of a needle, where it has one
  pub area : List (Option ℕ)

-- `d.get("num", 0)`
abbrev pub num_of : Step → ℕ
num_of d = elim d.num [ none ↦ 0 | some n ↦ n ]

-- `d.get("result") == "fail"`
unfoldable pub is_fail : Step → Bool
unfolding eqb
is_fail d = eqb (or_empty d.result) (codes "fail")

-- `d.get("text_data") or ""`
abbrev pub text_of : Step → Str
text_of d = or_empty d.text_data

abbrev pub title_of : Step → Str
title_of d = or_empty d.display_title
