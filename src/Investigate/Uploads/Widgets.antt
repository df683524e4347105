-- ===== src/Investigate/Uploads/Widgets.antt =====
-- The texts of a dump of widgets: openqa_llm_investigate/uploads.py.
use os_autoinst_scripts.Prelude.{
  Bool, ◌&&◌, Option, none, some, List, [], ◌∷◌, ◌++◌, any, if◌then◌else◌,
}
use os_autoinst_scripts.Py.Str.{Str, codes, eqb, strip}
use os_autoinst_scripts.Py.Json.{
  Value, null, flag, int, float, text, array, object, Items, nil, cons, Fields, end, field,
}
use os_autoinst_scripts.Py.Text.{in_lines}
use os_autoinst_scripts.Investigate.Text.Lines.{is_text}

abbrev pub widget_keys : List Str
widget_keys = codes "title" ∷ codes "text" ∷ codes "label" ∷ []

-- `(k, v) in out`
unfoldable pub has_pair : Str → Str → List (Str × Str) → Bool
unfolding eqb
has_pair k v out = any (λ (p : Str × Str). eqb p.0 k && eqb p.1 v) out

-- The text itself is looked up, and its stripped form is stored.
unfoldable pub add_pair : Str → Str → List (Str × Str) → List (Str × Str)
unfolding has_pair strip
add_pair k v out = if has_pair k v out then out else out ++ ((k, strip v) ∷ [])

unfoldable mutual
  pub widget_strings : Value → List (Str × Str) → List (Str × Str)
  widget_strings null out = out
  widget_strings (flag b) out = out
  widget_strings (int n) out = out
  widget_strings (float n) out = out
  widget_strings (text s) out = out
  widget_strings (array vs) out = widget_items vs out
  widget_strings (object fs) out = widget_fields fs out

  pub widget_items : Items → List (Str × Str) → List (Str × Str)
  widget_items nil out = out
  widget_items (cons v vs) out = widget_items vs (widget_strings v out)

  pub widget_fields : Fields → List (Str × Str) → List (Str × Str)
  widget_fields end out = out
  widget_fields (field k (text s) fs) out =
      widget_fields fs (if in_lines k widget_keys && is_text s then add_pair k s out else out)
  widget_fields (field k (array vs) fs) out = widget_fields fs (widget_items vs out)
  widget_fields (field k (object gs) fs) out = widget_fields fs (widget_fields gs out)
  widget_fields (field k v fs) out = widget_fields fs out

-- `json.loads` is a parameter; none is its `ValueError`.
abbrev pub strings_of : Option Value → List (Str × Str)
strings_of none = []
strings_of (some v) = widget_strings v []

unfoldable pub summarize_widgets : (Str → Option Value) → Str → List (Str × Str)
unfolding widget_strings
summarize_widgets loads s = strings_of (loads s)
