-- ===== src/Py/Json.antt =====
-- The values that `json.loads` returns. A number is an integer or a float; the floats that the
-- scripts store are times, held as microseconds.
use os_autoinst_scripts.Prelude.{ℕ, ◌≡◌, refl, Bool, Option, none, some, arith, if◌then◌else◌}
use os_autoinst_scripts.Py.Str.{Str, eqb, eqb_iff}

mutual
  pub data Value : Type 0 where
    null : Value
    flag : Bool → Value
    int : ℕ → Value
    float : ℕ → Value
    text : Str → Value
    array : Items → Value
    object : Fields → Value

  pub data Items : Type 0 where
    nil : Items
    cons : Value → Items → Items

  pub data Fields : Type 0 where
    end : Fields
    field : Str → Value → Fields → Fields

-- `d.get(key)` on a JSON object
unfoldable pub field? : Str → Fields → Option Value
field? k end = none
field? k (field j v rest) = if eqb j k then some v else field? k rest

-- `d | {key: v}`
unfoldable pub put_field : Str → Value → Fields → Fields
put_field k v end = field k v end
put_field k v (field j w rest) =
    let rest' = put_field k v rest in if eqb j k then field j v rest else field j w rest'

pub field?-put_field :
    (k j : Str) (v : Value) (fs : Fields)
    → field? j (put_field k v fs) ≡ (if eqb k j then some v else field? j fs)
unfolding field? put_field
field?-put_field k j v end = refl
field?-put_field k j v (field i w rest) =
    ground (arith, eqb_iff k j, eqb_iff i k, eqb_iff i j, field?-put_field k j v rest)
