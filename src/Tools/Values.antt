-- ===== src/Tools/Values.antt =====
-- Python's `bool`, `str` and `int` of the values that tools in app/tools are called with. `str` of a
-- value that is no text is a parameter.
use ochestrate.Base.{
  ℕ, ◌≡◌, refl, Bool, true, false, Option, none, some, List, [], ◌∷◌, ltb, leb, if◌then◌else◌,
}
use ochestrate.Text.{Text}
use ochestrate.Schemas.{Value, Values, Params, Fields, nil, cons, end, field}

-- `bool(value)`
abbrev pub truthy : Value → Bool
truthy Value.null = false
truthy (Value.bool b) = b
truthy (Value.num n) = ltb 0 n
truthy (Value.str []) = false
truthy (Value.str (c ∷ cs)) = true
truthy (Value.arr vs) = elim vs [ nil ↦ false | cons v ws ↦ true ]
truthy (Value.obj fs) = elim fs [ end ↦ false | field k v gs ↦ true ]

abbrev pub truthy_found : Option Value → Bool
truthy_found none = false
truthy_found (some v) = truthy v

abbrev pub fields_to_params : Fields → Params
fields_to_params = elim [ end ↦ [] | field k v (fs → rest) ↦ (k, v) ∷ rest ]

-- `value or next`
abbrev pub or_next : Option Value → Option Value → Option Value
or_next none next = next
or_next (some v) next = if truthy v then some v else next

-- `params.get(key, default)`
abbrev pub given_or : Value → Option Value → Value
given_or default none = default
given_or default (some v) = v

module _ (show_value : Value → Text) where
  -- `str(value)`
  unfoldable pub text_of : Value → Text
  text_of (Value.str t) = t
  text_of v = show_value v

  -- `str(params.get(key) or "")`
  abbrev pub text_or_empty : Option Value → Text
  text_or_empty none = []
  text_or_empty (some v) = if truthy v then text_of v else []

  -- `str(params.get(key, default))`
  abbrev pub text_or : Text → Option Value → Text
  text_or default none = default
  text_or default (some v) = text_of v

  pub text_or_empty_str : (t : Text) → text_or_empty (some (Value.str t)) ≡ t
  unfolding text_of
  text_or_empty_str [] = refl
  text_or_empty_str (c ∷ cs) = refl

-- Python's `int`, with the comparisons that the tools make
pub data ℤ : Type 0 where
  pos : ℕ → ℤ
  negsuc : ℕ → ℤ

-- `z > n`
abbrev pub exceeds : ℤ → ℕ → Bool
exceeds (pos m) n = ltb n m
exceeds (negsuc m) n = false

-- `n >= z`
abbrev pub reaches : ℕ → ℤ → Bool
reaches n (pos m) = leb m n
reaches n (negsuc m) = true

-- `int(value)` for the `int` of a text, which has none where it raises
abbrev pub int_of_value : (Text → Option ℤ) → Value → Option ℤ
int_of_value int Value.null = none
int_of_value int (Value.bool b) = some (pos (if b then 1 else 0))
int_of_value int (Value.num n) = some (pos n)
int_of_value int (Value.str t) = int t
int_of_value int (Value.arr vs) = none
int_of_value int (Value.obj fs) = none

abbrev pub fields_of : Params → Fields
fields_of [] = end
fields_of ((k, v) ∷ d) = field k v (fields_of d)

abbrev pub objects : List Params → Values
objects [] = nil
objects (d ∷ ds) = cons (Value.obj (fields_of d)) (objects ds)
