-- ===== src/Js/Value.antt =====
-- Values of JavaScript as `JSON.parse` makes them, with `undefined`, and their coercions. No
-- property that the modelled files read is inherited but `length` and `includes`.
use vpn_register_kit.Prelude.{
  ℕ, Bool, true, false, not, ◌&&◌, List, [], ◌∷◌, Option, none, some, Text, codes, text_eq,
  is_empty, length, ◌==◌, if◌then◌else◌, join, includes_unit, ◌||◌,
}
use vpn_register_kit.Js.Number.{
  Number, natural, is_zero, equals_natural, exceeds_natural, number_text,
}
use vpn_register_kit.Js.Result.{
  Result, ok, err, fault, no_property, no_primitive, not_a_function, ◌>>=◌,
}

mutual
  pub data Value : Type 0 where
    undefined null : Value
    bool : Bool → Value
    num : Number → Value
    str : Text → Value
    arr : Items → Value
    obj : Fields → Value

  pub data Items : Type 0 where
    nil : Items
    cons : Value → Items → Items

  pub data Fields : Type 0 where
    end : Fields
    field : Text → Value → Fields → Fields

unfoldable pub elements : Items → List Value
elements nil = []
elements (cons v vs) = v ∷ elements vs

unfoldable pub items : List Value → Items
items [] = nil
items (v ∷ vs) = cons v (items vs)

-- An object keeps each key once.
unfoldable pub own_field : Text → Fields → Option Value
own_field k end = none
own_field k (field j v fs) = if text_eq j k then some v else own_field k fs

unfoldable pub truthy : Value → Bool
truthy undefined = false
truthy null = false
truthy (bool b) = b
truthy (num n) = not (is_zero n)
truthy (str s) = not (is_empty s)
truthy (arr vs) = true
truthy (obj fs) = true

-- `a || b`
unfoldable pub or_else : Value → Value → Value
or_else a b = if truthy a then a else b

abbrev pub or_undefined : Option Value → Value
or_undefined none = undefined
or_undefined (some v) = v

abbrev length_only : Text → ℕ → Value
length_only k n = if text_eq k (codes "length") then num (natural n) else undefined

-- `v[k]`
unfoldable pub get : Value → Text → Result Value
get undefined k = err (fault (no_property k))
get null k = err (fault (no_property k))
get (bool b) k = ok undefined
get (num n) k = ok undefined
get (str s) k = ok (length_only k (length s))
get (arr vs) k = ok (length_only k (length (elements vs)))
get (obj fs) k = ok (or_undefined (own_field k fs))

-- `typeof v === "object"`
unfoldable pub is_object : Value → Bool
is_object null = true
is_object (arr vs) = true
is_object (obj fs) = true
is_object _ = false

-- `v === "…"`, `v === k`
unfoldable pub is_text : Value → Text → Bool
is_text (str s) t = text_eq s t
is_text _ t = false

unfoldable pub is_natural : Value → ℕ → Bool
is_natural (num n) k = equals_natural n k
is_natural _ k = false

abbrev has_own : Text → Fields → Bool
has_own k fs = elim (own_field k fs) [ none ↦ false | some v ↦ true ]

-- `String(v)`: an object whose own `toString` is no function has no primitive value
unfoldable mutual
  pub to_string : Value → Result Text
  to_string undefined = ok (codes "undefined")
  to_string null = ok (codes "null")
  to_string (bool true) = ok (codes "true")
  to_string (bool false) = ok (codes "false")
  to_string (num n) = ok (number_text n)
  to_string (str s) = ok s
  to_string (arr vs) = do ts ← item_strings vs; ok (join (codes ",") ts)
  to_string (obj fs) =
      if has_own (codes "toString") fs
      then err (fault no_primitive)
      else ok (codes "[object Object]")

  -- in an array `undefined` and `null` are empty
  pub item_strings : Items → Result (List Text)
  item_strings nil = ok []
  item_strings (cons undefined vs) = do ts ← item_strings vs; ok ([] ∷ ts)
  item_strings (cons null vs) = do ts ← item_strings vs; ok ([] ∷ ts)
  item_strings (cons v vs) = do t ← to_string v; ts ← item_strings vs; ok (t ∷ ts)

-- `v > k`; `number_of` reads a text as a number, `none` where it is NaN
module _ (number_of : Text → Option Number) where
  text_exceeds : Text → ℕ → Bool
  text_exceeds s k = elim (number_of s) [ none ↦ false | some n ↦ exceeds_natural n k ]

  unfoldable pub exceeds : Value → ℕ → Result Bool
  unfolding text_exceeds
  exceeds undefined k = ok false
  exceeds null k = ok false
  exceeds (bool b) k = ok (b && (k == 0))
  exceeds (num n) k = ok (exceeds_natural n k)
  exceeds (str s) k = ok (text_exceeds s k)
  exceeds v k = do t ← to_string v; ok (text_exceeds t k)

-- `v.includes(c)` of a one-unit text: a text has its units, an array its elements
any_is_unit : ℕ → List Value → Bool
any_is_unit c [] = false
any_is_unit c (v ∷ vs) = is_text v (c ∷ []) || any_is_unit c vs

unfoldable pub includes : Value → ℕ → Result Bool
unfolding any_is_unit
includes (str s) c = ok (includes_unit s c)
includes (arr vs) c = ok (any_is_unit c (elements vs))
includes undefined c = err (fault (no_property (codes "includes")))
includes null c = err (fault (no_property (codes "includes")))
includes _ c = err (fault (not_a_function (codes "includes")))
