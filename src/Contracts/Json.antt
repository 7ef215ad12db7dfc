-- ===== src/Contracts/Json.antt =====
-- What `json.dumps(value, allow_nan=False)` accepts of a Python value, which is
-- `_validate_json_value` of packages/plugin_sdk/contracts.py. A value that contains itself (also
-- refused there) is not among the values of this type.
use gaussian_os.Prelude.{String, Bool, true, false, ◌&&◌, ◌≡◌, refl, List, [], ◌∷◌, ℤ, pos}

-- A finite float is its literal: the program only asks whether a float is finite.
pub data Float : Type 0 where
  finite : String → Float
  nan infinity neg_infinity : Float

-- math.isfinite
abbrev pub is_finite : Float → Bool
is_finite (finite literal) = true
is_finite _ = false

mutual
  pub data Value : Type 0 where
    null : Value
    boolean : Bool → Value
    integer : ℤ → Value
    float : Float → Value
    text : String → Value
    array : Items → Value
    object : Members → Value
    opaque : Value  -- a value of a type that the encoder does not know

  pub data Items : Type 0 where
    no_items : Items
    item : Value → Items → Items

  pub data Members : Type 0 where
    no_members : Members
    member : Value → Value → Members → Members

-- The encoder takes these keys; any other raises TypeError, and a float that is not finite ValueError.
abbrev pub is_json_key : Value → Bool
is_json_key null = true
is_json_key (boolean b) = true
is_json_key (integer n) = true
is_json_key (float x) = is_finite x
is_json_key (text s) = true
is_json_key _ = false

unfoldable mutual
  pub is_json : Value → Bool
  is_json null = true
  is_json (boolean b) = true
  is_json (integer n) = true
  is_json (float x) = is_finite x
  is_json (text s) = true
  is_json (array xs) = are_json_items xs
  is_json (object ms) = are_json_members ms
  is_json opaque = false

  pub are_json_items : Items → Bool
  are_json_items no_items = true
  are_json_items (item x xs) = is_json x && are_json_items xs

  pub are_json_members : Members → Bool
  are_json_members no_members = true
  are_json_members (member k v ms) = is_json_key k && is_json v && are_json_members ms

-- A field of type `dict[str, Any]`.
abbrev pub Dict : Type 0
Dict = List (String × Value)

unfoldable pub is_json_dict : Dict → Bool
unfolding is_json
is_json_dict [] = true
is_json_dict ((k, v) ∷ rest) = is_json v && is_json_dict rest

json_values :
    (is_json (object (member (text "psnr") (float (finite "31.5")) no_members)) ≡ true)
    × (is_json (array (item (integer (pos 1)) (item (float nan) no_items))) ≡ false)
unfolding is_json are_json_items are_json_members
json_values = (refl, refl)
