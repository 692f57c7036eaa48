-- ===== src/Protocol/Json.antt =====
-- The values that arrive from a socket, with the property reads and the `typeof` tests that
-- server/contracts/src/protocol.ts makes on them. Numbers are of any type. A missing property, which
-- reads as `undefined`, is `none`; a property written as `undefined` is left out.
use pmeow.Prelude.{
  String, Bool, true, false, ◌&&◌, List, [], ◌∷◌, Option, none, some, ◌==◌, string_eq, eq_iff, ◌≡◌,
  refl, arith, if◌then◌else◌,
}

mutual
  pub data Json (V : Type 0) : Type 0 where
    null : Json V
    bool : Bool → Json V
    number : V → Json V
    text : String → Json V
    array : Items V → Json V
    object : Fields V → Json V

  pub data Items (V : Type 0) : Type 0 where
    no_items : Items V
    item : Json V → Items V → Items V

  pub data Fields (V : Type 0) : Type 0 where
    no_fields : Fields V
    field : String → Json V → Fields V → Fields V

module _ {V : Type 0} where
  abbrev pub read : String → Fields V → Option (Json V)
  read key no_fields = none
  read key (field k v fs) = if k == key then some v else read key fs

  -- `value.key`
  abbrev pub get : String → Json V → Option (Json V)
  get key (object fs) = read key fs
  get key _ = none

  abbrev pub get_in : String → Option (Json V) → Option (Json V)
  get_in key none = none
  get_in key (some v) = get key v

  -- `{ ...fields, key: value }`
  abbrev pub put : String → Json V → Fields V → Fields V
  put key v no_fields = field key v no_fields
  put key v (field k w fs) = if k == key then field k v fs else field k w (put key v fs)

  -- An object by its properties, without those that are `undefined`.
  abbrev pub defined : List (String × Option (Json V)) → Fields V
  defined [] = no_fields
  defined ((key, none) ∷ rest) = defined rest
  defined ((key, some v) ∷ rest) = field key v (defined rest)

  abbrev pub or_else : Option (Json V) → Option (Json V) → Option (Json V)
  or_else none b = b
  or_else (some a) b = some a

  abbrev pub property : String → List (String × Option (Json V)) → Option (Json V)
  property key [] = none
  property key ((k, o) ∷ rest) =
      if k == key then or_else o (property key rest) else property key rest

  pub read-defined :
      (key : String) (properties : List (String × Option (Json V)))
      → read key (defined properties) ≡ property key properties
  read-defined key [] = refl
  read-defined key ((k, none) ∷ rest) = ground (arith, read-defined key rest)
  read-defined key ((k, some v) ∷ rest) = ground (arith, read-defined key rest)

  pub read-put :
      (key k : String) (v : Json V) (fs : Fields V)
      → read key (put k v fs) ≡ (if k == key then some v else read key fs)
  read-put key k v no_fields = refl
  read-put key k v (field j w fs) =
      ground (arith, read-put key k v fs, eq_iff j k, eq_iff k key, eq_iff j key)

  -- `a ?? b`
  abbrev pub or_nullish : Option (Json V) → Option (Json V) → Option (Json V)
  or_nullish none b = b
  or_nullish (some null) b = b
  or_nullish (some v) b = some v

  -- `a ?? null`
  abbrev pub or_null : Option (Json V) → Json V
  or_null none = null
  or_null (some v) = v

  abbrev pub is_text : Option (Json V) → Bool
  is_text (some (text s)) = true
  is_text _ = false

  abbrev pub is_number : Option (Json V) → Bool
  is_number (some (number n)) = true
  is_number _ = false

  abbrev pub is_array : Option (Json V) → Bool
  is_array (some (array xs)) = true
  is_array _ = false

  -- `typeof v === 'object' && v !== null`
  abbrev pub is_object : Json V → Bool
  is_object (array xs) = true
  is_object (object fs) = true
  is_object _ = false

  abbrev pub is_some_object : Option (Json V) → Bool
  is_some_object none = false
  is_some_object (some v) = is_object v

  abbrev pub is_null : Json V → Bool
  is_null null = true
  is_null _ = false

  -- `undefined`, `null` or a number
  abbrev pub is_number_or_nullish : Option (Json V) → Bool
  is_number_or_nullish none = true
  is_number_or_nullish (some null) = true
  is_number_or_nullish (some (number n)) = true
  is_number_or_nullish _ = false

  abbrev pub is_the_text : String → Option (Json V) → Bool
  is_the_text s (some (text t)) = t == s
  is_the_text s _ = false

  abbrev pub items_of : Option (Json V) → Items V
  items_of (some (array xs)) = xs
  items_of _ = no_items

  abbrev pub every : (Json V → Bool) → Items V → Bool
  every p no_items = true
  every p (item v xs) = p v && every p xs

  abbrev pub map_items : (Json V → Json V) → Items V → Items V
  map_items f no_items = no_items
  map_items f (item v xs) = item (f v) (map_items f xs)
