-- ===== src/Json.antt =====
-- serde_json's `Value`, as data: the documents that the lifecycle stores keep. A number is the text
-- that serde_json prints for it.
use nextral.Base.{
  String, Bool, true, false, ◌&&◌, Option, none, some, ◌==◌, string_eq, if◌then◌else◌,
}

mutual
  pub data Value : Type 0 where
    null : Value
    bool : Bool → Value
    number : String → Value
    string : String → Value
    array : Items → Value
    object : Fields → Value

  pub data Items : Type 0 where
    nil : Items
    item : Value → Items → Items

  pub data Fields : Type 0 where
    end : Fields
    field : String → Value → Fields → Fields

unfoldable pub get_field : Fields → String → Option Value
get_field end key = none
get_field (field k v rest) key = if k == key then some v else get_field rest key

-- `value.get(key)`
unfoldable pub get : Value → String → Option Value
unfolding get_field
get (object fields) key = get_field fields key
get _ key = none

-- `value[key].as_str()`
unfoldable pub str_at : Value → String → Option String
unfolding get
str_at value key = elim (get value key) [ some (string s) ↦ some s | _ ↦ none ]

abbrev bool_eqb : Bool → Bool → Bool
bool_eqb true b = b
bool_eqb false true = false
bool_eqb false false = true

-- The derived `PartialEq`.
unfoldable mutual
  pub value_eqb : Value → Value → Bool
  value_eqb null null = true
  value_eqb (bool a) (bool b) = bool_eqb a b
  value_eqb (number a) (number b) = a == b
  value_eqb (string a) (string b) = a == b
  value_eqb (array a) (array b) = items_eqb a b
  value_eqb (object a) (object b) = fields_eqb a b
  value_eqb _ _ = false

  pub items_eqb : Items → Items → Bool
  items_eqb nil nil = true
  items_eqb (item a xs) (item b ys) = value_eqb a b && items_eqb xs ys
  items_eqb _ _ = false

  pub fields_eqb : Fields → Fields → Bool
  fields_eqb end end = true
  fields_eqb (field k a xs) (field j b ys) = k == j && (value_eqb a b && fields_eqb xs ys)
  fields_eqb _ _ = false

unfoldable pub optional_eqb : Option Value → Option Value → Bool
unfolding value_eqb
optional_eqb none none = true
optional_eqb (some a) (some b) = value_eqb a b
optional_eqb _ _ = false

-- `value[key].as_bool()`
unfoldable pub bool_at : Value → String → Option Bool
unfolding get
bool_at value key = elim (get value key) [ some (bool b) ↦ some b | _ ↦ none ]
