-- ===== src/Settings/Json.antt =====
-- JSON values as core/settings-codec.cpp and core/settings-store.cpp read them through QJsonObject,
-- QJsonArray and QJsonValue. A number is a double, given by its bit pattern.
use obs_dsk_multistream.Base.{
  ℕ, String, ◌≡◌, refl, ap, Bool, true, false, ◌==◌, Option, none, some, List, [], ◌∷◌, ℤ,
  if◌then◌else◌, is_empty, get_or_else, arith,
}
use obs_dsk_multistream.Base.Doubles.{Doubles}

-- Of two entries of an object with the same key the first counts.
mutual
  pub data Json : Type 0 where
    null : Json
    bool : Bool → Json
    number : ℕ → Json
    string : String → Json
    array : Values → Json
    object : Fields → Json

  pub data Values : Type 0 where
    no_values : Values
    push : Json → Values → Values

  pub data Fields : Type 0 where
    no_fields : Fields
    insert : String → Json → Fields → Fields

-- QJsonObject::value; `none` is the undefined value.
unfoldable pub value : String → Fields → Option Json
value key no_fields = none
value key (insert k v rest) = if k == key then some v else value key rest

-- QJsonValue::Type
pub data Kind : Type 0 where
  null_kind bool_kind double_kind string_kind array_kind object_kind : Kind

abbrev pub kind : Json → Kind
kind null = null_kind
kind (bool b) = bool_kind
kind (number d) = double_kind
kind (string s) = string_kind
kind (array vs) = array_kind
kind (object o) = object_kind

abbrev pub is_kind : Kind → Kind → Bool
is_kind null_kind null_kind = true
is_kind bool_kind bool_kind = true
is_kind double_kind double_kind = true
is_kind string_kind string_kind = true
is_kind array_kind array_kind = true
is_kind object_kind object_kind = true
is_kind _ _ = false

-- QJsonValue::toString, toBool, toArray and toObject, on a value that may be undefined.
abbrev pub to_string : String → Option Json → String
to_string default (some (string s)) = s
to_string default _ = default

abbrev pub to_bool : Bool → Option Json → Bool
to_bool default (some (bool b)) = b
to_bool default _ = default

abbrev pub to_array : Option Json → Values
to_array (some (array vs)) = vs
to_array _ = no_values

abbrev pub to_object : Option Json → Fields
to_object (some (object o)) = o
to_object _ = no_fields

abbrev pub to_double : ℕ → Option Json → ℕ
to_double default (some (number d)) = d
to_double default _ = default

-- The objects among the values.
unfoldable pub objects : Values → List Fields
objects no_values = []
objects (push (object o) vs) = o ∷ objects vs
objects (push _ vs) = objects vs

unfoldable pub array_of : List Fields → Values
array_of [] = no_values
array_of (o ∷ os) = push (object o) (array_of os)

-- Inserts the text under the key unless it is empty.
unfoldable pub insert_nonempty : String → String → Fields → Fields
insert_nonempty key s o = if is_empty s then o else insert key (string s) o

module _ (dbl : Doubles) where
  open dbl use {to_int}

  -- QJsonValue::toInt
  abbrev pub to_integer : ℤ → Option Json → ℤ
  to_integer default (some (number d)) = get_or_else (to_int d) default
  to_integer default _ = default

pub value-insert_nonempty :
    (k key s : String) (o : Fields)
    → value key (insert_nonempty k s o)
      ≡ (if k == key then (if is_empty s then value key o else some (string s)) else value key o)
unfolding value insert_nonempty
value-insert_nonempty k key s o = ground arith

pub objects-array_of : (os : List Fields) → objects (array_of os) ≡ os
unfolding objects array_of
objects-array_of [] = refl
objects-array_of (o ∷ os) = ap (λ t. o ∷ t) (objects-array_of os)
