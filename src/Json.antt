-- ===== src/Json.antt =====
-- JSON values, and what the code uses of Python's `json` and `hashlib`, which are parameters. An object
-- has its keys in the order of the dictionary that it was made from, each once.
use ianua_broker.Prelude.{
  num_Ord, text_Ord, pair_Ord, list_Ord, none, some, [], ◌∷◌, text_Eq, num_Eq, pair_Eq, option_Eq,
  list_Eq, Bool, List, String, Option, if◌then◌else◌, text_le, ◌==◌, ℕ, suc,
}

mutual
  pub data Json : Type 0 where
    null : Json
    boolean : Bool → Json
    number : String → Json
    text : String → Json
    array : Items → Json
    object : Fields → Json

  pub data Items : Type 0 where
    nil : Items
    cons : Json → Items → Items

  pub data Fields : Type 0 where
    end : Fields
    field : String → Json → Fields → Fields

-- data.get(key)
unfoldable pub field_of : String → Fields → Option Json
field_of key end = none
field_of key (field k v rest) = if k == key then some v else field_of key rest

-- What `json.loads` does: a value, a ValueError, or the RecursionError of a nesting that is too deep.
pub data Decoded : Type 0 where
  parsed : Json → Decoded
  malformed too_deep : Decoded

pub record JsonTools : Type 0 where
  -- json.loads
  pub loads : String → Decoded
  -- json.dumps with `sort_keys`, indented, and without spaces
  pub dumps : Json → String
  pub compact : Json → String
  -- hashlib.sha256 of the text in UTF-8, in hexadecimal
  pub sha256 : String → String
  -- `str` of a value that is no text, and `repr` of a text
  pub str_of_other : Json → String
  pub repr : String → String

-- str(value)
unfoldable pub str_of : JsonTools → Json → String
str_of tools (text s) = s
str_of tools other = tools.str_of_other other

-- The fields in the order of their keys.
unfoldable pub insert_field : String → Json → Fields → Fields
insert_field k v end = field k v end
insert_field k v (field j w rest) =
    if text_le k j then field k v (field j w rest) else field j w (insert_field k v rest)

-- What `sort_keys` does to a value.
unfoldable mutual
  unfolding insert_field

  pub sort_keys : Json → Json
  sort_keys null = null
  sort_keys (boolean b) = boolean b
  sort_keys (number n) = number n
  sort_keys (text s) = text s
  sort_keys (array xs) = array (sort_items xs)
  sort_keys (object fs) = object (sort_fields fs)

  pub sort_items : Items → Items
  sort_items nil = nil
  sort_items (cons x xs) = cons (sort_keys x) (sort_items xs)

  pub sort_fields : Fields → Fields
  sort_fields end = end
  sort_fields (field k v rest) = insert_field k (sort_keys v) (sort_fields rest)

-- A dictionary of texts, as an object and as an array.
abbrev pub text_fields : List (String × String) → Fields
text_fields [] = end
text_fields ((k, v) ∷ rest) = field k (text v) (text_fields rest)

abbrev pub text_items : List String → Items
text_items [] = nil
text_items (s ∷ rest) = cons (text s) (text_items rest)

-- len(xs) of an array
abbrev pub length_items : Items → ℕ
length_items nil = 0
length_items (cons x xs) = suc (length_items xs)
