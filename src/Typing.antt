-- ===== src/Typing.antt =====
-- The types that asgiref/typing.py writes its declarations in, and when a Python value has one. A
-- value of a TypedDict may have further keys.
pub mod Scopes
pub mod Events
pub mod Sent
mod Tests
use asgire.Prelude.{
  ℕ, List, [], ◌∷◌, Bool, true, false, ◌&&◌, ◌||◌, Option, none, some, ◌==◌, list_eq, if◌then◌else◌,
}
use asgire.Prelude.Int.{ℤ}
use asgire.Text.{Str, Bytes, str}

mutual
  pub data Value : Type 0 where
    null : Value
    boolean : Bool → Value
    integer : ℤ → Value
    text : Str → Value
    bytes : Bytes → Value
    list : Values → Value
    tuple : Values → Value
    dict : Entries → Value
    object : ℕ → Value

  pub data Values : Type 0 where
    nil : Values
    cons : Value → Values → Values

  pub data Entries : Type 0 where
    end : Entries
    entry : Value → Value → Entries → Entries

mutual
  pub data PyType : Type 0 where
    any_type none_type bool_type int_type str_type bytes_type : PyType
    literal : Str → PyType
    either : PyType → PyType → PyType
    iterable : PyType → PyType
    tuple_of : PyType → PyType → PyType
    dict_of : PyType → PyType → PyType
    typed_dict : Keys → PyType

  -- The keys of a TypedDict.
  pub data Keys : Type 0 where
    no_keys : Keys
    required : Str → PyType → Keys → Keys
    not_required : Str → PyType → Keys → Keys

-- A key, and the keys after it.
infixr 5 ◌&◌
abbrev pub ◌&◌ : (Keys → Keys) → Keys → Keys
key & keys = key keys

abbrev pub optional : PyType → PyType
optional t = either t none_type

abbrev is_key : Str → Value → Bool
is_key k (text s) = s == k
is_key k _ = false

-- The value under a key that is a str.
unfoldable pub field : Str → Entries → Option Value
field k end = none
field k (entry j v rest) = if is_key k j then some v else field k rest

abbrev pub all_values : (Value → Bool) → Values → Bool
all_values p nil = true
all_values p (cons v vs) = p v && all_values p vs

abbrev all_entries : (Value → Bool) → (Value → Bool) → Entries → Bool
all_entries p q end = true
all_entries p q (entry k v rest) = p k && (q v && all_entries p q rest)

abbrev both : (Value → Bool) → (Value → Bool) → Values → Bool
both p q (cons a (cons b nil)) = p a && q b
both p q _ = false

abbrev is_text : Str → Value → Bool
is_text s (text t) = t == s
is_text s _ = false

abbrev is_bool : Value → Bool
is_bool (boolean b) = true
is_bool _ = false

-- A bool is an int.
abbrev is_int : Value → Bool
is_int (integer n) = true
is_int (boolean b) = true
is_int _ = false

abbrev is_str : Value → Bool
is_str (text s) = true
is_str _ = false

abbrev is_bytes : Value → Bool
is_bytes (bytes b) = true
is_bytes _ = false

abbrev is_none : Value → Bool
is_none null = true
is_none _ = false

-- Of the iterables, lists and tuples are taken.
abbrev is_iterable : (Value → Bool) → Value → Bool
is_iterable p (list vs) = all_values p vs
is_iterable p (tuple vs) = all_values p vs
is_iterable p _ = false

abbrev is_tuple : (Value → Bool) → (Value → Bool) → Value → Bool
is_tuple p q (tuple vs) = both p q vs
is_tuple p q _ = false

abbrev is_dict : (Entries → Bool) → Value → Bool
is_dict p (dict es) = p es
is_dict p _ = false

abbrev pub holds : (Value → Bool) → Option Value → Bool
holds p none = false
holds p (some v) = p v

abbrev holds_if_there : (Value → Bool) → Option Value → Bool
holds_if_there p none = true
holds_if_there p (some v) = p v

unfoldable mutual
  pub has_type : PyType → Value → Bool
  has_type any_type v = true
  has_type none_type v = is_none v
  has_type bool_type v = is_bool v
  has_type int_type v = is_int v
  has_type str_type v = is_str v
  has_type bytes_type v = is_bytes v
  has_type (literal s) v = is_text s v
  has_type (either t u) v = has_type t v || has_type u v
  has_type (iterable t) v = is_iterable (has_type t) v
  has_type (tuple_of t u) v = is_tuple (has_type t) (has_type u) v
  has_type (dict_of t u) v = is_dict (all_entries (has_type t) (has_type u)) v
  has_type (typed_dict keys) v = is_dict (has_keys keys) v

  pub has_keys : Keys → Entries → Bool
  has_keys no_keys es = true
  has_keys (required k t keys) es = holds (has_type t) (field k es) && has_keys keys es
  has_keys (not_required k t keys) es = holds_if_there (has_type t) (field k es) && has_keys keys es

-- A TypedDict class whose key `type` has one text.
pub record Class : Type 0 where
  pub type_name : Str
  pub keys : Keys

abbrev pub class_type : Class → PyType
class_type c = typed_dict (required (str "type") (literal c.type_name) c.keys)

abbrev pub is_instance : Class → Value → Bool
is_instance c v = has_type (class_type c) v

-- A `Union` of classes.
unfoldable pub is_any_of : List Class → Value → Bool
is_any_of [] v = false
is_any_of (c ∷ cs) v = is_instance c v || is_any_of cs v
