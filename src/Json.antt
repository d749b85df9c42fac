-- ===== src/Json.antt =====
-- core/json: values of class `Json`. `empty` is a null `m_value`. `value` is a `JsonValue` with its
-- alternative and `m_is_string_format`; a double is its bit pattern. `object` is a `JsonObject` with
-- `m_is_array`, `m_object` and `m_array`: it keeps both containers whatever the flag says. The keys
-- of `m_object` stand in the order of insertion, which no operation here depends on.
pub mod Access
pub mod Containers
pub mod Conversions
pub mod Arrays
pub mod Writer
pub mod Parser
use order_book_server_cpp.Prelude.{
  ℕ, suc, ◌+◌, ◌-◌, ◌≡◌, ◌^◌, Bool, true, false, List, [], ◌∷◌, ltb, if◌then◌else◌, text_eq, Option,
  none, some,
}
use order_book_server_cpp.Prelude.Int.{ℤ, pos, negsuc}

pub data Scalar : Type 0 where
  null : Scalar
  bool : Bool → Scalar
  int64 : ℤ → Scalar
  uint64 : ℕ → Scalar
  double : ℕ → Scalar
  string : List ℕ → Scalar

mutual
  pub data Json : Type 0 where
    empty : Json
    value : Scalar → Bool → Json
    object : Bool → Fields → Items → Json

  pub data Fields : Type 0 where
    end : Fields
    field : List ℕ → Json → Fields → Fields

  pub data Items : Type 0 where
    nil : Items
    cons : Json → Items → Items

-- `Json(T&&)` for integers: the value becomes an `int64_t`, also from a `uint64_t`.
abbrev pub of_int64 : ℤ → Json
of_int64 i = value (int64 i) true

abbrev pub int64_of_uint64 : ℕ → ℤ
int64_of_uint64 n = if ltb n (2 ^ 63) then pos n else negsuc (2 ^ 64 - n - 1)

abbrev pub of_uint64 : ℕ → Json
of_uint64 n = of_int64 (int64_of_uint64 n)

unfoldable pub find_field : List ℕ → Fields → Option Json
find_field k end = none
find_field k (field l v fs) = if text_eq l k then some v else find_field k fs

-- `m_object[k] = v`
unfoldable pub assign_field : List ℕ → Json → Fields → Fields
assign_field k v end = field k v end
assign_field k v (field l w fs) =
    let rest = assign_field k v fs in if text_eq l k then field l v fs else field l w rest

-- `m_object.insert({k, v})` keeps the value of a key that is there.
unfoldable pub insert_field : List ℕ → Json → Fields → Fields
insert_field k v end = field k v end
insert_field k v (field l w fs) =
    let rest = insert_field k v fs in if text_eq l k then field l w fs else field l w rest

unfoldable pub erase_field : List ℕ → Fields → Fields
erase_field k end = end
erase_field k (field l w fs) =
    let rest = erase_field k fs in if text_eq l k then fs else field l w rest

unfoldable pub append_item : Json → Items → Items
append_item v nil = cons v nil
append_item v (cons w is) = cons w (append_item v is)

-- `check_create_json_object`: a null pointer or a `JsonValue` is replaced by a new `JsonObject`.
unfoldable pub check_create_json_object : Json → Json
check_create_json_object empty = object false end nil
check_create_json_object (value s f) = object false end nil
check_create_json_object (object a fs is) = object a fs is

-- `json[key] = v`
set_key_of : List ℕ → Json → Json → Json
set_key_of k v (object a fs is) = object false (assign_field k v fs) is
set_key_of k v j = j

unfoldable pub set_key : List ℕ → Json → Json → Json
unfolding set_key_of check_create_json_object assign_field
set_key k v j = set_key_of k v (check_create_json_object j)

push_back_of : Json → Json → Json
push_back_of v (object a fs is) = object true fs (append_item v is)
push_back_of v j = j

unfoldable pub push_back : Json → Json → Json
unfolding push_back_of check_create_json_object append_item
push_back v j = push_back_of v (check_create_json_object j)

insert_all : List (List ℕ × Json) → Fields → Fields
insert_all [] fs = fs
insert_all ((k, v) ∷ ps) fs = insert_all ps (insert_field k v fs)

-- `Json(std::initializer_list<std::pair<std::string, Json>>)`
unfoldable pub from_pairs : List (List ℕ × Json) → Json
unfolding insert_all insert_field
from_pairs ps = object false (insert_all ps end) nil

-- `json[key]` read from a value whose object has the key.
unfoldable pub get_key : List ℕ → Json → Option Json
get_key k (object a fs is) = find_field k fs
get_key k j = none

-- `none` is the call through a null `m_value`, here and in `remove_field`.
unfoldable pub has_field : List ℕ → Json → Option Bool
has_field k empty = none
has_field k (value s f) = some false
has_field k (object true fs is) = some false
has_field k (object false fs is) = some (elim (find_field k fs) [ none ↦ false | some v ↦ true ])

unfoldable pub remove_field : List ℕ → Json → Option Json
unfolding erase_field
remove_field k empty = none
remove_field k (value s f) = some (value s f)
remove_field k (object a fs is) = some (object false (erase_field k fs) is)

unfoldable pub is_array : Json → Bool
is_array (object a fs is) = a
is_array j = false

unfoldable pub count_items : Items → ℕ
count_items nil = 0
count_items (cons v is) = suc (count_items is)

unfoldable pub count_fields : Fields → ℕ
count_fields end = 0
count_fields (field k v fs) = suc (count_fields fs)

-- `size()`; `none` is the call through a null `m_value`.
unfoldable pub size : Json → Option ℕ
unfolding count_items count_fields
size empty = none
size (value s f) = some 0
size (object true fs is) = some (count_items is)
size (object false fs is) = some (count_fields fs)
