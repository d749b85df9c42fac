-- ===== src/Json/Containers.antt =====
-- core/json/json.cpp and core/json/json_object.{h,cpp}: arrays by index, their size and order, and the
-- loops over members. A `JsonObject` keeps its members when it is made an array.
pub mod Indexed
use order_book_server_cpp.Prelude.{
  ℕ, zero, suc, ◌+◌, ◌-◌, ◌<◌, ◌≤◌, ◌≡◌, refl, sym, ap, ◌∙◌, Option, none, some, Bool, true, false,
  List, [], ◌∷◌, ◌++◌, length, ltb, leb, ◌==◌, if◌then◌else◌, arith, Bool-cases, inl, inr, max,
}
use order_book_server_cpp.Json.{
  Json, empty, value, object, Fields, end, field, Items, nil, cons, check_create_json_object,
  count_items,
}

-- `m_array.resize`: null values are added, or the last items are dropped.
unfoldable pub resize : ℕ → Items → Items
resize zero is = nil
resize (suc n) nil = cons empty (resize n nil)
resize (suc n) (cons v is) = cons v (resize n is)

unfoldable pub item_at : ℕ → Items → Option Json
item_at i nil = none
item_at zero (cons v is) = some v
item_at (suc i) (cons v is) = item_at i is

unfoldable pub replace_item : ℕ → Json → Items → Items
replace_item i v nil = nil
replace_item zero v (cons w is) = cons v is
replace_item (suc i) v (cons w is) = cons w (replace_item i v is)

-- `json[index]` makes room for the index.
unfoldable pub room_for : ℕ → Items → Items
unfolding resize count_items
room_for i is = if leb (count_items is) i then resize (i + 1) is else is

index_of : ℕ → Json → Json
unfolding room_for
index_of i (object a fs is) = object true fs (room_for i is)
index_of i j = j

-- What a read of `json[index]` leaves behind; the item is that of `get_index`.
unfoldable pub touch_index : ℕ → Json → Json
unfolding index_of check_create_json_object
touch_index i j = index_of i (check_create_json_object j)

unfoldable pub get_index : ℕ → Json → Option Json
get_index i (object true fs is) = item_at i is
get_index i j = none

put_item : ℕ → Json → Json → Json
unfolding replace_item
put_item i v (object a fs is) = object a fs (replace_item i v is)
put_item i v j = j

-- `json[index] = v`
unfoldable pub assign_index : ℕ → Json → Json → Json
unfolding put_item touch_index
assign_index i v j = put_item i v (touch_index i j)

set_size_of : ℕ → Json → Json
unfolding resize
set_size_of n (object a fs is) = object true fs (resize n is)
set_size_of n j = j

unfoldable pub set_size : ℕ → Json → Json
unfolding set_size_of check_create_json_object
set_size n j = set_size_of n (check_create_json_object j)

-- `std::reverse`
unfoldable pub reverse_onto : Items → Items → Items
reverse_onto nil acc = acc
reverse_onto (cons v is) acc = reverse_onto is (cons v acc)

reverse_of : Json → Json
unfolding reverse_onto
reverse_of (object a fs is) = object true fs (reverse_onto is nil)
reverse_of j = j

unfoldable pub reverse : Json → Json
unfolding reverse_of check_create_json_object
reverse j = reverse_of (check_create_json_object j)

unfoldable pub is_object : Json → Bool
is_object (object false fs is) = true
is_object _ = false

-- A loop over the members changes each by the function it is given.
unfoldable pub map_fields : (Json → Json) → Fields → Fields
map_fields f end = end
map_fields f (field k v fs) = field k (f v) (map_fields f fs)

unfoldable pub map_items : (ℕ → Json → Json) → ℕ → Items → Items
map_items f i nil = nil
map_items f i (cons v is) = cons (f i v) (map_items f (i + 1) is)

unfoldable pub map_fields_with_key : (List ℕ → Json → Json) → Fields → Fields
map_fields_with_key f end = end
map_fields_with_key f (field k v fs) = field k (f k v) (map_fields_with_key f fs)

unfoldable pub for_each : (Json → Json) → Json → Json
unfolding map_fields map_items
for_each f (object false fs is) = object false (map_fields f fs) is
for_each f (object true fs is) = object true fs (map_items (λ i. f) 0 is)
for_each f j = j

unfoldable pub for_each_with_key : (List ℕ → Json → Json) → Json → Json
unfolding map_fields_with_key
for_each_with_key f (object false fs is) = object false (map_fields_with_key f fs) is
for_each_with_key f j = j

unfoldable pub for_each_with_index : (ℕ → Json → Json) → Json → Json
unfolding map_items
for_each_with_index f (object true fs is) = object true fs (map_items f 0 is)
for_each_with_index f j = j
