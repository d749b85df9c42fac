-- ===== src/Json/Access.antt =====
-- core/json/json.cpp and core/json/json_object.h: reads after writes.
use order_book_server_cpp.Prelude.{
  ℕ, suc, ◌≡◌, refl, Bool, true, List, if◌then◌else◌, text_eq, text_eq_refl, text_eq→eq, some,
  arith,
}
use order_book_server_cpp.Json.{
  Json, object, Fields, end, field, Items, nil, cons, find_field, assign_field, set_key, get_key,
  push_back, is_array, size, append_item, count_items,
}

find-assign :
    (k l : List ℕ) (v : Json) (fs : Fields)
    → find_field l (assign_field k v fs) ≡ (if text_eq k l then some v else find_field l fs)
unfolding find_field assign_field
find-assign k l v end = refl
find-assign k l v (field m w fs) = ground (
  arith,
  text_eq→eq m k,
  text_eq→eq m l,
  text_eq→eq k l,
  text_eq_refl k,
  text_eq_refl l,
  find-assign k l v fs,
)

-- On an object a key reads as what was last written under it, and every other key as before.
get_key-set_key :
    (k l : List ℕ) (v : Json) (a : Bool) (fs : Fields) (is : Items)
    → get_key l (set_key k v (object a fs is))
      ≡ (if text_eq k l then some v else get_key l (object a fs is))
unfolding get_key set_key
get_key-set_key k l v a fs is = find-assign k l v fs

pub count-append : (v : Json) (is : Items) → count_items (append_item v is) ≡ suc (count_items is)
unfolding count_items append_item
count-append v nil = refl
count-append v (cons w is) = ground (arith, count-append v is)

-- `push_back` on an object or an array makes it an array, one item longer than its items were.
size-push_back :
    (v : Json) (a : Bool) (fs : Fields) (is : Items)
    → (is_array (push_back v (object a fs is)) ≡ true)
      × (size (push_back v (object a fs is)) ≡ some (suc (count_items is)))
unfolding is_array push_back size
size-push_back v a fs is = (refl, ground (arith, count-append v is))
