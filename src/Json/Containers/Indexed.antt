-- ===== src/Json/Containers/Indexed.antt =====
-- core/json/json.cpp and core/json/json_object.h: arrays by index.
use order_book_server_cpp.Prelude.{
  ℕ, zero, suc, ◌+◌, ◌<◌, ◌≤◌, ◌≡◌, refl, ap, ◌∙◌, Option, none, some, true, ltb, leb, ◌==◌,
  if◌then◌else◌, arith, Bool-cases, inl, inr, max,
}
use order_book_server_cpp.Json.{
  Json, empty, value, object, Fields, Items, nil, cons, check_create_json_object, count_items, size,
}
use order_book_server_cpp.Json.Arrays.{join, join_nil}
use order_book_server_cpp.Json.Containers.{
  resize, item_at, replace_item, room_for, touch_index, get_index, assign_index, reverse_onto,
  reverse,
}

count_items-resize : (n : ℕ) (is : Items) → count_items (resize n is) ≡ n
unfolding count_items resize
count_items-resize zero is = refl
count_items-resize (suc n) nil = ap suc (count_items-resize n nil)
count_items-resize (suc n) (cons v is) = ap suc (count_items-resize n is)

count_items-replace_item :
    (i : ℕ) (v : Json) (is : Items) → count_items (replace_item i v is) ≡ count_items is
unfolding count_items replace_item
count_items-replace_item i v nil = refl
count_items-replace_item zero v (cons w is) = refl
count_items-replace_item (suc i) v (cons w is) = ap suc (count_items-replace_item i v is)

item_at-resize :
    (k n : ℕ) (is : Items)
    → item_at k (resize n is)
      ≡ (if ltb k n then (if ltb k (count_items is) then item_at k is else some empty) else none)
unfolding item_at resize count_items
item_at-resize k zero is = ground arith
item_at-resize zero (suc n) nil = ground arith
item_at-resize zero (suc n) (cons v is) = ground arith
item_at-resize (suc k) (suc n) nil = ground (arith, item_at-resize k n nil)
item_at-resize (suc k) (suc n) (cons v is) = ground (arith, item_at-resize k n is)

item_at-replace_item :
    (k i : ℕ) (v : Json) (is : Items)
    → i < count_items is
    → item_at k (replace_item i v is) ≡ (if k == i then some v else item_at k is)
unfolding item_at replace_item count_items
item_at-replace_item k i v nil h = absurd (omega arith)
item_at-replace_item zero zero v (cons w is) h = refl
item_at-replace_item (suc k) zero v (cons w is) h = ground arith
item_at-replace_item zero (suc i) v (cons w is) h = ground arith
item_at-replace_item (suc k) (suc i) v (cons w is) h =
    ground (arith, item_at-replace_item k i v is (omega arith))

item_at_end : (k : ℕ) (is : Items) → count_items is ≤ k → item_at k is ≡ none
unfolding item_at count_items
item_at_end k nil h = refl
item_at_end zero (cons v is) h = absurd (omega arith)
item_at_end (suc k) (cons v is) h = item_at_end k is (omega arith)

-- The array that a `Json` keeps, if any.
abbrev pub items_of : Json → Items
items_of (object a fs is) = is
items_of _ = nil

-- The items after `json[i] = v`.
abbrev pub written : ℕ → Json → Items → ℕ → Option Json
written i v is k =
    if k == i
    then some v
    else if ltb k (count_items is)
    then item_at k is
    else if ltb k i
    then some empty
    else none

room_for-written :
    (k i : ℕ) (v : Json) (is : Items)
    → (item_at k (replace_item i v (room_for i is)) ≡ written i v is k)
      × (count_items (replace_item i v (room_for i is)) ≡ max (count_items is) (i + 1))
unfolding room_for
room_for-written k i v is = elim (Bool-cases (leb (count_items is) i)) [
  | inl e ↦
      let longer = count_items-resize (i + 1) is in
      (
        rw e (
            item_at-replace_item k i v (resize (i + 1) is) (omega (arith, longer))
            ∙ ground (arith, item_at-resize k (i + 1) is)),
        rw e (count_items-replace_item i v (resize (i + 1) is) ∙ longer ∙ ground arith),
      )
  | inr e ↦ (
    rw e (item_at-replace_item k i v is (ground arith) ∙ ground (arith, item_at_end k is)),
    rw e (count_items-replace_item i v is ∙ ground arith),
  )
]

-- After `json[i] = v` the value is an array with `v` at `i`; the other items are those of the array that
-- it kept, whatever it was, with null in the places between its end and `i`; it is as long as it was, or
-- `i + 1` if that is more.
pub get_index-assign_index :
    (i k : ℕ) (v j : Json)
    → (get_index k (assign_index i v j) ≡ written i v (items_of j) k)
      × (size (assign_index i v j) ≡ some (max (count_items (items_of j)) (i + 1)))
unfolding get_index assign_index touch_index check_create_json_object size
get_index-assign_index i k v empty =
    let (at_k, long) = room_for-written k i v nil in (at_k, ap some long)
get_index-assign_index i k v (value s f) =
    let (at_k, long) = room_for-written k i v nil in (at_k, ap some long)
get_index-assign_index i k v (object a fs is) =
    let (at_k, long) = room_for-written k i v is in (at_k, ap some long)

reverse_onto-twice :
    (is acc js : Items) → reverse_onto (reverse_onto is acc) js ≡ reverse_onto acc (join is js)
unfolding reverse_onto join
reverse_onto-twice nil acc js = refl
reverse_onto-twice (cons v is) acc js = reverse_onto-twice is (cons v acc) js

-- An array reversed twice is as it was.
reverse-twice :
    (fs : Fields) (is : Items) → reverse (reverse (object true fs is)) ≡ object true fs is
unfolding reverse check_create_json_object reverse_onto
reverse-twice fs is = ap (object true fs) (reverse_onto-twice is nil nil ∙ join_nil is)
