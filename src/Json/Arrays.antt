-- ===== src/Json/Arrays.antt =====
-- core/json/json.cpp: arrays that a loop of `push_back` builds.
use order_book_server_cpp.Prelude.{◌≡◌, refl, sym, ap, true, List, [], ◌∷◌}
use order_book_server_cpp.Json.{
  Json, empty, object, Fields, end, Items, nil, cons, push_back, append_item,
  check_create_json_object,
}

-- The values of a list pushed one after the other.
unfoldable pub push_all : List Json → Json → Json
push_all [] acc = acc
push_all (v ∷ vs) acc = push_all vs (push_back v acc)

abbrev pub items : List Json → Items
items [] = nil
items (v ∷ vs) = cons v (items vs)

-- An array of the values, and a null value when there is none.
abbrev pub array_json : List Json → Json
array_json [] = empty
array_json (v ∷ vs) = object true end (items (v ∷ vs))

-- The items of one array and then those of another.
unfoldable pub join : Items → Items → Items
join nil js = js
join (cons v is) js = cons v (join is js)

pub join-append : (v : Json) (is js : Items) → join (append_item v is) js ≡ join is (cons v js)
unfolding join append_item
join-append v nil js = refl
join-append v (cons w is) js = ap (cons w) (join-append v is js)

pub join_nil : (is : Items) → join is nil ≡ is
unfolding join
join_nil nil = refl
join_nil (cons v is) = ap (cons v) (join_nil is)

push_all_object :
    (vs : List Json) (fs : Fields) (is : Items)
    → push_all vs (object true fs is) ≡ object true fs (join is (items vs))
unfolding push_all push_back
push_all_object [] fs is = ap (object true fs) (sym (join_nil is))
push_all_object (v ∷ vs) fs is =
    rw (push_all_object vs fs (append_item v is), join-append v is (items vs)) refl

pub push_all-array_json : (vs : List Json) → push_all vs empty ≡ array_json vs
unfolding push_all push_back append_item check_create_json_object join
push_all-array_json [] = refl
push_all-array_json (v ∷ vs) = push_all_object vs end (cons v nil)
