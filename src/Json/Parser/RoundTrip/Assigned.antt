-- ===== src/Json/Parser/RoundTrip/Assigned.antt =====
-- core/json/json_object.h: fields that are written one after the other.
use order_book_server_cpp.Prelude.{
  ℕ, ◌≡◌, refl, sym, ap, ◌∙◌, none, List, text_eq, Bool-cases, inl, inr,
}
use order_book_server_cpp.Json.{Json, Fields, end, field, find_field, assign_field}
use order_book_server_cpp.Json.Parser.RoundTrip.{HavePlain}

-- The fields of one object and then those of another.
unfoldable pub join_fields : Fields → Fields → Fields
join_fields gs end = gs
join_fields gs (field k v fs) = join_fields (assign_field k v gs) fs

-- A key that is not there is put at the end.
front : Fields → Fields → Fields
front end fs = fs
front (field k v gs) fs = field k v (front gs fs)

front_end : (gs : Fields) → front gs end ≡ gs
unfolding front
front_end end = refl
front_end (field k v gs) = ap (field k v) (front_end gs)

front-assign :
    (k : List ℕ) (v : Json) (gs fs : Fields)
    → find_field k gs ≡ none
    → front (assign_field k v gs) fs ≡ front gs (field k v fs)
unfolding front assign_field find_field
front-assign k v end fs h = refl
front-assign k v (field l w gs) fs h = elim (Bool-cases (text_eq l k)) [
  | inl e ↦ cc (rw e at h)
  | inr e ↦ rw e (ap (field l w) (front-assign k v gs fs (rw e at h)))
]

join_fields-front : (gs fs : Fields) → HavePlain gs fs → join_fields gs fs ≡ front gs fs
unfolding join_fields HavePlain
join_fields-front gs end h = sym (front_end gs)
join_fields-front gs (field k v fs) h =
    join_fields-front (assign_field k v gs) fs h.3 ∙ front-assign k v gs fs h.1

-- Fields whose keys differ are put one behind the other.
pub join_fields-plain : (fs : Fields) → HavePlain end fs → join_fields end fs ≡ fs
unfolding front
join_fields-plain fs h = join_fields-front end fs h
