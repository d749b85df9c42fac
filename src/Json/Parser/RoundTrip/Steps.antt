-- ===== src/Json/Parser/RoundTrip/Steps.antt =====
-- core/json/json_parse.cpp: one step of each loop, on a text that was written.
use order_book_server_cpp.Prelude.{
  ℕ, suc, ◌≡◌, refl, ap, Option, some, true, false, List, [], ◌∷◌, ◌==◌, arith,
}
use order_book_server_cpp.Json.{
  Json, empty, object, end, Items, nil, cons, set_key, append_item, count_items,
}
use order_book_server_cpp.Json.Parser.{
  at, returns, char_of, exceeds, is_closing, starts_value, skip_to_value, find_delimiter, parse_key,
  c_string, set_index, set_item, to_delimiter, parse_start, parse_value, parse_object, parse_array,
  is_true, is_false, is_null_at,
}
use order_book_server_cpp.Json.Parser.Scans.{is_delimiter, find_delimiter-here}

-- A text that starts with a value does not start with a closing bracket.
pub not_closing : (s : List ℕ) → starts_value s ≡ true → is_closing (char_of s) ≡ false
unfolding starts_value
not_closing [] h = refl
not_closing (c ∷ s) h = ground arith

pub find_delimiter-char :
    (s : List ℕ) → is_delimiter (char_of s) ≡ true → find_delimiter s ≡ (at s, true)
find_delimiter-char [] h = cc
find_delimiter-char (c ∷ s) h = find_delimiter-here c s h

pub exceeds-char : (s : List ℕ) → is_delimiter (char_of s) ≡ true → exceeds (at s) ≡ false
exceeds-char [] h = cc
exceeds-char (c ∷ s) h = refl

set_index-count : (v : Json) (is : Items) → set_index (count_items is) v is ≡ append_item v is
unfolding set_index append_item count_items
set_index-count v nil = refl
set_index-count v (cons w is) = ap (cons w) (set_index-count v is)

pub set_item-count :
    (v : Json) (is : Items)
    → set_item (count_items is) v (object true end is) ≡ object true end (append_item v is)
unfolding set_item append_item count_items
set_item-count v nil = refl
set_item-count v (cons w is) = ap (object true end) (ap (cons w) (set_index-count v is))

module _ (read_double : List ℕ → Option ℕ) where
  pub parse_value-start :
      (fuel : ℕ) (s u t : List ℕ) (v : Json)
      → skip_to_value s ≡ some u
      → parse_start read_double fuel u ≡ returns (v, at t, true)
      → is_delimiter (char_of t) ≡ true
      → parse_value read_double (suc fuel) (at s) true ≡ returns (v, at t, true)
  unfolding parse_value to_delimiter
  parse_value-start fuel s u t v skip start stop =
      rw (parse_value, skip, start, to_delimiter, find_delimiter-char t stop) refl

  pub parse_array-item :
      (fuel n : ℕ) (s u : List ℕ) (v res : Json)
      → (char_of s == b']') ≡ false
      → parse_value read_double fuel (at s) true ≡ returns (v, at u, true)
      → exceeds (at u) ≡ false
      → parse_array read_double (suc fuel) (at s) true n res
        ≡ parse_array read_double fuel (at u) true (suc n) (set_item n v res)
  unfolding parse_array
  parse_array-item fuel n s u v res open_ item more = rw (open_, item, more) refl

  pub parse_object-field :
      (fuel : ℕ) (s p u k : List ℕ) (v res : Json)
      → (char_of s == b'}') ≡ false
      → parse_key s ≡ returns (k, at p, true)
      → parse_value read_double fuel (at p) true ≡ returns (v, at u, true)
      → exceeds (at u) ≡ false
      → c_string k ≡ k
      → parse_object read_double (suc fuel) (at s) true res
        ≡ parse_object read_double fuel (at u) true (set_key k v res)
  unfolding parse_object
  parse_object-field fuel s p u k v res open_ key item more whole =
      rw (open_, key, item, more, whole) refl

  pub parse_start-array :
      (fuel : ℕ) (s : List ℕ)
      → parse_start read_double (suc fuel) (b'[' ∷ s)
        ≡ parse_array read_double fuel (at s) true 0 empty
  unfolding parse_start is_true is_false is_null_at
  parse_start-array fuel s = refl

  pub parse_start-object :
      (fuel : ℕ) (s : List ℕ)
      → parse_start read_double (suc fuel) (b'{' ∷ s)
        ≡ parse_object read_double fuel (at s) true empty
  unfolding parse_start is_true is_false is_null_at
  parse_start-object fuel s = refl

  pub parse_array-close :
      (fuel n : ℕ) (s : List ℕ) (res : Json)
      → parse_array read_double (suc fuel) (at (b']' ∷ s)) true n res ≡ returns (res, at s, true)
  unfolding parse_array
  parse_array-close fuel n s res = refl

  pub parse_object-close :
      (fuel : ℕ) (s : List ℕ) (res : Json)
      → parse_object read_double (suc fuel) (at (b'}' ∷ s)) true res ≡ returns (res, at s, true)
  unfolding parse_object
  parse_object-close fuel s res = refl
