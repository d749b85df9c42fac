-- ===== src/Json/Parser.antt =====
-- core/json/json_parse.h and json_parse.cpp: class `JsonParseNew`, from its scanner up. `Bool` is
-- `m_is_valid`.
mod Scanner
pub mod Numbers
pub mod Scans
pub mod RoundTrip
pub mod Endless
pub use Scanner.{
  Pos, at, past, Outcome, returns, throws, fault, out_of_fuel, ◌>>=◌, char_of, next, exceeds,
  is_digit, is_number, is_letter, has_word, is_closing, cons_text, Number, goes_on,
}
unfoldable pub use Scanner.{
  is_true, is_false, is_null_at, starts_value, skip_to_value, find_delimiter, scan_quoted,
  parse_value_string, parse_key, c_string, scan_number, read_digits, read_int64, set_index,
  set_item,
}
use order_book_server_cpp.Prelude.{
  ℕ, zero, suc, ◌+◌, ◌-◌, ◌*◌, ◌^◌, ◌≡◌, Option, none, some, Bool, true, false, not, ◌&&◌, ◌||◌,
  List, [], ◌∷◌, ltb, leb, ◌==◌, if◌then◌else◌, codes, drop,
}
use order_book_server_cpp.Prelude.Int.{ℤ, pos, negsuc, sub_ℕ}
use order_book_server_cpp.Json.{
  Scalar, null, bool, int64, double, string, Json, empty, value, object, Items, nil, cons, end,
  set_key, check_create_json_object,
}
use order_book_server_cpp.Json.Writer.{quote}

-- `std::from_chars` of a `double` is a parameter; a value of it is its bits.
module _ (read_double : List ℕ → Option ℕ) where
  unfoldable pub number_value : Number → Json
  number_value n =
      if n.is_float
      then elim (read_double n.text) [ none ↦ empty | some d ↦ value (double d) true ]
      else elim (read_int64 n.text) [ none ↦ empty | some i ↦ value (int64 i) true ]

  -- The loop that ends `parse_value`.
  unfoldable pub to_delimiter : Json × Pos × Bool → Outcome (Json × Pos × Bool)
  to_delimiter (j, past, valid) = fault
  to_delimiter (j, at s, valid) =
      let (p, found) = find_delimiter s in returns (j, p, valid && found)

  unfoldable mutual
    -- From the start of a value, or a closing bracket.
    pub parse_start : ℕ → List ℕ → Outcome (Json × Pos × Bool)
    parse_start zero s = out_of_fuel
    parse_start (suc fuel) s =
        let text : Outcome (Json × Pos × Bool) = (do
          (t, p, valid) ← parse_value_string (drop 1 s)
          returns (value (string t) true, p, valid)) in
        let number = scan_number s in
        let fields = parse_object fuel (at (drop 1 s)) true empty in
        let items = parse_array fuel (at (drop 1 s)) true 0 empty in
        if char_of s == quote
        then text
        else if is_number (char_of s)
        then returns (number_value number, at number.rest, number.ends)
        else if is_true s
        then returns (value (bool true) true, at (drop 4 s), true)
        else if is_false s
        then returns (value (bool false) true, at (drop 5 s), true)
        else if is_null_at s
        then returns (value null true, at (drop 4 s), true)
        else if char_of s == b'{'
        then fields
        else if char_of s == b'['
        then items
        else returns (empty, at s, true)

    pub parse_value : ℕ → Pos → Bool → Outcome (Json × Pos × Bool)
    parse_value zero p valid = out_of_fuel
    parse_value (suc fuel) past valid = fault
    parse_value (suc fuel) (at s) valid =
        let parsed = λ (t : List ℕ). parse_start fuel t >>= to_delimiter in
        elim (skip_to_value s) [
          | none ↦ returns (empty, at s, false)
          | some t ↦
              if valid
              then parsed t
              else returns (empty, (if is_closing (char_of t) then at t else at s), false)
        ]

    -- The test for an empty object compares two addresses, so it never holds.
    pub parse_object : ℕ → Pos → Bool → Json → Outcome (Json × Pos × Bool)
    parse_object zero p valid res = out_of_fuel
    parse_object (suc fuel) past valid res = fault
    parse_object (suc fuel) (at s) valid res =
        let more : Outcome (Json × Pos × Bool) = (do
          (key, p, closed) ← parse_key s
          (v, q, valid') ← parse_value fuel p (valid && closed)
          let res' = set_key (c_string key) v res
          if exceeds q then returns (res', next q, false) else parse_object fuel q valid' res') in
        if char_of s == b'}' then returns (res, next (at s), valid) else more

    pub parse_array : ℕ → Pos → Bool → ℕ → Json → Outcome (Json × Pos × Bool)
    parse_array zero p valid index res = out_of_fuel
    parse_array (suc fuel) past valid index res = fault
    parse_array (suc fuel) (at s) valid index res =
        let more : Outcome (Json × Pos × Bool) = (do
          (v, q, valid') ← parse_value fuel (at s) valid
          let res' = set_item index v res
          if exceeds q
              then returns (res', next q, false)
              else parse_array fuel q valid' (suc index) res') in
        if char_of s == b']' then returns (res, next (at s), valid) else more

  abbrev pub if_valid : Json × Pos × Bool → Json
  if_valid (j, p, true) = j
  if_valid (j, p, false) = value null true

  -- The first loop of `parse`: an object or an array; with neither, the array starts behind the text.
  unfoldable pub parse_from : ℕ → List ℕ → Outcome (Json × Pos × Bool)
  parse_from fuel [] = parse_array fuel past false 0 empty
  parse_from fuel (c ∷ s) =
      let rest = parse_from fuel s in
      if c == b'{'
      then parse_object fuel (at s) true empty
      else if c == b'['
      then parse_array fuel (at s) true 0 empty
      else rest

  unfoldable pub parse : ℕ → List ℕ → Outcome Json
  parse fuel [] = returns (value null true)
  parse fuel (c ∷ s) = do r ← parse_from fuel (c ∷ s); returns (if_valid r)
