-- ===== src/Json/Parser/Endless.antt =====
-- core/json/json_parse.cpp: a closing brace in an array is never passed.
use order_book_server_cpp.Prelude.{ℕ, zero, suc, ◌≡◌, refl, Option, some, true, List, ◌∷◌}
use order_book_server_cpp.Json.{Json, empty}
use order_book_server_cpp.Json.Parser.{
  at, returns, out_of_fuel, set_item, starts_value, skip_to_value, to_delimiter, parse_start,
  parse_value, parse_array, parse_from, parse, is_true, is_false, is_null_at,
}
use order_book_server_cpp.Json.Parser.Scans.{find_delimiter-here}

skip_to_value-brace : (s : List ℕ) → skip_to_value (b'}' ∷ s) ≡ some (b'}' ∷ s)
unfolding skip_to_value starts_value
skip_to_value-brace s = refl

module _ (read_double : List ℕ → Option ℕ) where
  parse_start-brace :
      (fuel : ℕ) (s : List ℕ)
      → parse_start read_double (suc fuel) (b'}' ∷ s) ≡ returns (empty, at (b'}' ∷ s), true)
  unfolding parse_start is_true is_false is_null_at
  parse_start-brace fuel s = refl

  parse_value-brace :
      (fuel : ℕ) (s : List ℕ)
      → parse_value read_double (suc (suc fuel)) (at (b'}' ∷ s)) true
        ≡ returns (empty, at (b'}' ∷ s), true)
  unfolding parse_value to_delimiter
  parse_value-brace fuel s =
      rw
        (
          parse_value,
          skip_to_value-brace s,
          parse_start-brace fuel s,
          to_delimiter,
          find_delimiter-here b'}' s refl,
        )
        refl

  parse_value-short : (s : List ℕ) → parse_value read_double 1 (at (b'}' ∷ s)) true ≡ out_of_fuel
  unfolding parse_value
  parse_value-short s = rw (parse_value, skip_to_value-brace s) refl

  -- The array takes a null value at the brace and stays there.
  parse_array-brace :
      (fuel n : ℕ) (s : List ℕ) (res : Json)
      → parse_array read_double fuel (at (b'}' ∷ s)) true n res ≡ out_of_fuel
  unfolding parse_array
  parse_array-brace zero n s res = refl
  parse_array-brace (suc zero) n s res = refl
  parse_array-brace (suc (suc zero)) n s res = rw (parse_value-short s) refl
  parse_array-brace (suc (suc (suc fuel))) n s res =
      rw (parse_value-brace fuel s)
        (parse_array-brace (suc (suc fuel)) (suc n) s (set_item n empty res))

  -- However long it runs, the parser does not finish on a text that starts with `[}`.
  parse-never_ends :
      (fuel : ℕ) (s : List ℕ) → parse read_double fuel (b'[' ∷ b'}' ∷ s) ≡ out_of_fuel
  unfolding parse parse_from
  parse-never_ends fuel s = rw (parse_array-brace fuel 0 s empty) refl
