-- ===== src/Json/Parser/RoundTrip/Scalars.antt =====
-- core/json: a null, a Boolean, an integer and a string, read from the text that shows it.
use mathlib.Core.List.{append_assoc}
use order_book_server_cpp.Prelude.{
  ℕ, suc, ◌≡◌, refl, Option, true, false, List, [], ◌∷◌, ◌++◌, ◌==◌, arith, codes,
}
use order_book_server_cpp.Json.{Scalar, null, bool, int64, uint64, double, string, value}
use order_book_server_cpp.Json.Writer.{quote, write_scalar, int64_text}
use order_book_server_cpp.Json.Parser.{
  at, returns, char_of, is_number, is_letter, starts_value, parse_start, number_value, is_true,
  is_false, is_null_at,
}
use order_book_server_cpp.Json.Parser.Numbers.{
  int64_text-All, int64_text-char_of, read_int64-int64_text, scan_number-append,
}
use order_book_server_cpp.Json.Parser.Scans.{is_delimiter, not-goes_on, parse_value_string-append}
use order_book_server_cpp.Json.Parser.RoundTrip.{IsPlainScalar}

delimiter-not_letter : (c : ℕ) → is_delimiter c ≡ true → is_letter c ≡ false
delimiter-not_letter c h = ground arith

delimiter-not_number : (c : ℕ) → is_delimiter c ≡ true → is_number c ≡ false
delimiter-not_number c h = ground arith

-- The words behind which a value ends.
is_null_at-word :
    (c : ℕ) (t : List ℕ) → is_delimiter c ≡ true → is_null_at (codes "null" ++ c ∷ t) ≡ true
unfolding is_null_at
is_null_at-word c t h = rw (delimiter-not_letter c h, delimiter-not_number c h) refl

is_true-word : (c : ℕ) (t : List ℕ) → is_delimiter c ≡ true → is_true (codes "true" ++ c ∷ t) ≡ true
unfolding is_true
is_true-word c t h = rw (delimiter-not_letter c h) refl

is_false-word :
    (c : ℕ) (t : List ℕ) → is_delimiter c ≡ true → is_false (codes "false" ++ c ∷ t) ≡ true
unfolding is_false
is_false-word c t h = rw (delimiter-not_letter c h) refl

number-not_quote : (c : ℕ) → is_number c ≡ true → (c == quote) ≡ false
number-not_quote c h = ground arith

char_of-append : (s t : List ℕ) → is_number (char_of s) ≡ true → char_of (s ++ t) ≡ char_of s
char_of-append [] t h = cc
char_of-append (c ∷ s) t h = refl

starts_value-number : (s : List ℕ) → is_number (char_of s) ≡ true → starts_value s ≡ true
unfolding starts_value
starts_value-number s h = ground (arith, h)

module _ (double_text : ℕ → List ℕ) (read_double : List ℕ → Option ℕ) where
  pub starts_value-scalar :
      (s : Scalar) (c : ℕ) (t : List ℕ)
      → IsPlainScalar s
      → is_delimiter c ≡ true
      → starts_value (write_scalar double_text s true ++ c ∷ t) ≡ true
  unfolding write_scalar starts_value
  starts_value-scalar null c t p h = is_null_at-word c t h
  starts_value-scalar (bool true) c t p h = rw (delimiter-not_letter c h) refl
  starts_value-scalar (bool false) c t p h = rw (delimiter-not_letter c h) refl
  starts_value-scalar (int64 i) c t p h =
      starts_value-number (int64_text i ++ c ∷ t)
        (rw (char_of-append (int64_text i) (c ∷ t) (int64_text-char_of i)) (int64_text-char_of i))
  starts_value-scalar (uint64 n) c t p h = absurd p
  starts_value-scalar (double d) c t p h = absurd p
  starts_value-scalar (string s) c t p h = refl

  pub parse_start-scalar :
      (s : Scalar) (fuel c : ℕ) (t : List ℕ)
      → IsPlainScalar s
      → is_delimiter c ≡ true
      → parse_start read_double (suc fuel) (write_scalar double_text s true ++ c ∷ t)
        ≡ returns (value s true, at (c ∷ t), true)
  unfolding write_scalar parse_start number_value is_true is_false
  parse_start-scalar null fuel c t p h = rw (is_null_at-word c t h) refl
  parse_start-scalar (bool true) fuel c t p h = rw (delimiter-not_letter c h) refl
  parse_start-scalar (bool false) fuel c t p h = rw (delimiter-not_letter c h) refl
  parse_start-scalar (int64 i) fuel c t p h =
      let head = char_of-append (int64_text i) (c ∷ t) (int64_text-char_of i) in
      let digit = int64_text-char_of i in
      let not_quote = number-not_quote (char_of (int64_text i)) digit in
      let scan = scan_number-append (int64_text i) c t (int64_text-All i) (not-goes_on c t h) in
      rw (head, not_quote, digit, scan, read_int64-int64_text i p) refl
  parse_start-scalar (uint64 n) fuel c t p h = absurd p
  parse_start-scalar (double d) fuel c t p h = absurd p
  parse_start-scalar (string s) fuel c t p h =
      let read = parse_value_string-append s (c ∷ t) p in
      rw (append_assoc s (quote ∷ []) (c ∷ t), read) refl
