-- ===== src/Json/Parser/RoundTrip/Fuel.antt =====
-- core/json: the fuel of a value is bounded by the length of its text.
use order_book_server_cpp.Prelude.{
  ℕ, ◌+◌, ◌*◌, ◌≤◌, ◌≡◌, true, false, List, [], ◌∷◌, ◌++◌, length, length-append, arith,
}
use order_book_server_cpp.Json.{
  Scalar, null, bool, int64, uint64, double, string, Json, empty, value, object, Fields, end, field,
  Items, nil, cons, assign_field,
}
use order_book_server_cpp.Json.Writer.{
  quote, write_scalar, write, write_items, write_fields, int64_text,
}
use order_book_server_cpp.Json.Parser.{is_number, char_of}
use order_book_server_cpp.Json.Parser.Numbers.{int64_text-char_of}
use order_book_server_cpp.Json.Parser.RoundTrip.{
  IsPlain, ArePlain, HavePlain, IsPlainScalar, weight, weight_items, weight_fields, IsPlain-items,
  IsPlain-fields, not-IsPlain-both,
}

length-of_number : (s : List ℕ) → is_number (char_of s) ≡ true → 1 ≤ length s
length-of_number [] h = cc
length-of_number (c ∷ s) h = omega arith

module _ (double_text : ℕ → List ℕ) where
  write_scalar-positive :
      (s : Scalar) → IsPlainScalar s → 1 ≤ length (write_scalar double_text s true)
  unfolding write_scalar
  write_scalar-positive null p = omega arith
  write_scalar-positive (bool true) p = omega arith
  write_scalar-positive (bool false) p = omega arith
  write_scalar-positive (int64 i) p = length-of_number (int64_text i) (int64_text-char_of i)
  write_scalar-positive (uint64 n) p = absurd p
  write_scalar-positive (double d) p = absurd p
  write_scalar-positive (string s) p = omega arith

  length-write_items :
      (v : Json) (is : Items)
      → length (write double_text v) + length (write_items double_text is)
        ≤ length (write_items double_text (cons v is))
  unfolding write_items
  length-write_items v nil = omega arith
  length-write_items v (cons w is) =
      omega
        (arith, length-append (write double_text v) (b',' ∷ write_items double_text (cons w is)))

  length-write_fields :
      (k : List ℕ) (v : Json) (fs : Fields)
      → length (write double_text v) + length (write_fields double_text fs) + 3
        ≤ length (write_fields double_text (field k v fs))
  unfolding write_fields
  length-write_fields k v end = omega (arith, length-append k (quote ∷ b':' ∷ write double_text v))
  length-write_fields k v (field l w fs) =
      let more = write_fields double_text (field l w fs) in
      let text = write double_text v in
      omega (
        arith,
        length-append k (quote ∷ b':' ∷ (text ++ b',' ∷ more)),
        length-append text (b',' ∷ more),
      )

  mutual
    unfolding weight write IsPlain

    weight-le : (j : Json) → IsPlain j → weight j + 3 ≤ 4 * length (write double_text j)
    weight-le empty p = absurd p
    weight-le (value s true) p = omega (arith, write_scalar-positive s p)
    weight-le (value s false) p = absurd p
    weight-le (object true end is) p =
        let text = write_items double_text is in
        omega (arith, weight_items-le is (IsPlain-items is p), length-append text (b']' ∷ []))
    weight-le (object true (field k v fs) is) p = absurd p
    weight-le (object false fs nil) p =
        let text = write_fields double_text fs in
        omega (arith, weight_fields-le end fs (IsPlain-fields fs p), length-append text (b'}' ∷ []))
    weight-le (object false fs (cons w is)) p = absurd (not-IsPlain-both fs w is p)

    weight_items-le :
        (is : Items) → ArePlain is → weight_items is ≤ 4 * length (write_items double_text is) + 1
    weight_items-le nil p = omega arith
    weight_items-le (cons v is) p =
        omega (arith, weight-le v p.0, weight_items-le is p.1, length-write_items v is)

    weight_fields-le :
        (gs fs : Fields)
        → HavePlain gs fs
        → weight_fields fs ≤ 4 * length (write_fields double_text fs) + 1
    weight_fields-le gs end p = omega arith
    weight_fields-le gs (field k v fs) p = omega (
      arith,
      weight-le v p.2,
      weight_fields-le (assign_field k v gs) fs p.3,
      length-write_fields k v fs,
    )

  pub weight-le-length : (j : Json) → IsPlain j → weight j ≤ 4 * length (write double_text j)
  weight-le-length j p = omega (arith, weight-le j p)
