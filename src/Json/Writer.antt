-- ===== src/Json/Writer.antt =====
-- core/json: how a value is written. The two methods of `JsonStringBuilder` append to the text, which
-- is a list of bytes here. The members of an object stand in the order in which the iteration over
-- `m_object` gives them. The text of a `double` is `std::to_chars`, a parameter.
use order_book_server_cpp.Prelude.{
  ℕ, zero, suc, ◌+◌, ◌/◌, ◌%◌, Option, none, some, Bool, true, false, List, [], ◌∷◌, ◌++◌, length,
  ltb, leb, if◌then◌else◌, codes,
}
use order_book_server_cpp.Prelude.Int.{ℤ, pos, negsuc}
use order_book_server_cpp.Json.{
  Scalar, null, bool, int64, uint64, double, string, Json, empty, value, object, Fields, end, field,
  Items, nil, cons,
}

-- The decimal digits of a number in front of a text. A 64-bit number has 20 digits at most.
unfoldable pub digits_before : ℕ → ℕ → List ℕ → List ℕ
digits_before zero n s = s
digits_before (suc rounds) n s =
    let more = digits_before rounds (n / 10) ((b'0' + n % 10) ∷ s) in
    if ltb n 10 then (b'0' + n) ∷ s else more

-- `std::to_chars` of the two integer types.
unfoldable pub uint64_text : ℕ → List ℕ
uint64_text n = digits_before 20 n []

unfoldable pub int64_text : ℤ → List ℕ
int64_text (pos n) = uint64_text n
int64_text (negsuc n) = b'-' ∷ uint64_text (suc n)

abbrev pub quote : ℕ
quote = 34

module _ (double_text : ℕ → List ℕ) where
  -- `JsonValue::write_string_value`, with `m_is_string_format`.
  unfoldable pub write_scalar : Scalar → Bool → List ℕ
  write_scalar null f = codes "null"
  write_scalar (bool b) f = if b then codes "true" else codes "false"
  write_scalar (int64 i) f = int64_text i
  write_scalar (uint64 n) f = uint64_text n
  write_scalar (double d) f = double_text d
  write_scalar (string s) f = if f then quote ∷ (s ++ quote ∷ []) else s

  unfoldable mutual
    pub write : Json → List ℕ
    write empty = codes "null"
    write (value s f) = write_scalar s f
    write (object true fs is) = b'[' ∷ (write_items is ++ b']' ∷ [])
    write (object false fs is) = b'{' ∷ (write_fields fs ++ b'}' ∷ [])

    -- The loops write a comma in front of every member but the first.
    pub write_items : Items → List ℕ
    write_items nil = []
    write_items (cons v nil) = write v
    write_items (cons v (cons w is)) = write v ++ b',' ∷ write_items (cons w is)

    pub write_fields : Fields → List ℕ
    write_fields end = []
    write_fields (field k v end) = quote ∷ (k ++ quote ∷ b':' ∷ write v)
    write_fields (field k v (field l w fs)) =
        quote ∷ (k ++ quote ∷ b':' ∷ (write v ++ b',' ∷ write_fields (field l w fs)))

  -- The text is built in a buffer of 100000 bytes; `none` is a write past its end.
  unfoldable pub get_string_value : Json → Option (List ℕ)
  get_string_value j = if leb (length (write j)) 100000 then some (write j) else none
