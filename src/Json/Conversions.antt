-- ===== src/Json/Conversions.antt =====
-- core/json/json_value.h and core/json/json.h: a `Json` read as a value of another type, and compared
-- with one. What C++ does to a double is a parameter, by bit patterns.
pub mod Comparisons
use order_book_server_cpp.Prelude.{
  ℕ, zero, suc, ◌+◌, ◌-◌, ◌%◌, ◌^◌, ◌≡◌, Option, none, some, ◌>>=◌, Bool, true, false, not, ◌||◌,
  List, [], ltb, leb, ◌==◌, if◌then◌else◌, text_eq,
}
use order_book_server_cpp.Prelude.Int.{
  ℤ, pos, negsuc, pos_part, neg_part, ◌==ℤ◌, to_size, add_i64, sub_i64,
}
use order_book_server_cpp.Json.{
  Scalar, null, bool, int64, uint64, double, string, Json, empty, value, object, of_int64,
  int64_of_uint64,
}

-- The conversions of a double that are built into C++; a value out of range is undefined.
pub record Doubles : Type 0 where
  pub zero_double : ℕ
  pub double_of_int64 : ℤ → ℕ
  pub double_of_uint64 : ℕ → ℕ
  pub int64_of_double : ℕ → Option ℤ
  pub uint64_of_double : ℕ → Option ℕ
  pub is_nonzero : ℕ → Bool

abbrev pub one_if : Bool → ℕ
one_if b = if b then 1 else 0

-- `JsonValue::operator T`: the default value of T where C++ has no implicit conversion.
unfoldable pub scalar_to_string : Scalar → List ℕ
scalar_to_string (string s) = s
scalar_to_string _ = []

module _ (d : Doubles) where
  unfoldable pub scalar_to_int64 : Scalar → Option ℤ
  scalar_to_int64 null = some (pos 0)
  scalar_to_int64 (bool b) = some (pos (one_if b))
  scalar_to_int64 (int64 i) = some i
  scalar_to_int64 (uint64 n) = some (int64_of_uint64 n)
  scalar_to_int64 (double x) = d.int64_of_double x
  scalar_to_int64 (string s) = some (pos 0)

  unfoldable pub scalar_to_uint64 : Scalar → Option ℕ
  scalar_to_uint64 null = some 0
  scalar_to_uint64 (bool b) = some (one_if b)
  scalar_to_uint64 (int64 i) = some (to_size i)
  scalar_to_uint64 (uint64 n) = some n
  scalar_to_uint64 (double x) = d.uint64_of_double x
  scalar_to_uint64 (string s) = some 0

  unfoldable pub scalar_to_bool : Scalar → Bool
  scalar_to_bool null = false
  scalar_to_bool (bool b) = b
  scalar_to_bool (int64 i) = not (i ==ℤ pos 0)
  scalar_to_bool (uint64 n) = not (n == 0)
  scalar_to_bool (double x) = d.is_nonzero x
  scalar_to_bool (string s) = false

  unfoldable pub scalar_to_double : Scalar → ℕ
  scalar_to_double null = d.zero_double
  scalar_to_double (bool b) = d.double_of_int64 (pos (one_if b))
  scalar_to_double (int64 i) = d.double_of_int64 i
  scalar_to_double (uint64 n) = d.double_of_uint64 n
  scalar_to_double (double x) = x
  scalar_to_double (string s) = d.zero_double

  -- `Json::operator T`: the default value of T on a null pointer and on an object.
  unfoldable pub to_int64 : Json → Option ℤ
  to_int64 (value s f) = scalar_to_int64 s
  to_int64 _ = some (pos 0)

  unfoldable pub to_uint64 : Json → Option ℕ
  to_uint64 (value s f) = scalar_to_uint64 s
  to_uint64 _ = some 0

  unfoldable pub to_bool : Json → Bool
  to_bool (value s f) = scalar_to_bool s
  to_bool _ = false

  unfoldable pub to_double : Json → ℕ
  to_double (value s f) = scalar_to_double s
  to_double _ = d.zero_double

unfoldable pub to_string : Json → List ℕ
unfolding scalar_to_string
to_string (value s f) = scalar_to_string s
to_string _ = []

unfoldable pub is_string : Json → Bool
is_string (value (string s) f) = true
is_string _ = false

-- `m_is_string_format` of a value; `none` is the write through an object taken for a value.
unfoldable pub set_is_string_format : Bool → Json → Option Json
set_is_string_format f empty = some empty
set_is_string_format f (value s g) = some (value s f)
set_is_string_format f (object a fs is) = none

-- The order of two `int64_t`.
abbrev pub ltℤ : ℤ → ℤ → Bool
ltℤ a b = ltb (pos_part a + neg_part b) (pos_part b + neg_part a)

-- Anything but a value is replaced by a null value, whose flag is set.
unfoldable pub check_create_json_value : Json → Scalar × Bool
check_create_json_value (value s f) = (s, f)
check_create_json_value _ = (null, true)

-- The comparisons with an `int64_t`; a null pointer and an object are not equal to it, not less and
-- not greater.
module _ (d : Doubles) where
  unfoldable pub equals_int64 : Json → ℤ → Option Bool
  equals_int64 (value s f) i = do c ← scalar_to_int64 d s; some (c ==ℤ i)
  equals_int64 _ i = some false

  unfoldable pub less_int64 : Json → ℤ → Option Bool
  less_int64 (value s f) i = do c ← scalar_to_int64 d s; some (ltℤ c i)
  less_int64 _ i = some false

  unfoldable pub greater_int64 : Json → ℤ → Option Bool
  greater_int64 (value s f) i = do c ← scalar_to_int64 d s; some (ltℤ i c)
  greater_int64 _ i = some false

  unfoldable pub less_equal_int64 : Json → ℤ → Option Bool
  less_equal_int64 j i = do g ← greater_int64 j i; some (not g)

  unfoldable pub greater_equal_int64 : Json → ℤ → Option Bool
  greater_equal_int64 j i = do l ← less_int64 j i; some (not l)

  unfoldable pub not_equals_int64 : Json → ℤ → Option Bool
  not_equals_int64 j i = do e ← equals_int64 j i; some (not e)

  -- `+=` and `-=` of an `int64_t`.
  unfoldable pub add_assign : ℤ → Json → Option Json
  add_assign i j = do
    c ← scalar_to_int64 d ((check_create_json_value j).0)
    sum ← add_i64 c i
    some (value (int64 sum) (check_create_json_value j).1)

  unfoldable pub sub_assign : ℤ → Json → Option Json
  sub_assign i j = do minus ← sub_i64 (pos 0) i; add_assign minus j
