-- ===== src/Json/Conversions/Comparisons.antt =====
-- core/json/json.h: the conversions and the comparisons against each other.
use order_book_server_cpp.Prelude.{
  ℕ, ◌^◌, ◌<◌, ◌≡◌, refl, ap, some, Bool, true, false, not, ◌||◌, ltb, arith, Bool-cases, inl, inr,
}
use order_book_server_cpp.Prelude.Int.{
  ℤ, pos, negsuc, ◌==ℤ◌, to_size, is_int64, add_i64, sub_i64, ◌+ℤ◌, ◌-ℤ◌, int_laws,
}
use order_book_server_cpp.Json.{
  Scalar, int64, Json, empty, value, object, of_int64, of_uint64, int64_of_uint64,
}
use order_book_server_cpp.Json.Conversions.{
  Doubles, scalar_to_int64, scalar_to_uint64, to_int64, to_uint64, equals_int64, less_int64,
  greater_int64, less_equal_int64, greater_equal_int64, not_equals_int64, ltℤ, add_assign,
  sub_assign, check_create_json_value,
}

to_size-int64_of_uint64 : (n : ℕ) → n < 2 ^ 64 → to_size (int64_of_uint64 n) ≡ n
unfolding to_size
to_size-int64_of_uint64 n h = elim (Bool-cases (ltb n (2 ^ 63))) [
  | inl e ↦ rw e (omega arith)
  | inr e ↦ rw e (omega arith)
]

-- The three orders of two integers exclude each other and leave nothing out.
orders :
    (c i : ℤ)
    → (not (ltℤ i c) ≡ (ltℤ c i || (c ==ℤ i)))
      × (not (ltℤ c i) ≡ (ltℤ i c || (c ==ℤ i)))
      × (not (c ==ℤ i) ≡ (ltℤ c i || ltℤ i c))
orders (pos a) (pos b) = (ground arith, ground arith, ground arith)
orders (pos a) (negsuc b) = (ground arith, ground arith, ground arith)
orders (negsuc a) (pos b) = (ground arith, ground arith, ground arith)
orders (negsuc a) (negsuc b) = (ground arith, ground arith, ground arith)

-- Integers stored in a `Json` are read back: an `int64_t` as it was, and a `uint64_t`, which is stored
-- as an `int64_t`, by the conversion to `uint64_t`.
pub to_uint64-of_uint64 :
    (d : Doubles) (i : ℤ) (n : ℕ)
    → n < 2 ^ 64
    → (to_int64 d (of_int64 i) ≡ some i) × (to_uint64 d (of_uint64 n) ≡ some n)
unfolding to_int64 to_uint64 scalar_to_int64 scalar_to_uint64 to_size
to_uint64-of_uint64 d i n h = (refl, rw (to_size-int64_of_uint64 n h) refl)

-- What the six comparisons of a value with an integer come to, given the integer that it converts to.
abbrev pub ComparesAs : Doubles → Json → ℤ → Bool → Bool → Bool → Type 0
ComparesAs d j i lt eq gt =
    (less_int64 d j i ≡ some lt)
    × (equals_int64 d j i ≡ some eq)
    × (greater_int64 d j i ≡ some gt)
    × (less_equal_int64 d j i ≡ some (lt || eq))
    × (greater_equal_int64 d j i ≡ some (gt || eq))
    × (not_equals_int64 d j i ≡ some (lt || gt))

compare_value :
    (d : Doubles) (s : Scalar) (f : Bool) (c i : ℤ)
    → scalar_to_int64 d s ≡ some c
    → ComparesAs d (value s f) i (ltℤ c i) (c ==ℤ i) (ltℤ i c)
unfolding less_int64 equals_int64 greater_int64 less_equal_int64 greater_equal_int64
    not_equals_int64
compare_value d s f c i h =
    let (le, ge, ne) = orders c i in rw h (refl, refl, refl, ap some le, ap some ge, ap some ne)

-- The comparisons of a value are those of the integers. On a null pointer and on an object `<`, `>` and
-- `==` are all false, and `<=`, `>=` and `!=` are all true.
abbrev pub Compares : Doubles → Json → ℤ → ℤ → Type 0
Compares d (value s f) i c = ComparesAs d (value s f) i (ltℤ c i) (c ==ℤ i) (ltℤ i c)
Compares d j i c =
    (less_int64 d j i ≡ some false)
    × (equals_int64 d j i ≡ some false)
    × (greater_int64 d j i ≡ some false)
    × (less_equal_int64 d j i ≡ some true)
    × (greater_equal_int64 d j i ≡ some true)
    × (not_equals_int64 d j i ≡ some true)

-- Where the conversion to an `int64_t` is defined: a value compares with an integer as the integer that
-- it converts to, in all six comparisons, `<=` being `<` or `==`, and the like. A null pointer and an
-- object are neither less nor equal nor greater, and yet `<=`, `>=` and `!=`.
pub Compares-to_int64 :
    (d : Doubles) (j : Json) (i c : ℤ) → to_int64 d j ≡ some c → Compares d j i c
unfolding to_int64 less_int64 equals_int64 greater_int64 less_equal_int64 greater_equal_int64
    not_equals_int64
Compares-to_int64 d empty i c h = (refl, refl, refl, refl, refl, refl)
Compares-to_int64 d (value s f) i c h = compare_value d s f c i h
Compares-to_int64 d (object a fs is) i c h = (refl, refl, refl, refl, refl, refl)

back : (c i : ℤ) → c +ℤ i +ℤ (pos 0 -ℤ i) ≡ c
back c i = grind int_laws

-- `+=` of an integer and then `-=` of it: the value is read as before, where neither overflows.
pub sub_assign-add_assign :
    (d : Doubles) (j : Json) (i c : ℤ)
    → scalar_to_int64 d ((check_create_json_value j).0) ≡ some c
    → is_int64 c ≡ true
    → is_int64 i ≡ true
    → is_int64 (pos 0 -ℤ i) ≡ true
    → is_int64 (c +ℤ i) ≡ true
    → (k : Json) × (l : Json) × (add_assign d i j ≡ some k)
      × (sub_assign d i k ≡ some l)
      × (to_int64 d l ≡ some c)
unfolding add_assign sub_assign add_i64 sub_i64 to_int64 scalar_to_int64 check_create_json_value
sub_assign-add_assign d j i c h hc hi hm hs = (
  value (int64 (c +ℤ i)) (check_create_json_value j).1,
  value (int64 c) (check_create_json_value j).1,
  rw (h, hs) refl,
  rw (hm, back c i, hc) refl,
  refl,
)
