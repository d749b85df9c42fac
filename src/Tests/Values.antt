-- ===== src/Tests/Values.antt =====
-- core/json: conversions, comparisons and arrays by index.
use order_book_server_cpp.Prelude.{◌≡◌, refl, some, true, ◌==◌, not}
use order_book_server_cpp.Prelude.Int.{pos, negsuc}
use order_book_server_cpp.Json.{
  count_items, Json, empty, value, object, end, nil, cons, bool, of_int64, size,
}
use order_book_server_cpp.Json.Conversions.{Doubles, to_int64, scalar_to_int64}
use order_book_server_cpp.Json.Conversions.Comparisons.{Compares, Compares-to_int64}
use order_book_server_cpp.Json.Containers.{get_index, assign_index}
use order_book_server_cpp.Json.Containers.Indexed.{get_index-assign_index}

-- Doubles that are their own integers.
abbrev whole_doubles : Doubles
whole_doubles = record {
  zero_double = 0;
  double_of_int64 = λ i. elim i [ pos n ↦ n | negsuc n ↦ 0 ];
  double_of_uint64 = λ n. n;
  int64_of_double = λ n. some (pos n);
  uint64_of_double = λ n. some n;
  is_nonzero = λ n. not (n == 0);
}

Compares-to_int64_example : Compares whole_doubles (value (bool true) true) (negsuc 4) (pos 1)
unfolding scalar_to_int64
Compares-to_int64_example =
    Compares-to_int64 whole_doubles (value (bool true) true) (negsuc 4) (pos 1)
      (unfold to_int64 in refl)

abbrev three : Json
three = object true end (cons (of_int64 (pos 7)) nil)

-- A write behind the end leaves null in between.
get_index-assign_index_example :
    (get_index 1 (assign_index 2 (of_int64 (pos 9)) three) ≡ some empty)
    × (size (assign_index 2 (of_int64 (pos 9)) three) ≡ some 3)
unfolding count_items
get_index-assign_index_example = get_index-assign_index 2 1 (of_int64 (pos 9)) three
