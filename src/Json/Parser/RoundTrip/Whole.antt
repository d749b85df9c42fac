-- ===== src/Json/Parser/RoundTrip/Whole.antt =====
-- core/json: the text of a value parses back to the value.
use mathlib.Core.List.{append_assoc}
use order_book_server_cpp.Prelude.{
  ℕ, zero, suc, ◌*◌, ◌≤◌, ◌≡◌, refl, sym, ap, ◌∙◌, Option, Bool, true, false, List, [], ◌∷◌, ◌++◌,
  length, arith,
}
use order_book_server_cpp.Json.{
  Json, empty, value, object, Fields, end, field, Items, nil, cons, assign_field, append_item,
  count_items,
}
use order_book_server_cpp.Json.Arrays.{join, join-append, join_nil}
use order_book_server_cpp.Json.Writer.{write, write_items, write_fields}
use order_book_server_cpp.Json.Parser.{
  at, returns, char_of, parse_start, parse_object, parse_array, parse_from, parse,
}
use order_book_server_cpp.Json.Parser.Scans.{is_delimiter}
use order_book_server_cpp.Json.Parser.RoundTrip.{
  IsPlain, ArePlain, HavePlain, weight, weight_items, weight_fields, not-IsPlain-both, after_item,
  after_field, write_items-cons,
}
use order_book_server_cpp.Json.Parser.RoundTrip.Fuel.{weight-le-length}
use order_book_server_cpp.Json.Parser.RoundTrip.Steps.{parse_start-array, parse_start-object}
use order_book_server_cpp.Json.Parser.RoundTrip.Assigned.{join_fields, join_fields-plain}
use order_book_server_cpp.Json.Parser.RoundTrip.Scalars.{parse_start-scalar}
use order_book_server_cpp.Json.Parser.RoundTrip.Members.{
  after_item-char, after_field-char, array-first, array-next, object-first, object-next, array-end,
  object-end,
}

module _ (double_text : ℕ → List ℕ) (read_double : List ℕ → Option ℕ) where
  mutual
    unfolding write IsPlain weight assign_field join join_fields

    start-reads :
        (j : Json) (t : List ℕ) (fuel : ℕ)
        → IsPlain j
        → is_delimiter (char_of t) ≡ true
        → weight j ≤ fuel
        → parse_start read_double fuel (write double_text j ++ t) ≡ returns (j, at t, true)
    start-reads empty t fuel p h le = absurd p
    start-reads (value s true) [] fuel p h le = cc
    start-reads (value s true) (c ∷ t) zero p h le = absurd (omega arith)
    start-reads (value s true) (c ∷ t) (suc fuel) p h le =
        parse_start-scalar double_text read_double s fuel c t p h
    start-reads (value s false) t fuel p h le = absurd p
    start-reads (object true end is) t zero p h le = absurd (omega arith)
    start-reads (object true end is) t (suc fuel) p h le =
        parse_start-array read_double fuel _
        ∙ rw (append_assoc (write_items double_text is) (b']' ∷ []) t)
            (array-reads is t fuel p (omega arith))
    start-reads (object true (field k v fs) is) t fuel p h le = absurd p
    start-reads (object false fs nil) t zero p h le = absurd (omega arith)
    start-reads (object false fs nil) t (suc fuel) p h le =
        parse_start-object read_double fuel _
        ∙ rw (append_assoc (write_fields double_text fs) (b'}' ∷ []) t)
            (object-reads fs t fuel p (omega arith))
    start-reads (object false fs (cons w is)) t fuel p h le = absurd (not-IsPlain-both fs w is p)

    array-reads :
        (is : Items) (r : List ℕ) (fuel : ℕ)
        → IsPlain (object true end is)
        → weight_items is ≤ fuel
        → parse_array read_double fuel (at (write_items double_text is ++ b']' ∷ r)) true 0 empty
          ≡ returns (object true end is, at r, true)
    array-reads nil r fuel p le = absurd p
    array-reads (cons v is) r zero p le = absurd (omega arith)
    array-reads (cons v is) r (suc zero) p le = absurd (omega arith)
    array-reads (cons v is) r (suc (suc fuel)) p le = rw (write_items-cons double_text v is r) (
        array-first double_text read_double fuel r v is p.0
          (start-reads v _ fuel p.0 (after_item-char double_text read_double is r) (omega arith))
        ∙ array-rest is (cons v nil) r (suc fuel) p.1 (omega arith))

    array-rest :
        (is done : Items) (r : List ℕ) (fuel : ℕ)
        → ArePlain is
        → weight_items is ≤ fuel
        → parse_array read_double fuel
            (at (after_item double_text is r))
            true
            (count_items done)
            (object true end done)
          ≡ returns (object true end (join done is), at r, true)
    array-rest nil done r zero p le = absurd (omega arith)
    array-rest nil done r (suc fuel) p le =
        array-end double_text read_double fuel _ r _
        ∙ ap (λ is. returns (object true end is, at r, true)) (sym (join_nil done))
    array-rest (cons v is) done r zero p le = absurd (omega arith)
    array-rest (cons v is) done r (suc zero) p le = absurd (omega arith)
    array-rest (cons v is) done r (suc (suc fuel)) p le =
        array-next double_text read_double fuel r v is done p.0 (
          start-reads v (after_item double_text is r) fuel p.0
            (after_item-char double_text read_double is r) (omega arith))
        ∙ array-rest is (append_item v done) r (suc fuel) p.1 (omega arith)
        ∙ ap (λ is. returns (object true end is, at r, true)) (join-append v done is)

    object-reads :
        (fs : Fields) (r : List ℕ) (fuel : ℕ)
        → IsPlain (object false fs nil)
        → weight_fields fs ≤ fuel
        → parse_object read_double fuel (at (write_fields double_text fs ++ b'}' ∷ r)) true empty
          ≡ returns (object false fs nil, at r, true)
    object-reads end r fuel p le = absurd p
    object-reads (field k v fs) r zero p le = absurd (omega arith)
    object-reads (field k v fs) r (suc zero) p le = absurd (omega arith)
    object-reads (field k v fs) r (suc (suc fuel)) p le =
        object-first double_text read_double fuel r k v fs p.2 p.0
          (start-reads v _ fuel p.2 (after_field-char double_text read_double fs r) (omega arith))
        ∙ object-rest fs (field k v end) r (suc fuel) p.3 (omega arith)
        ∙ ap (λ gs. returns (object false gs nil, at r, true)) (join_fields-plain (field k v fs) p)

    object-rest :
        (fs gs : Fields) (r : List ℕ) (fuel : ℕ)
        → HavePlain gs fs
        → weight_fields fs ≤ fuel
        → parse_object read_double fuel
            (at (after_field double_text fs r))
            true
            (object false gs nil)
          ≡ returns (object false (join_fields gs fs) nil, at r, true)
    object-rest end gs r zero p le = absurd (omega arith)
    object-rest end gs r (suc fuel) p le = object-end double_text read_double fuel r _
    object-rest (field k v fs) gs r zero p le = absurd (omega arith)
    object-rest (field k v fs) gs r (suc zero) p le = absurd (omega arith)
    object-rest (field k v fs) gs r (suc (suc fuel)) p le =
        object-next double_text read_double fuel r k v fs gs p.2 p.0 (
          start-reads v (after_field double_text fs r) fuel p.2
            (after_field-char double_text read_double fs r) (omega arith))
        ∙ object-rest fs (assign_field k v gs) r (suc fuel) p.3 (omega arith)

  -- An object or array is parsed back from its text, on fuel of four times the text's length or more,
  -- if it is plain: no value in it is a double, unsigned or an empty object or array, its strings hold
  -- no quote, its keys no quote and no zero byte, and the keys of an object differ.
  pub parse-write :
      (a : Bool) (fs : Fields) (is : Items) (fuel : ℕ)
      → IsPlain (object a fs is)
      → 4 * length (write double_text (object a fs is)) ≤ fuel
      → parse read_double fuel (write double_text (object a fs is)) ≡ returns (object a fs is)
  unfolding write parse parse_from weight IsPlain
  parse-write true end is fuel p le =
      rw
        (array-reads is [] fuel p
          (omega (arith, weight-le-length double_text (object true end is) p, le)))
        refl
  parse-write true (field k v fs) is fuel p le = absurd p
  parse-write false fs nil fuel p le =
      rw
        (object-reads fs [] fuel p
          (omega (arith, weight-le-length double_text (object false fs nil) p, le)))
        refl
  parse-write false fs (cons v is) fuel p le = absurd (not-IsPlain-both fs v is p)
