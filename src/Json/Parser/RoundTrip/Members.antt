-- ===== src/Json/Parser/RoundTrip/Members.antt =====
-- core/json/json_parse.cpp: one member of an array or an object, on a text that was written.
use order_book_server_cpp.Prelude.{
  ℕ, suc, ◌≡◌, refl, sym, ap, ◌∙◌, Option, true, false, List, [], ◌∷◌, ◌++◌, ◌==◌, All, arith,
}
use order_book_server_cpp.Json.{
  Json, empty, value, object, Fields, end, field, Items, nil, cons, assign_field, set_key,
  append_item, count_items,
}
use order_book_server_cpp.Json.Access.{count-append}
use order_book_server_cpp.Json.Writer.{quote, write, write_items, write_fields}
use order_book_server_cpp.Json.Parser.{
  at, returns, char_of, is_closing, starts_value, parse_key, set_item, parse_start, parse_object,
  parse_array, skip_to_value,
}
use order_book_server_cpp.Json.Parser.Numbers.{Is}
use order_book_server_cpp.Json.Parser.Scans.{
  is_delimiter, in_key, skip_to_value-start, skip_to_value-comma, skip_to_value-colon, c_string-key,
  parse_key-quote, parse_key-comma,
}
use order_book_server_cpp.Json.Parser.RoundTrip.{
  IsPlain, after_item, after_field, write_items-cons, write_fields-field,
}
use order_book_server_cpp.Json.Parser.RoundTrip.Steps.{
  not_closing, exceeds-char, set_item-count, parse_value-start, parse_array-item,
  parse_object-field, parse_array-close, parse_object-close,
}
use order_book_server_cpp.Json.Parser.RoundTrip.Scalars.{starts_value-scalar}

bracket-not_closing : (c : ℕ) → is_closing c ≡ false → (c == b']') ≡ false
bracket-not_closing c h = ground arith

module _ (double_text : ℕ → List ℕ) (read_double : List ℕ → Option ℕ) where
  pub after_item-char :
      (is : Items) (r : List ℕ) → is_delimiter (char_of (after_item double_text is r)) ≡ true
  unfolding after_item
  after_item-char nil r = refl
  after_item-char (cons v is) r = refl

  pub after_field-char :
      (fs : Fields) (r : List ℕ) → is_delimiter (char_of (after_field double_text fs r)) ≡ true
  unfolding after_field
  after_field-char end r = refl
  after_field-char (field k v fs) r = refl

  starts_value-write :
      (j : Json) (t : List ℕ)
      → IsPlain j
      → is_delimiter (char_of t) ≡ true
      → starts_value (write double_text j ++ t) ≡ true
  unfolding write starts_value IsPlain
  starts_value-write empty t p h = absurd p
  starts_value-write (value s true) [] p h = cc
  starts_value-write (value s true) (c ∷ t) p h =
      starts_value-scalar double_text read_double s c t p h
  starts_value-write (value s false) t p h = absurd p
  starts_value-write (object true fs is) t p h = refl
  starts_value-write (object false fs is) t p h = refl

  array-item :
      (fuel n : ℕ) (s r : List ℕ) (v res : Json) (is : Items)
      → IsPlain v
      → (char_of s == b']') ≡ false
      → skip_to_value s ≡ skip_to_value (write double_text v ++ after_item double_text is r)
      → parse_start read_double fuel (write double_text v ++ after_item double_text is r)
        ≡ returns (v, at (after_item double_text is r), true)
      → parse_array read_double (suc (suc fuel)) (at s) true n res
        ≡ parse_array read_double
            (suc fuel)
            (at (after_item double_text is r))
            true
            (suc n)
            (set_item n v res)
  array-item fuel n s r v res is p open_ skip start =
      let more = after_item double_text is r in
      let stop = after_item-char is r in
      let starts = skip_to_value-start _ (starts_value-write v more p stop) in
      let item = parse_value-start read_double fuel s _ more v (skip ∙ starts) start stop in
      parse_array-item read_double (suc fuel) n s more v res open_ item (exceeds-char more stop)

  object-field :
      (fuel : ℕ) (s r k : List ℕ) (v res : Json) (fs : Fields)
      → IsPlain v
      → All (Is in_key) k
      → (char_of s == b'}') ≡ false
      → parse_key s
        ≡ parse_key
            (quote ∷ (k ++ quote ∷ b':' ∷ (write double_text v ++ after_field double_text fs r)))
      → parse_start read_double fuel (write double_text v ++ after_field double_text fs r)
        ≡ returns (v, at (after_field double_text fs r), true)
      → parse_object read_double (suc (suc fuel)) (at s) true res
        ≡ parse_object read_double
            (suc fuel)
            (at (after_field double_text fs r))
            true
            (set_key k v res)
  object-field fuel s r k v res fs p plain open_ key start =
      let more = after_field double_text fs r in
      let stop = after_field-char fs r in
      let text = write double_text v ++ more in
      let skip =
        skip_to_value-colon text ∙ skip_to_value-start text (starts_value-write v more p stop) in
      let item = parse_value-start read_double fuel (b':' ∷ text) text more v skip start stop in
      let name = key ∙ parse_key-quote k (b':' ∷ text) plain in
      parse_object-field read_double (suc fuel) s (b':' ∷ text) more k v res open_ name item
        (exceeds-char more stop) (c_string-key k plain)

  -- An item behind a comma.
  pub array-next :
      (fuel : ℕ) (r : List ℕ) (v : Json) (is done : Items)
      → IsPlain v
      → parse_start read_double fuel (write double_text v ++ after_item double_text is r)
        ≡ returns (v, at (after_item double_text is r), true)
      → parse_array read_double
          (suc (suc fuel))
          (at (after_item double_text (cons v is) r))
          true
          (count_items done)
          (object true end done)
        ≡ parse_array read_double
            (suc fuel)
            (at (after_item double_text is r))
            true
            (count_items (append_item v done))
            (object true end (append_item v done))
  unfolding after_item
  array-next fuel r v is done p start =
      let text = b',' ∷ (write_items double_text (cons v is) ++ b']' ∷ r) in
      let split = ap skip_to_value (write_items-cons double_text v is r) in
      array-item fuel (count_items done) text r v (object true end done) is p refl
        (skip_to_value-comma _ ∙ split) start
      ∙ ap (parse_array read_double (suc fuel) (at (after_item double_text is r)) true _)
          (set_item-count v done)
      ∙ ap
          (λ n.
            parse_array read_double (suc fuel) (at (after_item double_text is r)) true n
              (object true end (append_item v done)))
          (sym (count-append v done))

  -- The first item.
  pub array-first :
      (fuel : ℕ) (r : List ℕ) (v : Json) (is : Items)
      → IsPlain v
      → parse_start read_double fuel (write double_text v ++ after_item double_text is r)
        ≡ returns (v, at (after_item double_text is r), true)
      → parse_array read_double
          (suc (suc fuel))
          (at (write double_text v ++ after_item double_text is r))
          true
          0
          empty
        ≡ parse_array read_double
            (suc fuel)
            (at (after_item double_text is r))
            true
            (count_items (cons v nil))
            (object true end (cons v nil))
  unfolding set_item count_items
  array-first fuel r v is p start =
      let text = write double_text v ++ after_item double_text is r in
      let starts = starts_value-write v (after_item double_text is r) p (after_item-char is r) in
      array-item fuel 0 text r v empty is p (bracket-not_closing _ (not_closing text starts)) refl
        start

  pub object-next :
      (fuel : ℕ) (r k : List ℕ) (v : Json) (fs gs : Fields)
      → IsPlain v
      → All (Is in_key) k
      → parse_start read_double fuel (write double_text v ++ after_field double_text fs r)
        ≡ returns (v, at (after_field double_text fs r), true)
      → parse_object read_double
          (suc (suc fuel))
          (at (after_field double_text (field k v fs) r))
          true
          (object false gs nil)
        ≡ parse_object read_double
            (suc fuel)
            (at (after_field double_text fs r))
            true
            (object false (assign_field k v gs) nil)
  unfolding after_field set_key
  object-next fuel r k v fs gs p plain start =
      let text = b',' ∷ (write_fields double_text (field k v fs) ++ b'}' ∷ r) in
      let split = ap parse_key (write_fields-field double_text k v fs r) in
      object-field fuel text r k v (object false gs nil) fs p plain refl (parse_key-comma _ ∙ split)
        start

  pub object-first :
      (fuel : ℕ) (r k : List ℕ) (v : Json) (fs : Fields)
      → IsPlain v
      → All (Is in_key) k
      → parse_start read_double fuel (write double_text v ++ after_field double_text fs r)
        ≡ returns (v, at (after_field double_text fs r), true)
      → parse_object read_double
          (suc (suc fuel))
          (at (write_fields double_text (field k v fs) ++ b'}' ∷ r))
          true
          empty
        ≡ parse_object read_double
            (suc fuel)
            (at (after_field double_text fs r))
            true
            (object false (field k v end) nil)
  unfolding set_key assign_field
  object-first fuel r k v fs p plain start =
      rw (write_fields-field double_text k v fs r)
        (object-field fuel _ r k v empty fs p plain refl refl start)

  pub array-end :
      (fuel n : ℕ) (r : List ℕ) (res : Json)
      → parse_array read_double (suc fuel) (at (after_item double_text nil r)) true n res
        ≡ returns (res, at r, true)
  unfolding after_item
  array-end fuel n r res = parse_array-close read_double fuel n r res

  pub object-end :
      (fuel : ℕ) (r : List ℕ) (res : Json)
      → parse_object read_double (suc fuel) (at (after_field double_text end r)) true res
        ≡ returns (res, at r, true)
  unfolding after_field
  object-end fuel r res = parse_object-close read_double fuel r res
