-- ===== src/Json/Parser/RoundTrip.antt =====
-- core/json: the values that their text shows, and the text in the order in which it is parsed.
pub mod Assigned
pub mod Scalars
pub mod Steps
pub mod Fuel
pub mod Members
pub mod Whole
use mathlib.Core.List.{append_assoc}
use order_book_server_cpp.Prelude.{
  ℕ, zero, suc, ◌+◌, ◌*◌, ◌≤◌, ◌≡◌, ◌∙◌, refl, sym, ap, Option, none, some, Bool, true, false, List,
  [], ◌∷◌, ◌++◌, length, length-append, arith, All, codes,
}
use order_book_server_cpp.Json.{
  Scalar, null, bool, int64, uint64, double, string, Json, empty, value, object, Fields, end, field,
  Items, nil, cons, find_field, assign_field,
}
use order_book_server_cpp.Json.Writer.{
  quote, write_scalar, write, write_items, write_fields, uint64_text, int64_text,
}
use order_book_server_cpp.Json.Parser.{is_number, char_of}
use order_book_server_cpp.Json.Parser.Numbers.{Is, IsInt64, int64_text-char_of}
use order_book_server_cpp.Json.Parser.Scans.{no_quote, in_key}

abbrev pub IsPlainScalar : Scalar → Type 0
IsPlainScalar null = Unit
IsPlainScalar (bool b) = Unit
IsPlainScalar (int64 i) = IsInt64 i
IsPlainScalar (uint64 n) = ⊥
IsPlainScalar (double d) = ⊥
IsPlainScalar (string s) = All (Is no_quote) s

-- A value without doubles and without empty objects and arrays; an object has fields and no items,
-- an array items and no fields. Strings hold no quote, keys no quote and no zero byte, and the keys
-- of an object differ: no key is among those in front of it.
unfoldable mutual
  pub IsPlain : Json → Type 0
  IsPlain empty = ⊥
  IsPlain (value s true) = IsPlainScalar s
  IsPlain (value s false) = ⊥
  IsPlain (object true end nil) = ⊥
  IsPlain (object true end (cons v is)) = ArePlain (cons v is)
  IsPlain (object true (field k v fs) is) = ⊥
  IsPlain (object false end is) = ⊥
  IsPlain (object false (field k v fs) nil) = HavePlain end (field k v fs)
  IsPlain (object false (field k v fs) (cons w is)) = ⊥

  pub ArePlain : Items → Type 0
  ArePlain nil = Unit
  ArePlain (cons v is) = IsPlain v × ArePlain is

  pub HavePlain : Fields → Fields → Type 0
  HavePlain gs end = Unit
  HavePlain gs (field k v fs) =
      All (Is in_key) k × (find_field k gs ≡ none) × IsPlain v × HavePlain (assign_field k v gs) fs

pub IsPlain-items : (is : Items) → IsPlain (object true end is) → ArePlain is
unfolding IsPlain
IsPlain-items nil p = tt
IsPlain-items (cons v is) p = p

pub IsPlain-fields : (fs : Fields) → IsPlain (object false fs nil) → HavePlain end fs
unfolding IsPlain
IsPlain-fields end p = tt
IsPlain-fields (field k v fs) p = p

pub not-IsPlain-both :
    (fs : Fields) (v : Json) (is : Items) → ¬ IsPlain (object false fs (cons v is))
unfolding IsPlain
not-IsPlain-both end v is p = p
not-IsPlain-both (field k w fs) v is p = p

-- The fuel that the parser takes for a value.
unfoldable mutual
  pub weight : Json → ℕ
  weight empty = 1
  weight (value s f) = 1
  weight (object a fs is) = weight_fields fs + weight_items is

  pub weight_items : Items → ℕ
  weight_items nil = 1
  weight_items (cons v is) = 2 + weight v + weight_items is

  pub weight_fields : Fields → ℕ
  weight_fields end = 1
  weight_fields (field k v fs) = 2 + weight v + weight_fields fs

module _ (double_text : ℕ → List ℕ) where
  -- What stands behind an item, up to the text `r` behind the array.
  unfoldable pub after_item : Items → List ℕ → List ℕ
  after_item nil r = b']' ∷ r
  after_item (cons v is) r = b',' ∷ (write_items double_text (cons v is) ++ b']' ∷ r)

  unfoldable pub after_field : Fields → List ℕ → List ℕ
  after_field end r = b'}' ∷ r
  after_field (field k v fs) r = b',' ∷ (write_fields double_text (field k v fs) ++ b'}' ∷ r)

  pub write_items-cons :
      (v : Json) (is : Items) (r : List ℕ)
      → write_items double_text (cons v is) ++ b']' ∷ r ≡ write double_text v ++ after_item is r
  unfolding write_items after_item
  write_items-cons v nil r = refl
  write_items-cons v (cons w is) r = append_assoc (write double_text v) _ _

  pub write_fields-field :
      (k : List ℕ) (v : Json) (fs : Fields) (r : List ℕ)
      → write_fields double_text (field k v fs) ++ b'}' ∷ r
        ≡ quote ∷ (k ++ quote ∷ b':' ∷ (write double_text v ++ after_field fs r))
  unfolding write_fields after_field
  write_fields-field k v end r = ap (◌∷◌ quote) (append_assoc k _ _)
  write_fields-field k v (field l w fs) r = ap (◌∷◌ quote) (
      append_assoc k _ _ ∙ ap (λ t. k ++ quote ∷ b':' ∷ t) (append_assoc (write double_text v) _ _))
