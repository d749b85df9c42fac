-- ===== src/ShareString.antt =====
-- core/cache/share_string.h and share_string.cpp: strings that are shared by counting the objects that
-- refer to them. A string stands in an object of the pool `StringPool`; a reference is the address of
-- that object, and `none` is null.
pub mod Counts
pub mod Release
pub mod Store
pub mod Sharing
use order_book_server_cpp.Prelude.{
  ℕ, ◌+◌, ◌-◌, ◌%◌, ◌^◌, Option, none, some, Bool, true, false, ◌&&◌, List, [], ◌∷◌, length, take,
  drop, ltb, leb, ◌==◌, if◌then◌else◌, text_eq,
}
use order_book_server_cpp.Prelude.Ring.{write}
use order_book_server_cpp.CachePool.{PoolBuffer, Result, returns, throws, acquire, release}

pub record StringReference : Type 0 where
  pub text : List ℕ
  pub count : ℕ

pub record ShareString : Type 0 where
  pub reference : Option ℕ
  pub start_index : ℕ
  pub length : ℕ

abbrev pub StringPool : Type 0
StringPool = PoolBuffer StringReference

abbrev pub set_reference : ℕ → StringReference → StringPool → StringPool
set_reference a r p = record p { objects = write p.objects a r }

-- `count.fetch_add(1)` and `count.fetch_sub(1)`
unfoldable pub retain : ℕ → StringPool → StringPool
retain a p = let r = p.objects a in set_reference a (record r { count = (r.count + 1) % 2 ^ 32 }) p

unfoldable pub release_count : ℕ → StringPool → StringPool × ℕ
release_count a p =
    let r = p.objects a in
    (set_reference a (record r { count = (r.count + (2 ^ 32 - 1)) % 2 ^ 32 }) p, r.count)

-- What a constructor comes to: an object, an exception, or a null pointer gone through.
pub data Made : Type 0 where
  made : StringPool → ShareString → Made
  out_of_range null_reference : Made

unfoldable pub copy_construct : StringPool → ShareString → Made
unfolding retain
copy_construct p s = elim s.reference [ none ↦ null_reference | some a ↦ made (retain a p) s ]

abbrev pub narrow : ℕ → ℕ → Made → Made
narrow start size (made p s) =
    made p (record s { start_index = (s.start_index + start) % 2 ^ 64; length = size % 2 ^ 64 })
narrow start size m = m

unfoldable pub from_substr : StringPool → ShareString → ℕ → ℕ → Made
unfolding copy_construct
from_substr p s start size =
    if leb ((start + size) % 2 ^ 64) s.length
    then narrow start size (copy_construct p s)
    else out_of_range

-- The end counts as a part of it.
unfoldable pub from_substr_with_end : StringPool → ShareString → ℕ → ℕ → Made
unfolding copy_construct
from_substr_with_end p s start end_index =
    if ltb start s.length && (leb end_index s.length && ltb start end_index)
    then narrow start (end_index - start + 1) (copy_construct p s)
    else out_of_range

-- The text of an object.
unfoldable pub data_of : StringPool → ShareString → List ℕ
data_of p s = elim s.reference [
  | none ↦ []
  | some a ↦ take s.length (drop s.start_index (p.objects a).text)
]

-- `operator==`: never with a null reference.
unfoldable pub equals : StringPool → ShareString → ShareString → Bool
unfolding data_of
equals p s other = elim s.reference [
  | none ↦ false
  | some a ↦ elim other.reference [
    | none ↦ false
    | some b ↦ text_eq (data_of p s) (data_of p other)
  ]
]

module _ (Size : ℕ) where
  unfoldable pub new_share_string : List ℕ → StringPool → Result (StringPool × ShareString)
  new_share_string text p = elim (acquire Size (λ r. r) p) [
    | throws e ↦ throws e
    | returns (q, a) ↦ returns (
      set_reference a (record { text = text; count = 1 }) q,
      record { reference = some a; start_index = 0; length = length text },
    )
  ]

  -- `check_release_current_data`, which the destructor calls.
  unfoldable pub check_release_current_data : StringPool → ShareString → Result StringPool
  unfolding release_count
  check_release_current_data p s = elim s.reference [
    | none ↦ returns p
    | some a ↦
        let (q, old) = release_count a p in
        if old == 1 then release Size (λ r. r) (some a) q else returns q
  ]

  -- `operator=` from another object. From the object itself, `reference` is null when it is copied.
  unfoldable pub assign : StringPool → ShareString → ShareString → Result Made
  unfolding check_release_current_data copy_construct
  assign p s copy = elim (check_release_current_data p s) [
    | throws e ↦ throws e
    | returns q ↦ returns (copy_construct q copy)
  ]

  unfoldable pub assign_self : StringPool → ShareString → Result Made
  unfolding check_release_current_data copy_construct
  assign_self p s = elim (check_release_current_data p s) [
    | throws e ↦ throws e
    | returns q ↦ returns (copy_construct q (record s { reference = none }))
  ]
