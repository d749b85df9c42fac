-- ===== src/Book/Mbp/Rows.antt =====
-- src/orderbook/orderbook.h: the rows that `build_bid_ask_pairs` returns.
use mathlib.Core.List.{append-nil}
use order_book_server_cpp.Prelude.{
  append-snoc, length-append, ℕ, zero, suc, ◌+◌, ◌≤◌, ◌<◌, ◌≡◌, ◌^◌, refl, ◌∙◌, ap, Option, none,
  some, ◌>>=◌, Bool, true, false, ◌&&◌, arith, Bool-cases, List, [], ◌∷◌, ◌++◌, length, leb, ltb,
  get_elem?, if◌then◌else◌, inl, inr, codes,
}
use order_book_server_cpp.Prelude.Int.{pos, int_rounds_small}
use order_book_server_cpp.Json.{
  Json, empty, object, Fields, end, field, nil, set_key, assign_field, check_create_json_object,
  of_int64, of_uint64, from_pairs, insert_field,
}
use order_book_server_cpp.Json.Arrays.{push_all, array_json, push_all-array_json}
use order_book_server_cpp.Book.{Book}
use order_book_server_cpp.Book.Levels.{level_at}
use order_book_server_cpp.Book.Depth.Entries.{downto, upfrom}
use order_book_server_cpp.Book.Mbp.{
  LevelByPrice, capacity, is_visible, by_price, store, collect_bids, collect_asks, set_side_of_pair,
  build_pair, push_pairs, max_size, build_bid_ask_pairs,
}

-- Those levels of a list of indices that show orders and a positive total.
unfoldable pub visible : Book → Bool → List ℕ → List LevelByPrice
visible b s [] = []
visible b s (i ∷ is) =
    let rest = visible b s is in if is_visible (level_at b s i) then by_price b s i ∷ rest else rest

-- One side of a row: price, total size and number of orders, or three zeros.
abbrev pub side_fields : List ℕ → List ℕ → List ℕ → Option LevelByPrice → Fields → Fields
side_fields px sz ct none fs =
    field px (of_int64 (pos 0)) (field sz (of_int64 (pos 0)) (field ct (of_int64 (pos 0)) fs))
side_fields px sz ct (some l) fs =
    field px (of_int64 l.price)
      (field sz (of_uint64 l.level.total_size) (field ct (of_uint64 (length l.level.queue)) fs))

abbrev pub row : Option LevelByPrice → Option LevelByPrice → Json
row bid ask =
    object false
      (side_fields (codes "bid_px") (codes "bid_sz") (codes "bid_ct") bid
        (side_fields (codes "ask_px") (codes "ask_sz") (codes "ask_ct") ask end))
      nil

-- The two sides next to each other, the shorter one padded.
unfoldable pub zip_rows : List LevelByPrice → List LevelByPrice → List Json
zip_rows [] [] = []
zip_rows [] (y ∷ ys) = row none (some y) ∷ zip_rows [] ys
zip_rows (x ∷ xs) [] = row (some x) none ∷ zip_rows xs []
zip_rows (x ∷ xs) (y ∷ ys) = row (some x) (some y) ∷ zip_rows xs ys

-- What `build_bid_ask_pairs` returns for these two sides: nothing when one does not fit its array.
abbrev pub pairs_json : List LevelByPrice → List LevelByPrice → Option Json
pairs_json bids asks =
    if leb (length bids) capacity && leb (length asks) capacity
    then some (
        object false
          (field (codes "bid_ask_pairs") (array_json (zip_rows bids asks))
            (field (codes "num_levels") (of_uint64 (max_size (length bids) (length asks))) end))
          nil)
    else none

build_pair-row : (bid ask : Option LevelByPrice) → build_pair bid ask ≡ row bid ask
unfolding build_pair set_side_of_pair set_key check_create_json_object assign_field
build_pair-row none none = refl
build_pair-row none (some y) = refl
build_pair-row (some x) none = refl
build_pair-row (some x) (some y) = refl

-- An array of `capacity` that takes the levels of `ys` after those of `xs`.
fit : List LevelByPrice → List LevelByPrice → Option (List LevelByPrice)
fit xs ys = if leb (length (xs ++ ys)) capacity then some (xs ++ ys) else none

-- One more level, and then those of a loop that fits `ys` behind whatever fits.
module _ (x : LevelByPrice) (xs ys : List LevelByPrice)
    (rest : List LevelByPrice → Option (List LevelByPrice))
    (fits : (zs : List LevelByPrice) → length zs ≤ capacity → rest zs ≡ fit zs ys) where
  store-fit : (store x xs >>= rest) ≡ fit xs (x ∷ ys)
  unfolding store fit
  store-fit =
      let e : length (xs ++ x ∷ ys) ≡ length xs + suc (length ys) = length-append xs (x ∷ ys) in
      let l : length (xs ++ x ∷ []) ≡ length xs + 1 = length-append xs (x ∷ []) in
      elim (Bool-cases (ltb (length xs) capacity)) [
        | inl room ↦
            let small : length xs < capacity = ground arith in
            rw (room, fits (xs ++ x ∷ []) (omega arith), append-snoc xs ys x) refl
        | inr full ↦ let large : capacity ≤ length xs = ground arith in rw full (ground arith)
      ]

collect_bids-fit :
    (b : Book) (n : ℕ) (xs : List LevelByPrice)
    → length xs ≤ capacity
    → collect_bids b n xs ≡ fit xs (visible b true (downto n))
unfolding collect_bids visible downto fit
collect_bids-fit b zero xs h = rw (append-nil xs) (ground arith)
collect_bids-fit b (suc i) xs h = elim (Bool-cases (is_visible (level_at b true i))) [
  | inr e ↦ rw e (collect_bids-fit b i xs h)
  | inl e ↦ rw e (store-fit _ xs _ (collect_bids b i) (collect_bids-fit b i))
]

collect_asks-fit :
    (b : Book) (n i : ℕ) (xs : List LevelByPrice)
    → length xs ≤ capacity
    → collect_asks b n i xs ≡ fit xs (visible b false (upfrom i n))
unfolding collect_asks visible upfrom fit
collect_asks-fit b zero i xs h = rw (append-nil xs) (ground arith)
collect_asks-fit b (suc n) i xs h = elim (Bool-cases (is_visible (level_at b false i))) [
  | inr e ↦ rw e (collect_asks-fit b n (suc i) xs h)
  | inl e ↦ rw e (store-fit _ xs _ (collect_asks b n (suc i)) (collect_asks-fit b n (suc i)))
]

-- The rows of a loop of `n` rounds from `i`.
rows_from : ℕ → ℕ → List LevelByPrice → List LevelByPrice → List Json
rows_from zero i bids asks = []
rows_from (suc n) i bids asks =
    row (get_elem? bids i) (get_elem? asks i) ∷ rows_from n (suc i) bids asks

push_pairs-rows_from :
    (n i : ℕ) (bids asks : List LevelByPrice) (acc : Json)
    → push_pairs n i bids asks acc ≡ push_all (rows_from n i bids asks) acc
unfolding push_pairs rows_from push_all
push_pairs-rows_from zero i bids asks acc = refl
push_pairs-rows_from (suc n) i bids asks acc =
    rw (build_pair-row (get_elem? bids i) (get_elem? asks i))
      (push_pairs-rows_from n (suc i) bids asks _)

tail : List LevelByPrice → List LevelByPrice
tail [] = []
tail (x ∷ xs) = xs

get_elem_suc : (xs : List LevelByPrice) (i : ℕ) → get_elem? xs (suc i) ≡ get_elem? (tail xs) i
unfolding tail
get_elem_suc [] i = refl
get_elem_suc (x ∷ xs) i = refl

rows_from_tail :
    (n i : ℕ) (bids asks : List LevelByPrice)
    → rows_from n (suc i) bids asks ≡ rows_from n i (tail bids) (tail asks)
unfolding rows_from
rows_from_tail zero i bids asks = refl
rows_from_tail (suc n) i bids asks =
    rw (get_elem_suc bids i, get_elem_suc asks i, rows_from_tail n (suc i) bids asks) refl

max_zero : (n : ℕ) → max_size 0 n ≡ n
max_zero n = ground arith

max_suc_zero : (n : ℕ) → max_size (suc n) 0 ≡ suc (max_size n 0)
max_suc_zero n = ground arith

max_suc : (m n : ℕ) → max_size (suc m) (suc n) ≡ suc (max_size m n)
max_suc m n = ground arith

rows_from-zip_rows :
    (bids asks : List LevelByPrice)
    → rows_from (max_size (length bids) (length asks)) 0 bids asks ≡ zip_rows bids asks
unfolding rows_from zip_rows tail
rows_from-zip_rows [] [] = refl
rows_from-zip_rows [] (y ∷ ys) =
    let rest : rows_from (length ys) 0 [] ys ≡ zip_rows [] ys =
      rw (max_zero (length ys)) at (rows_from-zip_rows [] ys) in
    rw (max_zero (suc (length ys)), rows_from_tail (length ys) 0 [] (y ∷ ys), rest) refl
rows_from-zip_rows (x ∷ xs) [] =
    rw
      (
        max_suc_zero (length xs),
        rows_from_tail (max_size (length xs) 0) 0 (x ∷ xs) [],
        rows_from-zip_rows xs [],
      )
      refl
rows_from-zip_rows (x ∷ xs) (y ∷ ys) =
    rw
      (
        max_suc (length xs) (length ys),
        rows_from_tail (max_size (length xs) (length ys)) 0 (x ∷ xs) (y ∷ ys),
        rows_from-zip_rows xs ys,
      )
      refl

push_pairs-zip_rows :
    (bids asks : List LevelByPrice)
    → push_pairs (max_size (length bids) (length asks)) 0 bids asks empty
      ≡ array_json (zip_rows bids asks)
push_pairs-zip_rows bids asks =
    push_pairs-rows_from _ 0 bids asks empty
    ∙ ap (λ vs. push_all vs empty) (rows_from-zip_rows bids asks)
    ∙ push_all-array_json (zip_rows bids asks)

-- In a book of fewer than 2 ^ 31 levels `build_bid_ask_pairs` returns the visible levels of the two
-- sides, best first, in rows that put the n-th bid next to the n-th ask and pad the shorter side
-- with zeros, and the number of rows. When a side has more than 2000 visible levels, the call
-- writes past the end of its array.
pub build_bid_ask_pairs-pairs_json :
    (b : Book)
    → b.num_levels < 2 ^ 31
    → build_bid_ask_pairs b
      ≡ pairs_json (visible b true (downto b.num_levels)) (visible b false (upfrom 0 b.num_levels))
unfolding build_bid_ask_pairs from_pairs insert_field fit
build_bid_ask_pairs-pairs_json b small =
    let bids = visible b true (downto b.num_levels) in
    let asks = visible b false (upfrom 0 b.num_levels) in
    rw
      (
        int_rounds_small b.num_levels small,
        collect_bids-fit b b.num_levels [] (omega arith),
        collect_asks-fit b b.num_levels 0 [] (omega arith),
      )
      (elim (Bool-cases (leb (length bids) capacity)) [
        | inr large ↦ rw large refl
        | inl fits ↦ elim (Bool-cases (leb (length asks) capacity)) [
          | inr large ↦ rw (fits, large) refl
          | inl fit ↦ rw (fits, fit, push_pairs-zip_rows bids asks) refl
        ]
      ])
