-- ===== src/Book/Snapshot/Contents.antt =====
-- src/orderbook/orderbook.h: `build_snapshot` against `get_depth` with every level asked for.
use order_book_server_cpp.Prelude.{
  take-length_le, ℕ, zero, suc, ◌≤◌, ◌<◌, ◌≡◌, ◌^◌, refl, some, Bool, true, false, arith,
  Bool-cases, List, length, map, inl, inr, codes,
}
use order_book_server_cpp.Prelude.Int.{pos, int_rounds_small}
use order_book_server_cpp.Json.{
  Json, empty, object, end, field, nil, push_back, set_key, assign_field, check_create_json_object,
  of_int64, of_uint64, from_pairs, insert_field,
}
use order_book_server_cpp.Json.Arrays.{push_all, array_json, push_all-array_json}
use order_book_server_cpp.Book.{Book}
use order_book_server_cpp.Book.Levels.{level_at}
use order_book_server_cpp.Book.Depth.{is_empty, DepthEntry, DepthSnapshot, get_depth, entry_at}
use order_book_server_cpp.Book.Depth.Entries.{downto, upfrom, quotes, get_depth-take}
use order_book_server_cpp.Book.Snapshot.{
  price_and_size, push_level, snapshot_bids, snapshot_asks, build_snapshot,
}

-- An entry as the object of its price and its size.
abbrev pub entry_json : DepthEntry → Json
entry_json e =
    object false
      (field (codes "price") (of_int64 e.price) (field (codes "size") (of_uint64 e.size) end)) nil

-- A side is an array of entries, and a null value when there is none.
abbrev pub side_json : List DepthEntry → Json
side_json es = array_json (map entry_json es)

-- A depth as the object of its two sides.
abbrev pub depth_json : DepthSnapshot → Json
depth_json d =
    object false
      (field (codes "bids") (side_json d.bids) (field (codes "asks") (side_json d.asks) end)) nil

push_level-entry_json :
    (b : Book) (s : Bool) (i : ℕ) (acc : Json)
    → push_level b s i acc ≡ push_back (entry_json (entry_at b s i)) acc
unfolding push_level price_and_size from_pairs insert_field
push_level-entry_json b s i acc = refl

snapshot_bids-quotes :
    (b : Book) (n : ℕ) (acc : Json)
    → snapshot_bids b n acc ≡ push_all (map entry_json (quotes b true (downto n))) acc
unfolding snapshot_bids quotes downto push_all
snapshot_bids-quotes b zero acc = refl
snapshot_bids-quotes b (suc i) acc = elim (Bool-cases (is_empty (level_at b true i))) [
  | inl e ↦ rw e (snapshot_bids-quotes b i acc)
  | inr e ↦
      rw (e, push_level-entry_json b true i acc)
        (snapshot_bids-quotes b i (push_back (entry_json (entry_at b true i)) acc))
]

snapshot_asks-quotes :
    (b : Book) (n i : ℕ) (acc : Json)
    → snapshot_asks b n i acc ≡ push_all (map entry_json (quotes b false (upfrom i n))) acc
unfolding snapshot_asks quotes upfrom push_all
snapshot_asks-quotes b zero i acc = refl
snapshot_asks-quotes b (suc n) i acc = elim (Bool-cases (is_empty (level_at b false i))) [
  | inl e ↦ rw e (snapshot_asks-quotes b n (suc i) acc)
  | inr e ↦
      rw (e, push_level-entry_json b false i acc)
        (snapshot_asks-quotes b n (suc i) (push_back (entry_json (entry_at b false i)) acc))
]

length-quotes-downto : (b : Book) (n : ℕ) → length (quotes b true (downto n)) ≤ n
unfolding quotes downto
length-quotes-downto b zero = omega arith
length-quotes-downto b (suc n) = ground (arith, length-quotes-downto b n)

length-quotes-upfrom : (b : Book) (n i : ℕ) → length (quotes b false (upfrom i n)) ≤ n
unfolding quotes upfrom
length-quotes-upfrom b zero i = omega arith
length-quotes-upfrom b (suc n) i = ground (arith, length-quotes-upfrom b n (suc i))

-- On a book of fewer than 2 ^ 31 levels `build_snapshot` is the `Json` of what `get_depth` returns
-- when at least as many entries are asked for as there are levels: both sides whole, best first, a
-- side without orders as null.
pub build_snapshot-get_depth :
    (b : Book) (n : ℕ)
    → b.num_levels < 2 ^ 31
    → b.num_levels ≤ n
    → (d : DepthSnapshot) × (get_depth b (pos n) ≡ some d) × (build_snapshot b ≡ depth_json d)
unfolding build_snapshot set_key check_create_json_object assign_field
build_snapshot-get_depth b n small enough =
    let bids = quotes b true (downto b.num_levels) in
    let asks = quotes b false (upfrom 0 b.num_levels) in
    let whole_bids = take-length_le n bids (omega (arith, length-quotes-downto b b.num_levels)) in
    let whole_asks = take-length_le n asks (omega (arith, length-quotes-upfrom b b.num_levels 0)) in
    (
      record { bids = bids; asks = asks },
      (rw (whole_bids, whole_asks) at (get_depth-take b n small)),
      rw
          (
            int_rounds_small b.num_levels small,
            snapshot_bids-quotes b b.num_levels empty,
            snapshot_asks-quotes b b.num_levels 0 empty,
            push_all-array_json (map entry_json bids),
            push_all-array_json (map entry_json asks),
          )
          refl,
    )
