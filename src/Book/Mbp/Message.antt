-- ===== src/Book/Mbp/Message.antt =====
-- src/orderbook/orderbook.h: the message that `build_mbp_msg10_from_mbo_msg` returns.
use order_book_server_cpp.Prelude.{
  ◌≤◌, ◌<◌, ◌≡◌, ◌^◌, refl, some, true, false, arith, length, leb, codes,
}
use order_book_server_cpp.Prelude.Int.{pos}
use order_book_server_cpp.Json.{
  Json, get_key, find_field, of_int64, of_uint64, from_pairs, insert_field,
}
use order_book_server_cpp.Json.Arrays.{array_json}
use order_book_server_cpp.Book.{Book, MboMsg}
use order_book_server_cpp.Book.Depth.Entries.{downto, upfrom}
use order_book_server_cpp.Book.Mbp.{
  capacity, max_size, MboHeader, mbp_message, build_mbp_msg10_from_mbo_msg,
}
use order_book_server_cpp.Book.Mbp.Rows.{visible, zip_rows, build_bid_ask_pairs-pairs_json}

-- In a book of fewer than 2 ^ 31 levels with at most 2000 visible levels on each side, the message
-- is built: it has the price and the size of the order message that caused it, the rows of the
-- visible levels, and their number as its depth.
build_mbp_msg10-fields :
    (b : Book) (h : MboHeader) (m : MboMsg)
    → b.num_levels < 2 ^ 31
    → length (visible b true (downto b.num_levels)) ≤ capacity
    → length (visible b false (upfrom 0 b.num_levels)) ≤ capacity
    → (j : Json) × (build_mbp_msg10_from_mbo_msg b h m ≡ some j)
      × (get_key (codes "levels") j
          ≡ some (
              array_json (
                zip_rows
                  (visible b true (downto b.num_levels))
                  (visible b false (upfrom 0 b.num_levels)))))
      × (get_key (codes "depth") j
          ≡ some (
              of_uint64 (
                max_size
                  (length (visible b true (downto b.num_levels)))
                  (length (visible b false (upfrom 0 b.num_levels))))))
      × (get_key (codes "price") j ≡ some (of_int64 m.price))
      × (get_key (codes "size") j ≡ some (of_int64 (pos m.size)))
unfolding build_mbp_msg10_from_mbo_msg mbp_message get_key find_field from_pairs insert_field
build_mbp_msg10-fields b h m small bids_fit asks_fit =
    let bids = visible b true (downto b.num_levels) in
    let asks = visible b false (upfrom 0 b.num_levels) in
    let bids_leb : leb (length bids) capacity ≡ true = ground arith in
    let asks_leb : leb (length asks) capacity ≡ true = ground arith in
    (
      mbp_message h m (of_uint64 (max_size (length bids) (length asks)))
          (array_json (zip_rows bids asks)),
      rw (build_bid_ask_pairs-pairs_json b small, bids_leb, asks_leb) refl,
      refl,
      refl,
      refl,
      refl,
    )
