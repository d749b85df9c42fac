-- ===== src/Tests/Messages.antt =====
-- src/orderbook/orderbook.h and core/json/json.cpp: the messages built from a book of one bid.
use order_book_server_cpp.Prelude.{◌≡◌, some, true, false, arith}
use order_book_server_cpp.Prelude.Int.{pos}
use order_book_server_cpp.Book.{set_side}
use order_book_server_cpp.Book.Steps.Add.{added}
use order_book_server_cpp.Book.Depth.{DepthSnapshot, get_depth}
use order_book_server_cpp.Book.Depth.Entries.{downto, upfrom}
use order_book_server_cpp.Book.Snapshot.{build_snapshot}
use order_book_server_cpp.Book.Snapshot.Contents.{depth_json, build_snapshot-get_depth}
use order_book_server_cpp.Book.Mbp.{MboHeader, build_bid_ask_pairs}
use order_book_server_cpp.Book.Mbp.Rows.{visible, pairs_json, build_bid_ask_pairs-pairs_json}
use order_book_server_cpp.Tests.Books.{one_bid}

build_snapshot-get_depth_example :
    (d : DepthSnapshot) × (get_depth one_bid (pos 4) ≡ some d)
    × (build_snapshot one_bid ≡ depth_json d)
build_snapshot-get_depth_example =
    build_snapshot-get_depth one_bid 4 (unfold added set_side in omega arith)
      (unfold added set_side in omega arith)

build_bid_ask_pairs-pairs_json_example :
    build_bid_ask_pairs one_bid
    ≡ pairs_json
        (visible one_bid true (downto one_bid.num_levels))
        (visible one_bid false (upfrom 0 one_bid.num_levels))
build_bid_ask_pairs-pairs_json_example =
    build_bid_ask_pairs-pairs_json one_bid (unfold added set_side in omega arith)

abbrev header : MboHeader
header = record {
  rtype = pos 160;
  ts_event = pos 1;
  instrument_id = pos 2;
  publisher_id = pos 3;
  length_units = pos 14;
  flags = pos 0;
  ts_recv = pos 4;
  ts_in_delta = pos 5;
  sequence = pos 6;
}
