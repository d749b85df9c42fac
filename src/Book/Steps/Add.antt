-- ===== src/Book/Steps/Add.antt =====
-- src/orderbook/orderbook.h: `add`.
use order_book_server_cpp.Prelude.{
  ℕ, suc, ◌<◌, ◌≡◌, refl, some, none, Bool, arith, [], ◌∷◌, ◌++◌, ◌≤◌,
}
use order_book_server_cpp.Book.{Book, MboMsg, Level, Ref, set_side, update, add, add_u64}
use order_book_server_cpp.Book.Levels.{level_at, get_side-level_at, get_side_outside, IsWide}
use order_book_server_cpp.Book.Prices.{price_to_index}
use order_book_server_cpp.Book.Queue.{Order}
use order_book_server_cpp.Book.Queue.Laws.{shares-append}
use order_book_server_cpp.Book.Queue.Effects.{append-Changes, deref-append_new}
use order_book_server_cpp.Book.Invariant.{IsValid}
use order_book_server_cpp.Book.Steps.{Step, rewritten_kept}

module _ (b : Book) (m : MboMsg) (s : Bool) (i : ℕ) where
  abbrev pub new_order : Order
  new_order = record { it = b.next_it; order_id = m.order_id; size = m.size }

  abbrev pub new_ref : Ref
  new_ref = record { is_bid = s; index = i; it = b.next_it; price = m.price }

  -- The level with the order at the back.
  abbrev pub longer : Level
  longer = record {
    queue = (level_at b s i).queue ++ new_order ∷ [];
    total_size = add_u64 (level_at b s i).total_size m.size;
  }

  unfoldable pub added : Book
  added = record (set_side b s i longer) {
    orders_ref = update b.orders_ref m.order_id (some new_ref);
    next_it = suc b.next_it;
  }

  pub add-added : IsWide b → i < b.num_levels → add b m s i ≡ some added
  unfolding add added
  add-added w h = rw (get_side-level_at b s i w h)

  -- The code has no test of the index: `m_bids[idx]` past the end is undefined.
  pub add_outside : IsWide b → b.num_levels ≤ i → add b m s i ≡ none
  unfolding add
  add_outside w h = rw (get_side_outside b s i w h)

  pub add-Step :
      IsValid b
      → i < b.num_levels
      → price_to_index b.grid m.price ≡ some i
      → Step b added m.order_id (some (record { is_bid = s; price = m.price; size = m.size }))
  unfolding added set_side
  add-Step v h priced =
      let t = v.sound s i in
      let q = (level_at b s i).queue in
      rewritten_kept b v s i m.order_id (suc b.next_it) longer
        (update b.orders_ref m.order_id (some new_ref)) h (omega arith)
        (append-Changes q new_order t.below t.distinct)
        (omega (arith, t.total, shares-append q new_order)) (λ j ne. ground arith) new_ref
        (ground arith)
        (record {
          side = refl;
          place = refl;
          priced = priced;
          order = new_order;
          found = deref-append_new q new_order t.below;
          named = refl;
        })
