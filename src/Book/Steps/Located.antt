-- ===== src/Book/Steps/Located.antt =====
-- src/orderbook/orderbook.h: the steps on an order that the table knows.
use mathlib.Core.Path.{subst, fun_ext}
use order_book_server_cpp.Prelude.{
  ℕ, ◌-◌, ◌≤◌, ◌≡◌, ◌≢◌, refl, some, none, Option, arith, List, ap, ◌∙◌,
}
use order_book_server_cpp.Prelude.Int.{ℤ}
use order_book_server_cpp.Book.{
  Book, Level, Ref, set_side, update, locate, remove, shrink, enlarge, reduce, touch_price,
}
use order_book_server_cpp.Book.Levels.{level_at, locate-level_at}
use order_book_server_cpp.Book.Queue.{Order, write_size, move_to_back, without, Changes}
use order_book_server_cpp.Book.Queue.Laws.{deref-write_self, shares-erase, shares-write}
use order_book_server_cpp.Book.Queue.Effects.{
  erase-Changes, write-Changes, move-Changes, shares-move, deref-move,
}
use order_book_server_cpp.Book.Invariant.{IsValid, IsSound, Linked}
use order_book_server_cpp.Book.Steps.{Step, rewritten_gone, rewritten_kept}

-- An order of a valid book, its reference and its level.
module _ (b : Book) (v : IsValid b) (id : ℕ) (r : Ref) (e : b.orders_ref id ≡ some r) where
  abbrev link : Linked b id r
  link = v.linked id r e

  abbrev home : Level
  home = level_at b r.is_bid r.index

  home-IsSound : IsSound b.next_it home
  home-IsSound = v.sound r.is_bid r.index

  update_others : (k : Option Ref) (j : ℕ) → j ≢ id → update b.orders_ref id k j ≡ b.orders_ref j
  update_others k j ne = ground arith

  update_self : (k : Option Ref) → update b.orders_ref id k id ≡ k
  update_self k = ground arith

  pub locate-home : locate b r ≡ some (home, link.order)
  locate-home = locate-level_at b r link.order v.wide link.inside link.found

  -- The queue operations are about the order `id`.
  for_id :
      {new : List Order}
      → Changes link.order.order_id b.next_it home.queue new
      → Changes id b.next_it home.queue new
  for_id {new} c = subst (λ k. Changes k b.next_it home.queue new) link.named c

  pub remove-Step : Step b (remove b id r home link.order) id none
  unfolding remove set_side
  remove-Step =
      let t = home-IsSound in
      rewritten_gone b v r.is_bid r.index id b.next_it _ (update b.orders_ref id none) link.inside
        (omega arith)
        (for_id (erase-Changes b.next_it r.it home.queue link.order t.below t.distinct link.found))
        (omega (arith, t.total, shares-erase r.it home.queue link.order link.found))
        (update_others none) (update_self none)

  written : (s : ℕ) → Changes id b.next_it home.queue (write_size r.it s home.queue)
  written s =
      let t = home-IsSound in
      for_id (write-Changes b.next_it r.it home.queue link.order t.below t.distinct link.found s)

  -- With fewer shares in the same place, by a smaller or equal amount.
  pub shrink-Step :
      (sz : ℕ)
      → sz ≤ link.order.size
      → Step b
          (shrink b r home link.order sz)
          id
          (some (record { is_bid = r.is_bid; price = r.price; size = link.order.size - sz }))
  unfolding shrink set_side
  shrink-Step sz le =
      let t = home-IsSound in
      let left = link.order.size - sz in
      rewritten_kept b v r.is_bid r.index id b.next_it _ b.orders_ref link.inside (omega arith)
        (written left)
        (omega (arith, t.total, shares-write r.it left home.queue link.order link.found))
        (λ j ne. refl) r e
        (record {
          side = refl;
          place = refl;
          priced = link.priced;
          order = record (link.order) { size = left };
          found = deref-write_self r.it left home.queue link.order link.found;
          named = link.named;
        })

  -- Case 4 of `modify`.
  pub reduce-Step :
      (size : ℕ)
      → size ≤ link.order.size
      → Step b
          (reduce b r home link.order size)
          id
          (some (record { is_bid = r.is_bid; price = r.price; size = size }))
  unfolding reduce set_side
  reduce-Step size le =
      let t = home-IsSound in
      rewritten_kept b v r.is_bid r.index id b.next_it _ b.orders_ref link.inside (omega arith)
        (written size)
        (omega (arith, t.total, shares-write r.it size home.queue link.order link.found))
        (λ j ne. refl) r e
        (record {
          side = refl;
          place = refl;
          priced = link.priced;
          order = record (link.order) { size = size };
          found = deref-write_self r.it size home.queue link.order link.found;
          named = link.named;
        })

  -- Case 3 of `modify`.
  pub enlarge-Step :
      (size : ℕ)
      → link.order.size ≤ size
      → Step b
          (enlarge b r home link.order size)
          id
          (some (record { is_bid = r.is_bid; price = r.price; size = size }))
  unfolding enlarge set_side
  enlarge-Step size le =
      let t = home-IsSound in
      let q = write_size r.it size home.queue in
      let o : Order = record (link.order) { size = size } in
      let w = written size in
      let at = deref-write_self r.it size home.queue link.order link.found in
      let m = move-Changes b.next_it r.it q o w.below w.distinct at in
      rewritten_kept b v r.is_bid r.index id b.next_it _ b.orders_ref link.inside (omega arith)
        (record {
          below = m.below;
          distinct = m.distinct;
          keeps = λ it x f ne. m.keeps it x (w.keeps it x f ne) (λ g. ne (g ∙ link.named));
          fifo =
              subst (λ k. without k (move_to_back r.it q) ≡ without k q) link.named m.fifo ∙ w.fifo;
        })
        (omega (
          arith,
          t.total,
          shares-write r.it size home.queue link.order link.found,
          shares-move b.next_it r.it q o w.below w.distinct at,
        ))
        (λ j ne. refl) r e
        (record {
          side = refl;
          place = refl;
          priced = link.priced;
          order = o;
          found = deref-move b.next_it r.it q o w.below w.distinct at;
          named = link.named;
        })

-- Writing the price that the table has changes nothing.
pub touch_price_same :
    (b : Book) (id : ℕ) (r : Ref) (px : ℤ)
    → b.orders_ref id ≡ some r
    → px ≡ r.price
    → touch_price b id r px ≡ b
unfolding touch_price
touch_price_same b id r px e same =
    ap (λ f. record b { orders_ref = f }) (fun_ext λ j. ground arith)
