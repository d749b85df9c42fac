-- ===== src/Book/Steps.antt =====
-- src/orderbook/orderbook.h: what the operations on one level do to a valid book.
pub mod Located
pub mod Add
use mathlib.Core.Path.{subst, subst₂}
use order_book_server_cpp.Prelude.{
  ℕ, ◌<◌, ◌≤◌, ◌≡◌, ◌≢◌, ◌%◌, ◌^◌, refl, some, none, Option, Bool, sym, ◌∙◌, inl, inr, arith,
  Option-cases, Bool-cases, ◌&&◌, ◌==◌,
}
use order_book_server_cpp.Book.{Book, Level, Ref, set_side}
use order_book_server_cpp.Book.Levels.{level_at, locate-level_at, same_side, IsWide}
use order_book_server_cpp.Book.Queue.{Order, deref, shares, without, Changes}
use order_book_server_cpp.Book.Invariant.{
  IsValid, Owns, rewritten, rewritten-IsValid, same_place, level_at-rewritten,
  level_at-rewritten_self, deref-rewritten,
}
use order_book_server_cpp.Book.Ledger.{Entry, ledger, entry_of}

-- A step on the order `id` keeps the book valid, leaves every other entry, sets its own, and
-- leaves the sequence of the other orders at every level.
pub record Step (b c : Book) (id : ℕ) (e : Option Entry) : Type 0 where
  pub valid : IsValid c
  pub same_grid : c.grid ≡ b.grid
  pub own : ledger c id ≡ e
  pub others : (j : ℕ) → j ≢ id → ledger c j ≡ ledger b j
  pub fifo :
      (s : Bool) (i : ℕ) → without id (level_at c s i).queue ≡ without id (level_at b s i).queue

pub ledger-found :
    (b : Book) (id : ℕ) (r : Ref) (o : Order)
    → IsWide b
    → b.orders_ref id ≡ some r
    → r.index < b.num_levels
    → deref r.it (level_at b r.is_bid r.index).queue ≡ some o
    → ledger b id ≡ some (entry_of r o)
unfolding ledger
ledger-found b id r o w e h at = rw (e, locate-level_at b r o w h at)

pub ledger-none : (b : Book) (id : ℕ) → b.orders_ref id ≡ none → ledger b id ≡ none
unfolding ledger
ledger-none b id e = rw e

module _ (b : Book) (v : IsValid b) (s : Bool) (i id n : ℕ) (l : Level) (f : ℕ → Option Ref)
    (h : i < b.num_levels) (grows : b.next_it ≤ n)
    (changes : Changes id n (level_at b s i).queue l.queue)
    (total : l.total_size ≡ shares l.queue % 2 ^ 64)
    (others : (j : ℕ) → j ≢ id → f j ≡ b.orders_ref j) where
  rewritten-others :
      IsWide (rewritten b s i l f n)
      → (j : ℕ) → j ≢ id
      → ledger (rewritten b s i l f n) j ≡ ledger b j
  unfolding set_side
  rewritten-others w j ne = elim (Option-cases (b.orders_ref j)) [
    | inl e ↦ ledger-none _ j (others j ne ∙ e) ∙ sym (ledger-none b j e)
    | inr (r, e) ↦
        let k = v.linked j r e in
        let kept =
          deref-rewritten b v s i id n l f h grows changes total r.is_bid r.index r.it k.order
            k.found (λ q. ne (sym k.named ∙ q)) in
        ledger-found _ j r k.order w (others j ne ∙ e) k.inside kept
        ∙ sym (ledger-found b j r k.order v.wide e k.inside k.found)
  ]

  rewritten-fifo :
      (t : Bool) (j : ℕ)
      → without id (level_at (rewritten b s i l f n) t j).queue ≡ without id (level_at b t j).queue
  rewritten-fifo t j =
      rw (level_at-rewritten b v s i id n l f h grows changes total t j)
        (elim (Bool-cases (same_side s t && (i == j))) [
          | inl same ↦
              let (p, q) = same_place s t i j same in
              rw same (
                subst₂ (λ u k. without id l.queue ≡ without id (level_at b u k).queue) p q
                  changes.fifo)
          | inr other ↦ rw other
        ])

  -- The order is gone from the table.
  pub rewritten_gone : f id ≡ none → Step b (rewritten b s i l f n) id none
  unfolding set_side
  rewritten_gone e =
      let c-valid = rewritten-IsValid b v s i id n l f h grows changes total others (λ r q. cc) in
      record {
        valid = c-valid;
        same_grid = refl;
        own = ledger-none _ id e;
        others = rewritten-others c-valid.wide;
        fifo = rewritten-fifo;
      }

  -- The order has the reference `r` into the new level.
  pub rewritten_kept :
      (r : Ref)
      → f id ≡ some r
      → (o : Owns b s i id l r) → Step b (rewritten b s i l f n) id (some (entry_of r o.order))
  unfolding set_side
  rewritten_kept r e o =
      let c-valid =
        rewritten-IsValid b v s i id n l f h grows changes total others
          (λ q g. subst (Owns b s i id l) (cc) o) in
      record {
        valid = c-valid;
        same_grid = refl;
        own = ledger-found _ id r o.order c-valid.wide e (rw o.place h) (
            rw (o.side, o.place, level_at-rewritten_self b v s i id n l f h grows changes total)
              o.found);
        others = rewritten-others c-valid.wide;
        fifo = rewritten-fifo;
      }
