-- ===== src/Book/Invariant.antt =====
-- src/orderbook/orderbook.h: what ties the table `m_orders_ref` to the levels, and the steps that
-- rewrite one level keep it.
use order_book_server_cpp.Prelude.{
  ℕ, ◌<◌, ◌≤◌, ◌≡◌, ◌≢◌, ◌%◌, ◌^◌, ◌&&◌, some, Option, Bool, true, false, arith, ◌==◌,
  if◌then◌else◌, Bool-cases, inl, inr, sym, ◌∙◌,
}
use native.Mathlib.Decide.{ℕ_discrete}
use order_book_server_cpp.Book.{Book, Level, Ref, set_side}
use order_book_server_cpp.Book.Levels.{
  IsWide, level_at, same_side, set_side-IsWide, level_at-set_side,
}
use order_book_server_cpp.Book.Prices.{price_to_index}
use order_book_server_cpp.Book.Prices.Laws.{IsGrid}
use order_book_server_cpp.Book.Queue.{Order, deref, shares, Below, Distinct, Changes}
use order_book_server_cpp.Book.Queue.Laws.{Below-mono}

-- The reference of an order leads to a node with its id, in the level of its price.
pub record Linked (b : Book) (id : ℕ) (r : Ref) : Type 0 where
  pub inside : r.index < b.num_levels
  pub priced : price_to_index b.grid r.price ≡ some r.index
  pub order : Order
  pub found : deref r.it (level_at b r.is_bid r.index).queue ≡ some order
  pub named : order.order_id ≡ id

pub record IsSound (n : ℕ) (l : Level) : Type 0 where
  pub below : Below n l.queue
  pub distinct : Distinct l.queue
  pub total : l.total_size ≡ shares l.queue % 2 ^ 64

pub record IsValid (b : Book) : Type 0 where
  pub gridded : IsGrid b.grid
  pub wide : IsWide b
  pub linked : (id : ℕ) (r : Ref) → b.orders_ref id ≡ some r → Linked b id r
  pub sound : (s : Bool) (i : ℕ) → IsSound b.next_it (level_at b s i)

-- The book with level `l` at one place, the table `f` and the next address `n`.
abbrev pub rewritten : Book → Bool → ℕ → Level → (ℕ → Option Ref) → ℕ → Book
rewritten b s i l f n = record (set_side b s i l) { orders_ref = f; next_it = n }

-- The reference of the order that a step is about leads to its node in the new level.
pub record Owns (b : Book) (s : Bool) (i id : ℕ) (l : Level) (r : Ref) : Type 0 where
  pub side : r.is_bid ≡ s
  pub place : r.index ≡ i
  pub priced : price_to_index b.grid r.price ≡ some i
  pub order : Order
  pub found : deref r.it l.queue ≡ some order
  pub named : order.order_id ≡ id

pub same_place : (s t : Bool) (i j : ℕ) → (same_side s t && (i == j)) ≡ true → (s ≡ t) × (i ≡ j)
same_place true true i j e = ground arith
same_place true false i j e = ground arith
same_place false true i j e = ground arith
same_place false false i j e = ground arith

same_place_self : (s : Bool) (i : ℕ) → (same_side s s && (i == i)) ≡ true
same_place_self true i = ground arith
same_place_self false i = ground arith

module _ (b : Book) (v : IsValid b) (s : Bool) (i id n : ℕ) (l : Level) (f : ℕ → Option Ref)
    (h : i < b.num_levels) (grows : b.next_it ≤ n)
    (changes : Changes id n (level_at b s i).queue l.queue)
    (total : l.total_size ≡ shares l.queue % 2 ^ 64) where
  pub level_at-rewritten :
      (t : Bool) (j : ℕ)
      → level_at (rewritten b s i l f n) t j
        ≡ (if same_side s t && (i == j) then l else level_at b t j)
  unfolding level_at set_side
  level_at-rewritten true j = unfold level_at in level_at-set_side b s true i j l v.wide h
  level_at-rewritten false j = level_at-set_side b s false i j l v.wide h

  rewritten-IsSound : (t : Bool) (j : ℕ) → IsSound n (level_at (rewritten b s i l f n) t j)
  rewritten-IsSound t j =
      rw (level_at-rewritten t j) (elim (Bool-cases (same_side s t && (i == j))) [
        | inl e ↦
            rw e (record { below = changes.below; distinct = changes.distinct; total = total })
        | inr e ↦ rw e (record {
          below = Below-mono b.next_it n _ grows (v.sound t j).below;
          distinct = (v.sound t j).distinct;
          total = (v.sound t j).total;
        })
      ])

  -- An order with another id is found where it was, as it was.
  pub deref-rewritten :
      (t : Bool) (j it : ℕ) (o : Order)
      → deref it (level_at b t j).queue ≡ some o
      → o.order_id ≢ id
      → deref it (level_at (rewritten b s i l f n) t j).queue ≡ some o
  deref-rewritten t j it o e ne =
      rw (level_at-rewritten t j) (elim (Bool-cases (same_side s t && (i == j))) [
        | inl same ↦
            rw same (let (p, q) = same_place s t i j same in changes.keeps it o (rw (p, q) e) ne)
        | inr other ↦ rw other e
      ])

  pub level_at-rewritten_self : level_at (rewritten b s i l f n) s i ≡ l
  level_at-rewritten_self = rw (level_at-rewritten s i, same_place_self s i)

  module _ (others : (j : ℕ) → j ≢ id → f j ≡ b.orders_ref j)
      (own : (r : Ref) → f id ≡ some r → Owns b s i id l r) where
    pub rewritten-linked : (j : ℕ) (r : Ref) → f j ≡ some r → Linked (rewritten b s i l f n) j r
    unfolding set_side
    rewritten-linked j r e = elim (ℕ_discrete j id) [
      | yes p ↦
          let o = own r (rw p at e) in
          record {
            inside = rw o.place h;
            priced = rw o.place o.priced;
            order = o.order;
            found = rw (o.side, o.place, level_at-rewritten_self) o.found;
            named = o.named ∙ sym p;
          }
      | no ne ↦
          let k = v.linked j r (sym (others j ne) ∙ e) in
          record {
            inside = k.inside;
            priced = k.priced;
            order = k.order;
            found =
                deref-rewritten r.is_bid r.index r.it k.order k.found (λ q. ne (sym k.named ∙ q));
            named = k.named;
          }
    ]

    -- A step that rewrites one level, and the table at one order, keeps the book valid.
    pub rewritten-IsValid : IsValid (rewritten b s i l f n)
    unfolding set_side
    rewritten-IsValid =
        let w = set_side-IsWide b s i l v.wide in
        record {
          gridded = v.gridded;
          wide = record { bids_wide = w.bids_wide; asks_wide = w.asks_wide };
          linked = rewritten-linked;
          sound = rewritten-IsSound;
        }
