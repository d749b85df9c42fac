-- ===== src/Book/Operations.antt =====
-- src/orderbook/orderbook.h: each operation of `OrderBook` runs without a fault on a valid book,
-- and does to the ledger what it should.
use order_book_server_cpp.Prelude.{
  ℕ, ◌<◌, ◌≡◌, refl, some, none, Option, Bool, arith, ◌==◌, leb, ltb, ◌∙◌, ◌>>=◌, if◌then◌else◌,
  inl, inr, Option-cases, Bool-cases, ap,
}
use order_book_server_cpp.Prelude.Int.{◌==ℤ◌, ==ℤ→eq}
use order_book_server_cpp.Book.{
  Book, MboMsg, Ref, add, cancel, handle_trade, handle_full_fill, modify, remove, shrink, enlarge,
  reduce, touch_price,
}
use order_book_server_cpp.Book.Levels.{level_at}
use order_book_server_cpp.Book.Prices.{price_to_index}
use order_book_server_cpp.Book.Invariant.{IsValid}
use order_book_server_cpp.Book.Ledger.{Entry, ledger, entry_of, taken, modified, entry_of_msg}
use order_book_server_cpp.Book.Steps.{Step, ledger-found, ledger-none}
use order_book_server_cpp.Book.Steps.Located.{
  locate-home, remove-Step, shrink-Step, reduce-Step, enlarge-Step, touch_price_same,
}
use order_book_server_cpp.Book.Steps.Add.{added, add-added, add-Step}

-- A run that returns a book which a step on `id` reaches.
abbrev pub Runs : Book → ℕ → Option Entry → Option Book → Type 0
Runs b id e run = (c : Book) × (run ≡ some c) × Step b c id e

pub handle_trade-cancel : (b : Book) (m : MboMsg) → handle_trade b m ≡ cancel b m
unfolding handle_trade cancel
handle_trade-cancel b m = refl

module _ (b : Book) (v : IsValid b) where
  pub stay : (id : ℕ) → Step b b id (ledger b id)
  stay id = record {
    valid = v;
    same_grid = refl;
    own = refl;
    others = λ j ne. refl;
    fifo = λ s i. refl;
  }

  pub ledger-linked :
      (id : ℕ) (r : Ref) (e : b.orders_ref id ≡ some r)
      → ledger b id ≡ some (entry_of r (v.linked id r e).order)
  ledger-linked id r e =
      let k = v.linked id r e in ledger-found b id r k.order v.wide e k.inside k.found

  pub cancel-Runs :
      (m : MboMsg) → Runs b m.order_id (taken (ledger b m.order_id) m.size) (cancel b m)
  unfolding cancel taken
  cancel-Runs m = elim (Option-cases (b.orders_ref m.order_id)) [
    | inl e ↦ (
      b,
      rw (e, cancel),
      rw (ledger-none b m.order_id e) (rw (ledger-none b m.order_id e) at (stay m.order_id)),
    )
    | inr (r, e) ↦
        let o = (v.linked m.order_id r e).order in
        let l = level_at b r.is_bid r.index in
        rw (ledger-linked m.order_id r e) (elim (Bool-cases (leb o.size m.size)) [
          | inl all ↦ (
            remove b m.order_id r l o,
            rw (e, cancel, locate-home b v m.order_id r e, ◌>>=◌, all),
            rw all (remove-Step b v m.order_id r e),
          )
          | inr part ↦ (
            shrink b r l o m.size,
            rw (e, cancel, locate-home b v m.order_id r e, ◌>>=◌, part),
            rw part (shrink-Step b v m.order_id r e m.size (ground arith)),
          )
        ])
  ]

  pub handle_full_fill-Runs : (m : MboMsg) → Runs b m.order_id none (handle_full_fill b m)
  unfolding handle_full_fill
  handle_full_fill-Runs m = elim (Option-cases (b.orders_ref m.order_id)) [
    | inl e ↦ (b, rw (e, handle_full_fill), rw (ledger-none b m.order_id e) at (stay m.order_id))
    | inr (r, e) ↦ (
      remove b m.order_id r _ _,
      rw (e, handle_full_fill, locate-home b v m.order_id r e),
      remove-Step b v m.order_id r e,
    )
  ]

  -- A trade takes shares as a cancellation does.
  pub handle_trade-Runs :
      (m : MboMsg) → Runs b m.order_id (taken (ledger b m.order_id) m.size) (handle_trade b m)
  handle_trade-Runs m = rw (handle_trade-cancel b m) (cancel-Runs m)

  pub add-Runs :
      (m : MboMsg) (s : Bool) (i : ℕ)
      → i < b.num_levels
      → price_to_index b.grid m.price ≡ some i
      → Runs b m.order_id
          (some (record { is_bid = s; price = m.price; size = m.size }))
          (add b m s i)
  add-Runs m s i h priced = (added b m s i, add-added b m s i v.wide h, add-Step b m s i v h priced)

-- Two steps on one order.
Step-trans :
    (b c d : Book) (id : ℕ) (e f : Option Entry) → Step b c id e → Step c d id f → Step b d id f
Step-trans b c d id e f p q = record {
  valid = q.valid;
  same_grid = q.same_grid ∙ p.same_grid;
  own = q.own;
  others = λ j ne. q.others j ne ∙ p.others j ne;
  fifo = λ s i. q.fifo s i ∙ p.fifo s i;
}

module _ (b : Book) (v : IsValid b) (m : MboMsg) (i : ℕ) (h : i < b.num_levels)
    (priced : price_to_index b.grid m.price ≡ some i) where
  module _ (r : Ref) (e : b.orders_ref m.order_id ≡ some r) where
    abbrev gone : Book
    gone = remove b m.order_id r (level_at b r.is_bid r.index) (v.linked m.order_id r e).order

    -- Case 2 of `modify`: the order leaves its level and joins the one of its new price.
    re_add-Runs : Runs b m.order_id (some (entry_of_msg m)) (add gone m (m.side == b'B') i)
    re_add-Runs =
        let p = remove-Step b v m.order_id r e in
        let (d, run, q) =
          add-Runs gone p.valid m (m.side == b'B') i (rw p.same_grid h) (rw p.same_grid priced) in
        (d, run, Step-trans b gone d m.order_id none _ p q)

    unresized :
        (v.linked m.order_id r e).order.size ≡ m.size
        → Step b b m.order_id (some (record { is_bid = r.is_bid; price = r.price; size = m.size }))
    unresized same = record {
      valid = v;
      same_grid = refl;
      own =
          ledger-linked b v m.order_id r e
          ∙ ap (λ s. some (record { is_bid = r.is_bid; price = r.price; size = s })) same;
      others = λ j ne. refl;
      fifo = λ s i. refl;
    }

    -- Cases 3 and 4 of `modify`, and an equal size.
    resize-Runs :
        m.price ≡ r.price
        → let o = (v.linked m.order_id r e).order in
          let l = level_at b r.is_bid r.index in
          Runs b m.order_id (some (record { is_bid = r.is_bid; price = r.price; size = m.size })) (
            if ltb o.size m.size
            then some (touch_price (enlarge b r l o m.size) m.order_id r m.price)
            else if ltb m.size o.size
            then some (touch_price (reduce b r l o m.size) m.order_id r m.price)
            else some (touch_price b m.order_id r m.price))
    unfolding enlarge reduce
    resize-Runs same =
        let o = (v.linked m.order_id r e).order in
        let l = level_at b r.is_bid r.index in
        elim (Bool-cases (ltb o.size m.size)) [
          | inl more ↦ (
            enlarge b r l o m.size,
            rw more
                (ap some (touch_price_same (enlarge b r l o m.size) m.order_id r m.price e same)),
            enlarge-Step b v m.order_id r e m.size (ground arith),
          )
          | inr not_more ↦ elim (Bool-cases (ltb m.size o.size)) [
            | inl less ↦ (
              reduce b r l o m.size,
              rw (not_more, less)
                  (ap some (touch_price_same (reduce b r l o m.size) m.order_id r m.price e same)),
              reduce-Step b v m.order_id r e m.size (ground arith),
            )
            | inr not_less ↦ (
              b,
              rw (not_more, not_less) (ap some (touch_price_same b m.order_id r m.price e same)),
              unresized (ground arith),
            )
          ]
        ]

    modify-Runs_known :
        Runs b m.order_id (modified (ledger b m.order_id) m) (modify b m (m.side == b'B') i)
    unfolding modify modified
    modify-Runs_known =
        let o = (v.linked m.order_id r e).order in
        let l = level_at b r.is_bid r.index in
        rw (ledger-linked b v m.order_id r e, e, modify, locate-home b v m.order_id r e, ◌>>=◌)
          (elim (Bool-cases (m.size == 0)) [
            | inl empty ↦ rw empty (gone, refl, remove-Step b v m.order_id r e)
            | inr filled ↦ rw filled (elim (Bool-cases (m.price ==ℤ r.price)) [
              | inl same ↦ rw same (resize-Runs (==ℤ→eq m.price r.price same))
              | inr moved ↦ rw moved re_add-Runs
            ])
          ])

  pub modify-Runs :
      Runs b m.order_id (modified (ledger b m.order_id) m) (modify b m (m.side == b'B') i)
  unfolding modify modified
  modify-Runs = elim (Option-cases (b.orders_ref m.order_id)) [
    | inl e ↦
        rw (ledger-none b m.order_id e, e, modify) (add-Runs b v m (m.side == b'B') i h priced)
    | inr (r, e) ↦ modify-Runs_known r e
  ]
