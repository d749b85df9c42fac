-- ===== src/Book/Priority/Operations.antt =====
-- src/orderbook/orderbook.h: the ids that wait after each operation.
use order_book_server_cpp.Prelude.{
  ℕ, ◌<◌, ◌≡◌, refl, ◌∙◌, ap, some, Option, Bool, ◌==◌, leb, ltb, ◌>>=◌, if◌then◌else◌, Bool-cases,
  Option-cases, inl, inr,
}
use order_book_server_cpp.Prelude.Int.{◌==ℤ◌, ==ℤ→eq}
use order_book_server_cpp.Book.{
  Book, MboMsg, Level, Ref, add, cancel, handle_trade, handle_full_fill, handle_non_printed, modify,
  remove, shrink, enlarge, reduce, touch_price, dispatch,
}
use order_book_server_cpp.Book.Levels.{level_at}
use order_book_server_cpp.Book.Queue.{Order}
use order_book_server_cpp.Book.Invariant.{IsValid}
use order_book_server_cpp.Book.Ledger.{ledger}
use order_book_server_cpp.Book.Steps.{ledger-none}
use order_book_server_cpp.Book.Steps.Located.{locate-home, remove-Step, touch_price_same}
use order_book_server_cpp.Book.Steps.Add.{added, add-added}
use order_book_server_cpp.Book.Operations.{ledger-linked, handle_trade-cancel}
use order_book_server_cpp.Book.Priority.{
  Move, keeps, requeues, joins, rejoins, taken_move, filled_move, modified_move, move_of, joined,
  next_waiting,
}
use order_book_server_cpp.Book.Priority.Places.{
  waiting_at, waiting-add, waiting-remove, waiting-shrink, waiting-reduce, waiting-back,
}

-- A run that returns a book whose queues are those of `b` with the order of `m` moved.
abbrev pub Moves : Book → MboMsg → Option Ref → Bool → ℕ → Move → Option Book → Type 0
Moves b m known side index move run =
    (c : Book) × (run ≡ some c)
    × ((s : Bool) (i : ℕ)
        → waiting_at c s i
          ≡ next_waiting m.order_id s i move known side index (level_at b s i).queue)

module _ (b : Book) (v : IsValid b) (m : MboMsg) (side : Bool) (index : ℕ)
    (h : index < b.num_levels) where
  cancel-Moves :
      Moves b m
        (b.orders_ref m.order_id)
        side
        index
        (taken_move (ledger b m.order_id) m.size)
        (cancel b m)
  unfolding cancel
  cancel-Moves = elim (Option-cases (b.orders_ref m.order_id)) [
    | inl e ↦ (b, rw (e, cancel), λ s i. rw (ledger-none b m.order_id e) refl)
    | inr (r, e) ↦
        let o = (v.linked m.order_id r e).order in
        let l = level_at b r.is_bid r.index in
        rw (ledger-linked b v m.order_id r e) (elim (Bool-cases (leb o.size m.size)) [
          | inl all ↦ (
            remove b m.order_id r l o,
            rw (e, cancel, locate-home b v m.order_id r e, ◌>>=◌, all),
            λ s i. rw (all, e) (waiting-remove b v m r e s i),
          )
          | inr part ↦ (
            shrink b r l o m.size,
            rw (e, cancel, locate-home b v m.order_id r e, ◌>>=◌, part),
            λ s i. rw part (waiting-shrink b v m r e m.size s i),
          )
        ])
  ]

  handle_trade-Moves :
      Moves b m
        (b.orders_ref m.order_id)
        side
        index
        (taken_move (ledger b m.order_id) m.size)
        (handle_trade b m)
  handle_trade-Moves = rw (handle_trade-cancel b m) cancel-Moves

  handle_full_fill-Moves :
      Moves b m
        (b.orders_ref m.order_id)
        side
        index
        (filled_move (ledger b m.order_id))
        (handle_full_fill b m)
  unfolding handle_full_fill
  handle_full_fill-Moves = elim (Option-cases (b.orders_ref m.order_id)) [
    | inl e ↦ (b, rw (e, handle_full_fill), λ s i. rw (ledger-none b m.order_id e) refl)
    | inr (r, e) ↦ (
      remove b m.order_id r (level_at b r.is_bid r.index) (v.linked m.order_id r e).order,
      rw (e, handle_full_fill, locate-home b v m.order_id r e),
      λ s i. rw (ledger-linked b v m.order_id r e, e) (waiting-remove b v m r e s i),
    )
  ]

  add-Moves : Moves b m (b.orders_ref m.order_id) side index joins (add b m side index)
  add-Moves =
      (added b m side index, add-added b m side index v.wide h, waiting-add b m side index v.wide h)

  module _ (r : Ref) (e : b.orders_ref m.order_id ≡ some r) where
    abbrev own : Order
    own = (v.linked m.order_id r e).order

    abbrev place : Level
    place = level_at b r.is_bid r.index

    re_add-Moves :
        Moves b m (some r) side index rejoins (add (remove b m.order_id r place own) m side index)
    re_add-Moves =
        let gone = remove b m.order_id r place own in
        let p = remove-Step b v m.order_id r e in
        let inside : index < gone.num_levels = rw p.same_grid h in
        (
          added gone m side index,
          add-added gone m side index p.valid.wide inside,
          λ s i.
              (waiting-add gone m side index p.valid.wide inside s i
                ∙ ap (joined m.order_id s i side index) (waiting-remove b v m r e s i)),
        )

    resize-Moves :
        m.price ≡ r.price
        → Moves b m (some r) side index (if ltb own.size m.size then requeues else keeps) (
            if ltb own.size m.size
            then some (touch_price (enlarge b r place own m.size) m.order_id r m.price)
            else if ltb m.size own.size
            then some (touch_price (reduce b r place own m.size) m.order_id r m.price)
            else some (touch_price b m.order_id r m.price))
    unfolding enlarge reduce
    resize-Moves same = elim (Bool-cases (ltb own.size m.size)) [
      | inl more ↦ (
        enlarge b r place own m.size,
        rw more
            (ap some (touch_price_same (enlarge b r place own m.size) m.order_id r m.price e same)),
        λ s i. rw more (waiting-back b v m r e m.size s i),
      )
      | inr not_more ↦ elim (Bool-cases (ltb m.size own.size)) [
        | inl less ↦ (
          reduce b r place own m.size,
          rw (not_more, less)
              (ap some
                (touch_price_same (reduce b r place own m.size) m.order_id r m.price e same)),
          λ s i. rw not_more (waiting-reduce b v m r e m.size s i),
        )
        | inr not_less ↦ (
          b,
          rw (not_more, not_less) (ap some (touch_price_same b m.order_id r m.price e same)),
          λ s i. rw not_more refl,
        )
      ]
    ]

    modify-Moves_known :
        Moves b m
          (b.orders_ref m.order_id)
          side
          index
          (modified_move (ledger b m.order_id) m)
          (modify b m side index)
    unfolding modify
    modify-Moves_known =
        rw (ledger-linked b v m.order_id r e, e, modify, locate-home b v m.order_id r e, ◌>>=◌)
          (elim (Bool-cases (m.size == 0)) [
            | inl empty ↦
                rw empty
                  (remove b m.order_id r place own, refl, λ s i. waiting-remove b v m r e s i)
            | inr filled ↦ rw filled (elim (Bool-cases (m.price ==ℤ r.price)) [
              | inl same ↦ rw same (resize-Moves (==ℤ→eq m.price r.price same))
              | inr moved ↦ rw moved re_add-Moves
            ])
          ])

  modify-Moves :
      Moves b m
        (b.orders_ref m.order_id)
        side
        index
        (modified_move (ledger b m.order_id) m)
        (modify b m side index)
  unfolding modify
  modify-Moves = elim (Option-cases (b.orders_ref m.order_id)) [
    | inl e ↦ rw (ledger-none b m.order_id e, e, modify) add-Moves
    | inr (r, e) ↦ modify-Moves_known r e
  ]

  -- Every action of the `switch`.
  pub dispatch-Moves :
      Moves b m
        (b.orders_ref m.order_id)
        side
        index
        (move_of (ledger b m.order_id) m)
        (dispatch b m side index)
  unfolding dispatch move_of handle_non_printed
  dispatch-Moves = elim (Bool-cases (m.action == b'T')) [
    | inl t ↦ rw t handle_trade-Moves
    | inr t ↦ elim (Bool-cases (m.action == b'F')) [
      | inl f ↦ rw (t, f) handle_full_fill-Moves
      | inr f ↦ elim (Bool-cases (m.action == b'N')) [
        | inl n ↦ rw (t, f, n) handle_trade-Moves
        | inr n ↦ elim (Bool-cases (m.action == b'A')) [
          | inl a ↦ rw (t, f, n, a) add-Moves
          | inr a ↦ elim (Bool-cases (m.action == b'C')) [
            | inl c ↦ rw (t, f, n, a, c) cancel-Moves
            | inr c ↦ elim (Bool-cases (m.action == b'M')) [
              | inl d ↦ rw (t, f, n, a, c, d) modify-Moves
              | inr d ↦ rw (t, f, n, a, c, d) (b, refl, λ s i. refl)
            ]
          ]
        ]
      ]
    ]
  ]
