-- ===== src/Book/Refinement.antt =====
-- src/orderbook/orderbook.h: `apply` against the ledger of Book/Ledger.antt.
use order_book_server_cpp.Prelude.{
  ℕ, ◌<◌, ◌≡◌, ◌≢◌, refl, some, Option, Bool, false, arith, ◌==◌, not, ◌&&◌, sym, ◌∙◌,
  if◌then◌else◌, inl, inr, Bool-cases, List, [], ◌∷◌, All, ==_iff, ap,
}
use mathlib.Core.Path.{subst, fun_ext}
use order_book_server_cpp.Book.Queue.{Distinct, shares, without}
use order_book_server_cpp.Prelude.Int.{◌≤ℤ◌}
use order_book_server_cpp.Book.{Book, MboMsg, handle_non_printed, clear, dispatch, apply, apply_all}
use order_book_server_cpp.Book.Levels.{level_at, level_at-clear, clear-IsWide}
use order_book_server_cpp.Book.Prices.{Grid, price_to_index}
use order_book_server_cpp.Book.Prices.Laws.{price_to_index_range}
use order_book_server_cpp.Book.Invariant.{IsValid}
use order_book_server_cpp.Book.Ledger.{Entry, ledger, next_entry, next_ledger, is_side}
use order_book_server_cpp.Book.Steps.{Step, ledger-none}
use order_book_server_cpp.Book.Operations.{
  Runs, stay, cancel-Runs, handle_trade-Runs, handle_full_fill-Runs, add-Runs, modify-Runs,
}

module _ (b : Book) (v : IsValid b) (m : MboMsg) (i : ℕ) (h : i < b.num_levels)
    (priced : price_to_index b.grid m.price ≡ some i) where
  -- Every action of the `switch`.
  dispatch-Runs :
      Runs b m.order_id (next_entry (ledger b m.order_id) m) (dispatch b m (m.side == b'B') i)
  unfolding dispatch next_entry handle_non_printed
  dispatch-Runs = elim (Bool-cases (m.action == b'T')) [
    | inl t ↦ rw t (handle_trade-Runs b v m)
    | inr t ↦ elim (Bool-cases (m.action == b'F')) [
      | inl f ↦ rw (t, f) (handle_full_fill-Runs b v m)
      | inr f ↦ elim (Bool-cases (m.action == b'N')) [
        | inl n ↦ rw (t, f, n) (handle_trade-Runs b v m)
        | inr n ↦ elim (Bool-cases (m.action == b'A')) [
          | inl a ↦ rw (t, f, n, a) (add-Runs b v m (m.side == b'B') i h priced)
          | inr a ↦ elim (Bool-cases (m.action == b'C')) [
            | inl c ↦ rw (t, f, n, a, c) (cancel-Runs b v m)
            | inr c ↦ elim (Bool-cases (m.action == b'M')) [
              | inl d ↦ rw (t, f, n, a, c, d) (modify-Runs b v m i h priced)
              | inr d ↦ rw (t, f, n, a, c, d) (b, refl, stay b v m.order_id)
            ]
          ]
        ]
      ]
    ]
  ]

pub clear-IsValid : (b : Book) → IsValid b → IsValid (clear b)
unfolding clear
clear-IsValid b v = record {
  gridded = v.gridded;
  wide = clear-IsWide b v.wide;
  linked = λ id r e. cc;
  sound = λ s i.
      rw (level_at-clear b s i)
        (unfold Distinct shares in record { below = tt; distinct = tt; total = refl });
}

-- The price of a message lies between the bounds of the book.
pub record IsPriced (g : Grid) (m : MboMsg) : Type 0 where
  pub above : g.price_min ≤ℤ m.price
  pub under : m.price ≤ℤ g.price_max

-- A message that is no reset runs, as a step on its order.
apply-Runs :
    (b : Book) (m : MboMsg)
    → IsValid b
    → IsPriced b.grid m
    → (m.action == b'R') ≡ false
    → Runs b m.order_id
        (if is_side m.side then next_entry (ledger b m.order_id) m else ledger b m.order_id)
        (apply b m)
unfolding apply
apply-Runs b m v p act = elim (Bool-cases (not (m.side == b'A') && not (m.side == b'B'))) [
  | inl none_side ↦ rw (act, none_side) (b, refl, stay b v m.order_id)
  | inr side ↦
      let (i, priced, inside, lo, hi) =
        price_to_index_range b.grid m.price v.gridded p.above p.under in
      rw (act, side, priced) (dispatch-Runs b v m i inside priced)
]

pub some_inj {ℓ} : {A : Type ℓ} {a b : A} → some a ≡ some b → a ≡ b
some_inj e = cc

module _ (l : ℕ → Option Entry) (m : MboMsg) (act : (m.action == b'R') ≡ false) where
  next_own :
      (if is_side m.side then next_entry (l m.order_id) m else l m.order_id)
      ≡ next_ledger l m m.order_id
  unfolding next_ledger
  next_own = ground arith

  next_other : (id : ℕ) → (m.order_id == id) ≡ false → l id ≡ next_ledger l m id
  unfolding next_ledger
  next_other id ne = ground arith

Step-ledger :
    (b c : Book) (m : MboMsg) (id : ℕ)
    → (m.action == b'R') ≡ false
    → Step b c m.order_id
        (if is_side m.side then next_entry (ledger b m.order_id) m else ledger b m.order_id)
    → ledger c id ≡ next_ledger (ledger b) m id
Step-ledger b c m id act s = elim (Bool-cases (m.order_id == id)) [
  | inl same ↦
      subst (λ k. ledger c k ≡ next_ledger (ledger b) m k) ((==_iff _ _).0 same)
        (s.own ∙ next_own (ledger b) m act)
  | inr other ↦ s.others id (ground arith) ∙ next_other (ledger b) m act id other
]

-- A message whose price lies between the bounds is applied to a valid book without a fault; the new
-- book is valid, on the same grid, and its ledger is the old one with the entry of the message's
-- order replaced as `next_ledger` says, or empty after a reset.
pub apply-next_ledger :
    (b : Book) (m : MboMsg)
    → IsValid b
    → IsPriced b.grid m
    → (c : Book) × (apply b m ≡ some c)
      × IsValid c
      × (c.grid ≡ b.grid)
      × ((id : ℕ) → ledger c id ≡ next_ledger (ledger b) m id)
unfolding apply next_ledger clear
apply-next_ledger b m v p = elim (Bool-cases (m.action == b'R')) [
  | inl reset ↦
      (clear b, rw reset, clear-IsValid b v, refl, λ id. rw reset (ledger-none (clear b) id refl))
  | inr act ↦
      let (c, run, step) = apply-Runs b m v p act in
      (c, run, step.valid, step.same_grid, λ id. Step-ledger b c m id act step)
]

-- Outside a reset, a message leaves every other order of every level where it was in the queue: with
-- the orders of the message's id left out, each queue is what it was.
pub apply-fifo :
    (b c : Book) (m : MboMsg)
    → IsValid b
    → IsPriced b.grid m
    → m.action ≢ b'R'
    → apply b m ≡ some c
    → (s : Bool) (i : ℕ)
    → without m.order_id (level_at c s i).queue ≡ without m.order_id (level_at b s i).queue
apply-fifo b c m v p act run s i =
    let (d, ran, step) = apply-Runs b m v p (ground arith) in
    subst
      (λ k. without m.order_id (level_at k s i).queue ≡ without m.order_id (level_at b s i).queue)
      (some_inj (sym ran ∙ run)) (step.fifo s i)

-- The ledger after a sequence of messages.
unfoldable pub next_ledgers : (ℕ → Option Entry) → List MboMsg → ℕ → Option Entry
next_ledgers l [] = l
next_ledgers l (m ∷ ms) = next_ledgers (next_ledger l m) ms

-- A stream of messages with prices between the bounds is applied to its end, the last book is valid and
-- has the grid of the first, and its ledger is that of the first changed by the messages alone.
pub apply_all-next_ledgers :
    (b : Book) (ms : List MboMsg)
    → IsValid b
    → All (IsPriced b.grid) ms
    → (c : Book) × (apply_all b ms ≡ some c)
      × IsValid c
      × ((id : ℕ) → ledger c id ≡ next_ledgers (ledger b) ms id)
      × (c.grid ≡ b.grid)
unfolding apply_all next_ledgers
apply_all-next_ledgers b [] v p = (b, refl, v, λ id. refl, refl)
apply_all-next_ledgers b (m ∷ ms) v p =
    let (c, run, valid, grid, led) = apply-next_ledger b m v p.0 in
    let (d, runs, last, leds, grids) = apply_all-next_ledgers c ms valid (rw grid (p.1)) in
    (
      d,
      rw run runs,
      last,
      λ id. leds id ∙ ap (λ l. next_ledgers l ms id) (fun_ext led),
      grids ∙ grid,
    )
