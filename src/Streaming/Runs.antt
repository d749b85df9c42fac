-- ===== src/Streaming/Runs.antt =====
-- src/dbn_wrapper/dbn_wrapper.h and src/orderbook/orderbook_controller.cpp: what a run applies.
use mathlib.Core.List.{append_assoc}
use order_book_server_cpp.Prelude.{
  ℕ, ◌+◌, ◌≡◌, ◌∙◌, refl, sym, ap, Option, none, some, ◌>>=◌, true, Bool-cases, inl, inr, List, [],
  ◌∷◌, ◌++◌, length, length-append, All, arith,
}
use mathlib.Core.Path.{subst, fun_ext}
use order_book_server_cpp.Prelude.Int.{ℤ, pos, ◌+ℤ◌}
use order_book_server_cpp.Book.{Book, MboMsg, apply, apply_all}
use order_book_server_cpp.Book.Invariant.{IsValid}
use order_book_server_cpp.Book.Ledger.{ledger}
use order_book_server_cpp.Book.Construction.{new_book-IsValid, new_book-bounds}
use order_book_server_cpp.Book.Refinement.{IsPriced, next_ledgers, apply_all-next_ledgers}
use order_book_server_cpp.Streaming.{
  Record, mbo, other, Speed, Stream, at_head, sleeping, finished, waits, Step, skip, sleep, call,
  wake, stop_at_head, stop_asleep, end_of_file, stopped, Steps, done, more, initialize,
  start_streaming,
}

-- The order messages among the records.
unfoldable pub messages : List Record → List MboMsg
messages [] = []
messages (mbo m delta ∷ rs) = m ∷ messages rs
messages (other ∷ rs) = messages rs

-- What a state has of its book, its count, and the messages that it has not applied.
abbrev pub book_of : Stream → Book
book_of (at_head b n rs on) = b
book_of (sleeping m b n rs on) = b
book_of (finished b n rs) = b

abbrev pub count_of : Stream → ℕ
count_of (at_head b n rs on) = n
count_of (sleeping m b n rs on) = n
count_of (finished b n rs) = n

unfoldable pub left_of : Stream → List MboMsg
left_of (at_head b n rs on) = messages rs
left_of (sleeping m b n rs on) = m ∷ messages rs
left_of (finished b n rs) = messages rs

-- From `s` to `t` the messages `ms` are applied, in the order of the file, and counted.
pub record Applied (ms : List MboMsg) (s t : Stream) : Type 0 where
  pub taken : left_of s ≡ ms ++ left_of t
  pub result : apply_all (book_of s) ms ≡ some (book_of t)
  pub counted : count_of t ≡ count_of s + length ms

Applied-none :
    (s t : Stream)
    → left_of s ≡ left_of t
    → book_of s ≡ book_of t
    → count_of s ≡ count_of t
    → Applied [] s t
unfolding apply_all
Applied-none s t l b n = record { taken = l; result = ap some b; counted = omega (arith, n) }

apply_all_one : (b c : Book) (m : MboMsg) → apply b m ≡ some c → apply_all b (m ∷ []) ≡ some c
unfolding apply_all
apply_all_one b c m e = rw e refl

Step-Applied : (speed : Speed) (s t : Stream) → Step speed s t → (ms : List MboMsg) × Applied ms s t
unfolding left_of messages
Step-Applied speed _ _ (skip b n rs) = ([], Applied-none _ _ refl refl refl)
Step-Applied speed _ _ (sleep b n rs m delta w) = ([], Applied-none _ _ refl refl refl)
Step-Applied speed _ _ (call b c n rs m delta w e) =
    (m ∷ [], record { taken = refl; result = apply_all_one b c m e; counted = refl })
Step-Applied speed _ _ (wake b c n rs m on e) =
    (m ∷ [], record { taken = refl; result = apply_all_one b c m e; counted = refl })
Step-Applied speed _ _ (stop_at_head b n rs on) = ([], Applied-none _ _ refl refl refl)
Step-Applied speed _ _ (stop_asleep b n rs m on) = ([], Applied-none _ _ refl refl refl)
Step-Applied speed _ _ (end_of_file b n) = ([], Applied-none _ _ refl refl refl)
Step-Applied speed _ _ (stopped b n rs) = ([], Applied-none _ _ refl refl refl)

apply_all-append :
    (b : Book) (ms ns : List MboMsg)
    → apply_all b (ms ++ ns) ≡ (apply_all b ms >>= λ c. apply_all c ns)
unfolding apply_all
apply_all-append b [] ns = refl
apply_all-append b (m ∷ ms) ns =
    elim (apply b m)
      as (λ r.
        (r >>= λ c. apply_all c (ms ++ ns))
        ≡ ((r >>= λ c. apply_all c ms) >>= λ c. apply_all c ns)) [
          | none ↦ refl
          | some c ↦ apply_all-append c ms ns
        ]

Applied-trans :
    (s t u : Stream) (ms ns : List MboMsg)
    → Applied ms s t
    → Applied ns t u
    → Applied (ms ++ ns) s u
Applied-trans s t u ms ns a b = record {
  taken = a.taken ∙ ap (λ l. ms ++ l) b.taken ∙ sym (append_assoc ms ns (left_of u));
  result =
      apply_all-append (book_of s) ms ns ∙ ap (λ r. r >>= λ c. apply_all c ns) a.result ∙ b.result;
  counted = omega (arith, a.counted, b.counted, length-append ms ns);
}

-- Whatever the speed and whenever it is stopped, a run applies to the book exactly the messages of
-- a first part of the file, in their order, none twice and none left out, and counts them; the
-- messages not yet applied are the rest.
pub Steps-Applied :
    (speed : Speed) (s t : Stream) → Steps speed s t → (ms : List MboMsg) × Applied ms s t
Steps-Applied speed _ _ (done s) = ([], Applied-none s s refl refl refl)
Steps-Applied speed _ _ (more s t u step rest) =
    let (ms, a) = Step-Applied speed s t step in
    let (ns, b) = Steps-Applied speed t u rest in (ms ++ ns, Applied-trans s t u ms ns a b)

bind-some :
    (r : Option Book) (f : Book → Option Book) (c : Book)
    → (r >>= f) ≡ some c
    → (d : Book) × (r ≡ some d) × (f d ≡ some c)
bind-some none f c h = cc
bind-some (some d) f c h = (d, refl, h)

some-inj : (b c : Book) → some b ≡ some c → b ≡ c
some-inj b c h = cc

-- The loop over records that `apply` takes, when nothing stops it.
module _ (speed : Speed) where
  -- One message, with its sleep if it has one.
  step_message :
      (b d : Book) (n : ℕ) (rs : List Record) (m : MboMsg) (delta : ℤ) (t : Stream)
      → apply b m ≡ some d
      → Steps speed (at_head d (n + 1) rs true) t
      → Steps speed (at_head b n (mbo m delta ∷ rs) true) t
  step_message b d n rs m delta t e rest = elim (Bool-cases (waits speed delta)) [
    | inl w ↦ more _ _ _ (sleep b n rs m delta w) (more _ _ _ (wake b d n rs m true e) rest)
    | inr w ↦ more _ _ _ (call b d n rs m delta w e) rest
  ]

  run_to_end :
      (b c : Book) (n : ℕ) (rs : List Record)
      → apply_all b (messages rs) ≡ some c
      → (k : ℕ) × (k ≡ n + length (messages rs))
        × Steps speed (at_head b n rs true) (finished c k [])
  unfolding apply_all messages
  run_to_end b c n [] e = (
    n,
    omega arith,
    subst (λ x. Steps speed (at_head b n [] true) (finished x n [])) (some-inj b c e)
        (more _ _ _ (end_of_file b n) (done _)),
  )
  run_to_end b c n (other ∷ rs) e =
      let (k, count, rest) = run_to_end b c n rs e in (k, count, more _ _ _ (skip b n rs) rest)
  run_to_end b c n (mbo m delta ∷ rs) e =
      let (d, one, others) = bind-some (apply b m) (λ x. apply_all x (messages rs)) c e in
      let (k, count, rest) = run_to_end d c (n + 1) rs others in
      (k, omega (arith, count), step_message b d n rs m delta (finished c k []) one rest)

pub initialize-IsValid :
    (b : Book) × (initialize ≡ some b) × IsValid b × ((id : ℕ) → ledger b id ≡ none)
unfolding initialize ◌+ℤ◌
initialize-IsValid =
    let (b, made, valid, same_grid, blank, no_order) =
      new_book-IsValid (pos 20000000) 119980000000 9999999 (omega arith) in
    (b, made, valid, no_order)

pub initialize-bounds :
    (b : Book)
    → initialize ≡ some b
    → (b.price_min ≡ pos 20000000) × (b.price_max ≡ pos 120000000000)
unfolding initialize
initialize-bounds b made = new_book-bounds _ _ _ b made

-- Messages applied to the book of `initialize`.
pub initialize-next_ledgers :
    (b : Book) (ms : List MboMsg)
    → initialize ≡ some b
    → All (IsPriced b.grid) ms
    → (c : Book) × (apply_all b ms ≡ some c)
      × IsValid c
      × ((id : ℕ) → ledger c id ≡ next_ledgers (λ j. none) ms id)
      × (c.grid ≡ b.grid)
initialize-next_ledgers b ms made priced =
    let (d, made', valid, blank) = initialize-IsValid in
    let same : d ≡ b = some-inj d b (sym made' ∙ made) in
    let (c, run, last, led, grid) = apply_all-next_ledgers b ms (subst IsValid same valid) priced in
    let blank' : ledger b ≡ (λ j. none) =
      fun_ext (subst (λ x. (j : ℕ) → ledger x j ≡ none) same blank) in
    (c, run, last, λ id. led id ∙ ap (λ l. next_ledgers l ms id) blank', grid)

-- From the controller's book a file whose messages have prices between its bounds is streamed to
-- its end when nothing stops it, at every speed: the last book is valid and has the grid of the
-- first, its ledger is that of the messages of the file alone, and the count is their number.
pub start_streaming-next_ledgers :
    (b : Book) (speed : Speed) (rs : List Record)
    → initialize ≡ some b
    → All (IsPriced b.grid) (messages rs)
    → (c : Book) × (k : ℕ) × Steps speed (start_streaming b rs) (finished c k [])
      × (k ≡ length (messages rs))
      × IsValid c
      × ((id : ℕ) → ledger c id ≡ next_ledgers (λ j. none) (messages rs) id)
      × (c.grid ≡ b.grid)
unfolding start_streaming
start_streaming-next_ledgers b speed rs made priced =
    let (c, run, last, led, grid) = initialize-next_ledgers b (messages rs) made priced in
    let (k, count, steps) = run_to_end speed b c 0 rs run in
    (c, k, steps, omega (arith, count), last, led, grid)
