-- ===== src/Book/Queue.antt =====
-- src/orderbook/orderbook.h: `struct Order` and the `std::list<Order>` of a level. A list node has
-- an address, `it`, which is what an iterator holds: it stays good while the node is in the list.
pub mod Laws
pub mod Effects
use order_book_server_cpp.Prelude.{
  ℕ, ◌+◌, ◌<◌, ◌≤◌, ◌≡◌, ◌≢◌, refl, Option, none, some, List, [], ◌∷◌, ◌++◌, arith, ◌==◌,
  if◌then◌else◌, All,
}

pub record Order : Type 0 where
  pub it : ℕ
  pub order_id : ℕ
  pub size : ℕ

-- `*it`; `none` is an iterator to no node of the list.
unfoldable pub deref : ℕ → List Order → Option Order
deref it [] = none
deref it (o ∷ q) = if o.it == it then some o else deref it q

-- `queue.erase(it)`
unfoldable pub erase : ℕ → List Order → List Order
erase it [] = []
erase it (o ∷ q) = if o.it == it then q else o ∷ erase it q

-- `it->size = size`
unfoldable pub write_size : ℕ → ℕ → List Order → List Order
write_size it size [] = []
write_size it size (o ∷ q) =
    if o.it == it then record o { size = size } ∷ q else o ∷ write_size it size q

-- `queue.splice(queue.end(), queue, it)`
unfoldable pub move_to_back : ℕ → List Order → List Order
unfolding deref erase
move_to_back it q = elim (deref it q) [ none ↦ q | some o ↦ erase it q ++ o ∷ [] ]

-- The shares that rest in a queue.
unfoldable pub shares : List Order → ℕ
shares [] = 0
shares (o ∷ q) = o.size + shares q

abbrev pub Below : ℕ → List Order → Type 0
Below n = All (λ o. o.it < n)

-- The nodes of a list have addresses of their own.
unfoldable pub Distinct : List Order → Type 0
Distinct [] = Unit
Distinct (o ∷ q) = (deref o.it q ≡ none) × Distinct q

-- The queue with the orders of one id left out.
unfoldable pub without : ℕ → List Order → List Order
without id [] = []
without id (o ∷ q) = let rest = without id q in if o.order_id == id then rest else o ∷ rest

-- What one operation on the order `id` does to a queue: nodes stay apart and below `n`, and every
-- other order stays as it was, in the same sequence.
pub record Changes (id n : ℕ) (old new : List Order) : Type 0 where
  pub below : Below n new
  pub distinct : Distinct new
  pub keeps : (it : ℕ) (o : Order) → deref it old ≡ some o → o.order_id ≢ id → deref it new ≡ some o
  pub fifo : without id new ≡ without id old
