-- ===== src/Book/Queue/Effects.antt =====
-- What each queue operation of src/orderbook/orderbook.h does to the orders of a queue.
use order_book_server_cpp.Prelude.{ℕ, suc, ◌≡◌, ◌≢◌, refl, ◌∙◌, some, List, [], ◌∷◌, ◌++◌, arith}
use order_book_server_cpp.Book.Queue.{
  Order, deref, erase, write_size, move_to_back, shares, Below, Distinct, Changes,
}
use order_book_server_cpp.Book.Queue.Laws.{
  Below-mono, Below-append, Below-erase, Below-write, Distinct-append, Distinct-erase,
  Distinct-write, deref-it, deref-fresh, deref-Below, deref-append, deref-erase_ne,
  deref-erase_self, deref-write_ne, shares-append, shares-erase, without-append, without-erase,
  without-write,
}

-- A new node at the back, with the next free address.
module _ (q : List Order) (o : Order) (b : Below o.it q) where
  pub append-Changes : Distinct q → Changes o.order_id (suc o.it) q (q ++ o ∷ [])
  append-Changes d = record {
    below =
        Below-append (suc o.it) q o (Below-mono o.it (suc o.it) q (omega arith) b) (omega arith);
    distinct = Distinct-append q o d (deref-fresh o.it o.it q b (omega arith));
    keeps = λ it x e _. rw (deref-append, e);
    fifo = without-append o.order_id q o refl;
  }

  pub deref-append_new : deref o.it (q ++ o ∷ []) ≡ some o
  deref-append_new = rw (deref-append, deref-fresh o.it o.it q b (omega arith)) (ground arith)

module _ (n it : ℕ) (q : List Order) (o : Order) (b : Below n q) (d : Distinct q)
    (at : deref it q ≡ some o) where
  -- Another order stands in another node.
  other_node : (j : ℕ) (x : Order) → deref j q ≡ some x → x.order_id ≢ o.order_id → it ≢ j
  other_node j x e ne same = ne (cc)

  pub erase-Changes : Changes o.order_id n q (erase it q)
  erase-Changes = record {
    below = Below-erase n it q b;
    distinct = Distinct-erase it q d;
    keeps = λ j x e ne. rw (deref-erase_ne it j q (other_node j x e ne)) e;
    fifo = without-erase o.order_id it q o at refl;
  }

  pub write-Changes : (s : ℕ) → Changes o.order_id n q (write_size it s q)
  write-Changes s = record {
    below = Below-write n it s q b;
    distinct = Distinct-write it s q d;
    keeps = λ j x e ne. rw (deref-write_ne it j s q (other_node j x e ne)) e;
    fifo = without-write o.order_id it s q o at refl;
  }

  pub move_to_back_lem : move_to_back it q ≡ erase it q ++ o ∷ []
  unfolding move_to_back
  move_to_back_lem = rw (at, move_to_back)

  pub shares-move : shares (move_to_back it q) ≡ shares q
  shares-move =
      rw move_to_back_lem (omega (arith, shares-append (erase it q) o, shares-erase it q o at))

  pub deref-move : deref it (move_to_back it q) ≡ some o
  deref-move =
      rw (move_to_back_lem, deref-append, deref-erase_self it q d) (ground (arith, deref-it it q o))

  pub move-Changes : Changes o.order_id n q (move_to_back it q)
  move-Changes = rw move_to_back_lem (record {
    below = Below-append n (erase it q) o (Below-erase n it q b) (deref-Below n it q o b at);
    distinct =
        Distinct-append (erase it q) o (Distinct-erase it q d)
          (rw (deref-it it q o at) (deref-erase_self it q d));
    keeps = λ j x e ne. rw (deref-append, deref-erase_ne it j q (other_node j x e ne), e);
    fifo = without-append o.order_id (erase it q) o refl ∙ without-erase o.order_id it q o at refl;
  })
