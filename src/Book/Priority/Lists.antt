-- ===== src/Book/Priority/Lists.antt =====
-- src/orderbook/orderbook.h: the queue operations, seen from the ids that wait.
use order_book_server_cpp.Prelude.{
  ℕ, ◌≡◌, refl, sym, ==_iff, ◌∙◌, ap, none, some, List, [], ◌∷◌, ◌++◌, ◌==◌, Bool-cases, inl, inr,
}
use mathlib.Core.Path.{subst}
use order_book_server_cpp.Book.Queue.{
  Order, deref, erase, write_size, move_to_back, Below, Distinct,
}
use order_book_server_cpp.Book.Queue.Laws.{Below-write, Distinct-write, deref-write_self}
use order_book_server_cpp.Book.Queue.Effects.{move_to_back_lem}
use order_book_server_cpp.Book.Priority.{waiting, leave}

leave-none : (it : ℕ) (q : List Order) → deref it q ≡ none → leave it q ≡ waiting q
unfolding deref
leave-none it [] h = refl
leave-none it (o ∷ q) h = elim (Bool-cases (o.it == it)) [
  | inl e ↦ cc (rw e at h)
  | inr e ↦ rw e (ap (λ w. o.order_id ∷ w) (leave-none it q (rw e at h)))
]

pub waiting-erase : (it : ℕ) (q : List Order) → Distinct q → waiting (erase it q) ≡ leave it q
unfolding erase Distinct
waiting-erase it [] d = refl
waiting-erase it (o ∷ q) d = elim (Bool-cases (o.it == it)) [
  | inl e ↦ rw e (sym (leave-none it q (subst (λ k. deref k q ≡ none) ((==_iff _ _).0 e) d.0)))
  | inr e ↦ rw e (ap (λ w. o.order_id ∷ w) (waiting-erase it q d.1))
]

pub waiting-write : (it s : ℕ) (q : List Order) → waiting (write_size it s q) ≡ waiting q
unfolding write_size
waiting-write it s [] = refl
waiting-write it s (o ∷ q) = elim (Bool-cases (o.it == it)) [
  | inl e ↦ rw e refl
  | inr e ↦ rw e (ap (λ w. o.order_id ∷ w) (waiting-write it s q))
]

leave-write : (it s : ℕ) (q : List Order) → leave it (write_size it s q) ≡ leave it q
unfolding write_size
leave-write it s [] = refl
leave-write it s (o ∷ q) = elim (Bool-cases (o.it == it)) [
  | inl e ↦ rw e (rw e refl)
  | inr e ↦ rw e (rw e (ap (λ w. o.order_id ∷ w) (leave-write it s q)))
]

pub waiting-append :
    (q : List Order) (o : Order) → waiting (q ++ o ∷ []) ≡ waiting q ++ o.order_id ∷ []
waiting-append [] o = refl
waiting-append (x ∷ q) o = ap (λ w. x.order_id ∷ w) (waiting-append q o)

-- More shares: the order goes to the back.
pub waiting-enlarge :
    (n it s : ℕ) (q : List Order) (o : Order)
    → Below n q
    → Distinct q
    → deref it q ≡ some o
    → waiting (move_to_back it (write_size it s q)) ≡ leave it q ++ o.order_id ∷ []
waiting-enlarge n it s q o b d at =
    let q' = write_size it s q in
    let moved =
      move_to_back_lem n it q' (record o { size = s }) (Below-write n it s q b)
        (Distinct-write it s q d) (deref-write_self it s q o at) in
    ap waiting moved
    ∙ waiting-append (erase it q') (record o { size = s })
    ∙ ap (λ w. w ++ o.order_id ∷ [])
        (waiting-erase it q' (Distinct-write it s q d) ∙ leave-write it s q)
