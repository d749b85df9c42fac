-- ===== src/Book/Queue/Laws.antt =====
-- Laws of the queue operations of src/orderbook/orderbook.h.
use order_book_server_cpp.Prelude.{
  ℕ, ◌+◌, ◌<◌, ◌≤◌, ◌≡◌, ◌≢◌, refl, none, some, List, [], ◌∷◌, ◌++◌, arith, ◌==◌, if◌then◌else◌,
  Bool-cases, inl, inr,
}
use order_book_server_cpp.Book.Queue.{
  Order, deref, erase, write_size, shares, without, Below, Distinct,
}

pub Below-mono : (n m : ℕ) (q : List Order) → n ≤ m → Below n q → Below m q
Below-mono n m [] h b = tt
Below-mono n m (o ∷ q) h b = (omega arith, Below-mono n m q h b.1)

pub deref-it : (it : ℕ) (q : List Order) (o : Order) → deref it q ≡ some o → o.it ≡ it
unfolding deref
deref-it it [] o h = ground arith
deref-it it (x ∷ q) o h = ground (arith, deref-it it q o)

pub deref-fresh : (n it : ℕ) (q : List Order) → Below n q → n ≤ it → deref it q ≡ none
unfolding deref
deref-fresh n it [] b h = refl
deref-fresh n it (x ∷ q) b h = ground (arith, deref-fresh n it q)

pub deref-append :
    (it : ℕ) (q : List Order) (o : Order)
    → deref it (q ++ o ∷ [])
      ≡ elim (deref it q) [ none ↦ if o.it == it then some o else none | some x ↦ some x ]
unfolding deref
deref-append it [] o = ground arith
deref-append it (x ∷ q) o = ground (arith, deref-append it q o)

pub deref-erase_ne : (i j : ℕ) (q : List Order) → i ≢ j → deref j (erase i q) ≡ deref j q
unfolding deref erase
deref-erase_ne i j [] h = refl
deref-erase_ne i j (x ∷ q) h = ground (arith, deref-erase_ne i j q)

pub deref-erase_self : (i : ℕ) (q : List Order) → Distinct q → deref i (erase i q) ≡ none
unfolding deref erase Distinct
deref-erase_self i [] d = refl
deref-erase_self i (x ∷ q) d = ground (arith, deref-erase_self i q)

pub deref-write_ne : (i j s : ℕ) (q : List Order) → i ≢ j → deref j (write_size i s q) ≡ deref j q
unfolding deref write_size
deref-write_ne i j s [] h = refl
deref-write_ne i j s (x ∷ q) h = ground (arith, deref-write_ne i j s q)

pub deref-write_self :
    (i s : ℕ) (q : List Order) (o : Order)
    → deref i q ≡ some o
    → deref i (write_size i s q) ≡ some (record o { size = s })
unfolding deref write_size
deref-write_self i s [] o h = ground arith
deref-write_self i s (x ∷ q) o h = ground (arith, deref-write_self i s q o)

pub shares-append : (q : List Order) (o : Order) → shares (q ++ o ∷ []) ≡ shares q + o.size
unfolding shares
shares-append [] o = omega arith
shares-append (x ∷ q) o = omega (arith, shares-append q o)

pub shares-erase :
    (i : ℕ) (q : List Order) (o : Order)
    → deref i q ≡ some o
    → shares (erase i q) + o.size ≡ shares q
unfolding deref erase shares
shares-erase i [] o h = ground arith
shares-erase i (x ∷ q) o h = ground (arith, shares-erase i q o)

pub shares-write :
    (i s : ℕ) (q : List Order) (o : Order)
    → deref i q ≡ some o
    → shares (write_size i s q) + o.size ≡ shares q + s
unfolding deref write_size shares
shares-write i s [] o h = ground arith
shares-write i s (x ∷ q) o h = ground (arith, shares-write i s q o)

pub Below-append :
    (n : ℕ) (q : List Order) (o : Order) → Below n q → o.it < n → Below n (q ++ o ∷ [])
Below-append n [] o b h = (h, tt)
Below-append n (x ∷ q) o b h = (b.0, Below-append n q o b.1 h)

pub Below-erase : (n i : ℕ) (q : List Order) → Below n q → Below n (erase i q)
unfolding erase
Below-erase n i [] b = tt
Below-erase n i (x ∷ q) b = elim (Bool-cases (x.it == i)) [
  | inl e ↦ rw e (b.1)
  | inr e ↦ rw e (b.0, Below-erase n i q b.1)
]

pub Below-write : (n i s : ℕ) (q : List Order) → Below n q → Below n (write_size i s q)
unfolding write_size
Below-write n i s [] b = tt
Below-write n i s (x ∷ q) b = elim (Bool-cases (x.it == i)) [
  | inl e ↦ rw e b
  | inr e ↦ rw e (b.0, Below-write n i s q b.1)
]

pub Distinct-append :
    (q : List Order) (o : Order) → Distinct q → deref o.it q ≡ none → Distinct (q ++ o ∷ [])
unfolding Distinct deref
Distinct-append [] o d h = (refl, tt)
Distinct-append (x ∷ q) o d h =
    (rw deref-append (ground arith), Distinct-append q o d.1 (ground arith))

pub Distinct-erase : (i : ℕ) (q : List Order) → Distinct q → Distinct (erase i q)
unfolding Distinct erase
Distinct-erase i [] d = tt
Distinct-erase i (x ∷ q) d = elim (Bool-cases (x.it == i)) [
  | inl e ↦ rw e (d.1)
  | inr e ↦ rw e (rw (deref-erase_ne i x.it q (ground arith)) (d.0), Distinct-erase i q d.1)
]

deref-write_none :
    (i j s : ℕ) (q : List Order) → deref j q ≡ none → deref j (write_size i s q) ≡ none
unfolding deref write_size
deref-write_none i j s [] h = refl
deref-write_none i j s (x ∷ q) h = ground (arith, deref-write_none i j s q)

pub Distinct-write : (i s : ℕ) (q : List Order) → Distinct q → Distinct (write_size i s q)
unfolding Distinct write_size
Distinct-write i s [] d = tt
Distinct-write i s (x ∷ q) d = elim (Bool-cases (x.it == i)) [
  | inl e ↦ rw e d
  | inr e ↦ rw e (deref-write_none i x.it s q d.0, Distinct-write i s q d.1)
]

pub deref-Below : (n i : ℕ) (q : List Order) (o : Order) → Below n q → deref i q ≡ some o → o.it < n
unfolding deref
deref-Below n i [] o b h = ground arith
deref-Below n i (x ∷ q) o b h = ground (arith, deref-Below n i q o)

pub without-append :
    (id : ℕ) (q : List Order) (o : Order)
    → o.order_id ≡ id
    → without id (q ++ o ∷ []) ≡ without id q
unfolding without
without-append id [] o h = ground arith
without-append id (x ∷ q) o h = ground (arith, without-append id q o)

pub without-erase :
    (id i : ℕ) (q : List Order) (o : Order)
    → deref i q ≡ some o
    → o.order_id ≡ id
    → without id (erase i q) ≡ without id q
unfolding without erase deref
without-erase id i [] o e h = refl
without-erase id i (x ∷ q) o e h = ground (arith, without-erase id i q o)

pub without-write :
    (id i s : ℕ) (q : List Order) (o : Order)
    → deref i q ≡ some o
    → o.order_id ≡ id
    → without id (write_size i s q) ≡ without id q
unfolding without write_size deref
without-write id i s [] o e h = refl
without-write id i s (x ∷ q) o e h = ground (arith, without-write id i s q o)
