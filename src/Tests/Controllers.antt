-- ===== src/Tests/Controllers.antt =====
-- src/orderbook/orderbook_controller.cpp and src/main.cpp: one order, then a snapshot; the endpoints.
use order_book_server_cpp.Prelude.{
  ℕ, zero, suc, ◌≡◌, ◌≤◌, refl, none, some, ◌>>=◌, List, [], ◌∷◌, All, length, get_elem?, leb,
  le→leb, leb→le, if◌then◌else◌, arith, Bool-cases, inl, inr, codes,
}
use order_book_server_cpp.Book.{Book, MboMsg}
use order_book_server_cpp.Book.Invariant.{IsValid}
use order_book_server_cpp.Book.Ledger.{ledger}
use order_book_server_cpp.Book.Refinement.{next_ledgers}
use order_book_server_cpp.Json.{empty, has_field}
use order_book_server_cpp.Json.Conversions.{Doubles}
use order_book_server_cpp.LatencyTracker.{Measures}
use order_book_server_cpp.LatencyTracker.Percentiles.{AreMeasures}
use order_book_server_cpp.Streaming.Runs.{initialize-IsValid}
use order_book_server_cpp.OrderBookController.{
  OrderBookController, new_controller, initialize_controller, start_loop, on_mbo_msgs,
}
use order_book_server_cpp.OrderBookController.Snapshots.{
  Sends, get_orderbook_snapshot_async-on_mbo_msgs,
}
use order_book_server_cpp.HttpRequest.Lookups.{get}
use order_book_server_cpp.Routes.{handle_request_base_on_route}
use order_book_server_cpp.Routes.Dispatch.{dispatch}
use order_book_server_cpp.Endpoints.{Handlers, init_api_endpoints, speed_of}
use order_book_server_cpp.Endpoints.Table.{
  fresh_routes, handle_request_base_on_route-init_api_endpoints,
}
use order_book_server_cpp.Tests.Streams.{start, order, order-IsPriced}
use order_book_server_cpp.Tests.Sites.{no_doubles, site, say_hello, request}

-- Insertion sort, and the position of a percentage in whole numbers cut at the last sample.
insert : ℕ → List ℕ → List ℕ
insert x [] = x ∷ []
insert x (y ∷ ys) = let rest = insert x ys in if leb x y then x ∷ y ∷ ys else y ∷ rest

abbrev sorted : List ℕ → List ℕ
sorted [] = []
sorted (x ∷ xs) = insert x (sorted xs)

abbrev Ascending : List ℕ → Type 0
Ascending [] = Unit
Ascending (x ∷ xs) = All (λ y. x ≤ y) xs × Ascending xs

insert-All : (m x : ℕ) (xs : List ℕ) → m ≤ x → All (λ y. m ≤ y) xs → All (λ y. m ≤ y) (insert x xs)
unfolding insert
insert-All m x [] h a = (h, tt)
insert-All m x (y ∷ ys) h a = elim (Bool-cases (leb x y)) [
  | inl e ↦ rw e (h, a)
  | inr e ↦ rw e (a.0, insert-All m x ys h a.1)
]

All-le : (m n : ℕ) (xs : List ℕ) → m ≤ n → All (λ y. n ≤ y) xs → All (λ y. m ≤ y) xs
All-le m n [] h a = tt
All-le m n (x ∷ xs) h a = (omega (arith, a.0), All-le m n xs h a.1)

insert-Ascending : (x : ℕ) (xs : List ℕ) → Ascending xs → Ascending (insert x xs)
unfolding insert
insert-Ascending x [] a = (tt, tt)
insert-Ascending x (y ∷ ys) a = elim (Bool-cases (leb x y)) [
  | inl e ↦ let le = leb→le x y e in rw e ((le, All-le x y ys le a.0), a)
  | inr e ↦ rw e (insert-All y x ys (ground arith) a.0, insert-Ascending x ys a.1)
]

sorted-Ascending : (xs : List ℕ) → Ascending (sorted xs)
sorted-Ascending [] = tt
sorted-Ascending (x ∷ xs) = insert-Ascending x (sorted xs) (sorted-Ascending xs)

length-insert : (x : ℕ) (xs : List ℕ) → length (insert x xs) ≡ suc (length xs)
unfolding insert
length-insert x [] = refl
length-insert x (y ∷ ys) = ground (arith, length-insert x ys)

length-sorted : (xs : List ℕ) → length (sorted xs) ≡ length xs
length-sorted [] = refl
length-sorted (x ∷ xs) = omega (arith, length-insert x (sorted xs), length-sorted xs)

some-inj : (x y : ℕ) → some x ≡ some y → x ≡ y
some-inj x y e = cc e

All-get_elem? :
    (m : ℕ) (xs : List ℕ) (i b : ℕ) → All (λ y. m ≤ y) xs → get_elem? xs i ≡ some b → m ≤ b
All-get_elem? m [] i b a e = cc e
All-get_elem? m (x ∷ xs) zero b a e = omega (arith, a.0, some-inj x b e)
All-get_elem? m (x ∷ xs) (suc i) b a e = All-get_elem? m xs i b a.1 e

Ascending-get_elem? :
    (xs : List ℕ) (i j a b : ℕ)
    → Ascending xs
    → i ≤ j
    → get_elem? xs i ≡ some a
    → get_elem? xs j ≡ some b
    → a ≤ b
Ascending-get_elem? [] i j a b up h e f = cc e
Ascending-get_elem? (x ∷ xs) zero zero a b up h e f = omega (arith, some-inj x a e, some-inj x b f)
Ascending-get_elem? (x ∷ xs) zero (suc j) a b up h e f =
    omega (arith, some-inj x a e, All-get_elem? x xs j b up.0 f)
Ascending-get_elem? (x ∷ xs) (suc i) zero a b up h e f = absurd (omega arith)
Ascending-get_elem? (x ∷ xs) (suc i) (suc j) a b up h e f =
    Ascending-get_elem? xs i j a b up.1 (omega arith) e f

abbrev whole_measures : Measures ℕ
whole_measures = record {
  zero_sample = 0;
  sort = sorted;
  position = λ p last. if leb p 50 then 0 else last;
}

whole_measures-AreMeasures : AreMeasures whole_measures leb
whole_measures-AreMeasures = record {
  long = length-sorted;
  sorted = λ xs i j a b h e f.
      le→leb a b (Ascending-get_elem? (sorted xs) i j a b (sorted-Ascending xs) h e f);
  inside = λ p last h. ground arith;
  grows = λ p q last h. ground arith;
  zero_le = refl;
}

abbrev one_message : List (MboMsg × ℕ)
one_message = (order, 7) ∷ []

get_orderbook_snapshot_async-on_mbo_msgs_example :
    (e : OrderBookController) × (last : Book) × ((initialize_controller new_controller
        >>= start_loop
        >>= on_mbo_msgs one_message)
      ≡ some e)
    × (e.count_mbo_msgs ≡ 1)
    × IsValid last
    × ((id : ℕ) → ledger last id ≡ next_ledgers (λ j. none) (order ∷ []) id)
    × Sends whole_measures (λ us. us) e last 3 12000
get_orderbook_snapshot_async-on_mbo_msgs_example =
    get_orderbook_snapshot_async-on_mbo_msgs whole_measures leb whole_measures-AreMeasures
      (λ us. us) new_controller start one_message 3 12000 initialize-IsValid.1 (order-IsPriced, tt)
      (omega arith)

abbrev handlers : Handlers
handlers = record {
  on_index = say_hello;
  on_get_snapshot = say_hello;
  on_start_streaming = say_hello;
  on_stop_streaming = say_hello;
}

handle_request_base_on_route-init_api_endpoints_example :
    handle_request_base_on_route no_doubles site
      (init_api_endpoints handlers (fresh_routes []))
      get
      (record request { url = codes "/get_snapshot" })
    ≡ dispatch no_doubles site
        (some (some say_hello))
        (init_api_endpoints handlers (fresh_routes []))
        get
        (record request { url = codes "/get_snapshot" })
handle_request_base_on_route-init_api_endpoints_example =
    handle_request_base_on_route-init_api_endpoints no_doubles site handlers [] get
      (record request { url = codes "/get_snapshot" })

-- The body `{}` of Tests/Bodies: `has_field` goes through a null pointer.
no_body : (d : Doubles) (one : ℕ) → speed_of d one empty ≡ none
unfolding speed_of has_field
no_body d one = refl
