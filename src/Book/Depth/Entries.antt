-- ===== src/Book/Depth/Entries.antt =====
-- src/orderbook/orderbook.h: `get_depth` as the first entries of the whole side.
use order_book_server_cpp.Prelude.{
  ℕ, zero, suc, ◌+◌, ◌*◌, ◌<◌, ◌≤◌, ◌≡◌, ◌^◌, refl, some, Bool, true, false, arith, Bool-cases,
  List, [], ◌∷◌, take, length, length-take_le, All, if◌then◌else◌, inl, inr,
}
use order_book_server_cpp.Prelude.Int.{pos, ◌+ℤ◌, ◌≤ℤ◌, int_rounds_small, int_laws}
use order_book_server_cpp.Book.{Book}
use order_book_server_cpp.Book.Levels.{level_at}
use order_book_server_cpp.Book.Prices.{index_to_price}
use order_book_server_cpp.Book.Prices.Laws.{IsGrid, price_of_index}
use order_book_server_cpp.Book.Depth.{
  is_empty, DepthEntry, DepthSnapshot, entry_at, depth_bids, depth_asks, get_depth,
}

-- The indices below `n`, from the highest one down.
unfoldable pub downto : ℕ → List ℕ
downto zero = []
downto (suc i) = i ∷ downto i

-- `n` indices from `i` up.
unfoldable pub upfrom : ℕ → ℕ → List ℕ
upfrom i zero = []
upfrom i (suc n) = i ∷ upfrom (suc i) n

-- The entries of those levels of a list that hold an order.
unfoldable pub quotes : Book → Bool → List ℕ → List DepthEntry
quotes b s [] = []
quotes b s (i ∷ is) =
    let rest = quotes b s is in if is_empty (level_at b s i) then rest else entry_at b s i ∷ rest

depth_bids-take :
    (b : Book) (n left : ℕ) → depth_bids b n left ≡ take left (quotes b true (downto n))
unfolding depth_bids quotes downto
depth_bids-take b zero zero = refl
depth_bids-take b zero (suc left) = refl
depth_bids-take b (suc i) zero = refl
depth_bids-take b (suc i) (suc left) =
    ground (arith, depth_bids-take b i (suc left), depth_bids-take b i left)

depth_asks-take :
    (b : Book) (n i left : ℕ) → depth_asks b n i left ≡ take left (quotes b false (upfrom i n))
unfolding depth_asks quotes upfrom
depth_asks-take b zero i zero = refl
depth_asks-take b zero i (suc left) = refl
depth_asks-take b (suc n) i zero = refl
depth_asks-take b (suc n) i (suc left) =
    ground (arith, depth_asks-take b n (suc i) (suc left), depth_asks-take b n (suc i) left)

-- `get_depth` returns the first entries of each side, best first: bids from the highest level down,
-- asks from the lowest level up, empty levels left out.
pub get_depth-take :
    (b : Book) (n : ℕ)
    → b.num_levels < 2 ^ 31
    → get_depth b (pos n)
      ≡ some (record {
        bids = take n (quotes b true (downto b.num_levels));
        asks = take n (quotes b false (upfrom 0 b.num_levels));
      })
unfolding get_depth
get_depth-take b n h = rw (int_rounds_small b.num_levels h, depth_bids-take, depth_asks-take)

-- Each price lies below, or above, the ones in front of it.
abbrev pub IsDescending : List DepthEntry → Type 0
IsDescending [] = Unit
IsDescending (e ∷ es) = All (λ x. x.price +ℤ pos 1 ≤ℤ e.price) es × IsDescending es

abbrev pub IsAscending : List DepthEntry → Type 0
IsAscending [] = Unit
IsAscending (e ∷ es) = All (λ x. e.price +ℤ pos 1 ≤ℤ x.price) es × IsAscending es

module _ (b : Book) (v : IsGrid b.grid) where
  -- Prices grow with the index.
  price_mono : (i j : ℕ) → i < j → index_to_price b.grid i +ℤ pos 1 ≤ℤ index_to_price b.grid j
  price_mono i j h =
      let k : i * suc v.tick + 1 ≤ j * suc v.tick = grind arith in
      rw (price_of_index b.grid v i, price_of_index b.grid v j) (omega int_laws)

  below-All :
      (i n : ℕ)
      → n ≤ i
      → All (λ x. x.price +ℤ pos 1 ≤ℤ index_to_price b.grid i) (quotes b true (downto n))
  unfolding quotes downto
  below-All i zero h = tt
  below-All i (suc n) h = elim (Bool-cases (is_empty (level_at b true n))) [
    | inl e ↦ rw e (below-All i n (omega arith))
    | inr e ↦ rw e (price_mono n i h, below-All i n (omega arith))
  ]

  above-All :
      (i k n : ℕ)
      → i < k
      → All (λ x. index_to_price b.grid i +ℤ pos 1 ≤ℤ x.price) (quotes b false (upfrom k n))
  unfolding quotes upfrom
  above-All i k zero h = tt
  above-All i k (suc n) h = elim (Bool-cases (is_empty (level_at b false k))) [
    | inl e ↦ rw e (above-All i (suc k) n (omega arith))
    | inr e ↦ rw e (price_mono i k h, above-All i (suc k) n (omega arith))
  ]

  quotes-IsDescending : (n : ℕ) → IsDescending (quotes b true (downto n))
  unfolding quotes downto
  quotes-IsDescending zero = tt
  quotes-IsDescending (suc n) = elim (Bool-cases (is_empty (level_at b true n))) [
    | inl e ↦ rw e (quotes-IsDescending n)
    | inr e ↦ rw e (below-All n n (omega arith), quotes-IsDescending n)
  ]

  quotes-IsAscending : (i n : ℕ) → IsAscending (quotes b false (upfrom i n))
  unfolding quotes upfrom
  quotes-IsAscending i zero = tt
  quotes-IsAscending i (suc n) = elim (Bool-cases (is_empty (level_at b false i))) [
    | inl e ↦ rw e (quotes-IsAscending (suc i) n)
    | inr e ↦ rw e (above-All i (suc i) n (omega arith), quotes-IsAscending (suc i) n)
  ]

All-take {ℓ} : {A : Type ℓ} (P : A → Type 0) (n : ℕ) (xs : List A) → All P xs → All P (take n xs)
All-take P zero xs h = tt
All-take P (suc n) [] h = tt
All-take P (suc n) (x ∷ xs) h = (h.0, All-take P n xs h.1)

take-IsDescending : (n : ℕ) (xs : List DepthEntry) → IsDescending xs → IsDescending (take n xs)
take-IsDescending zero xs h = tt
take-IsDescending (suc n) [] h = tt
take-IsDescending (suc n) (x ∷ xs) h = (All-take _ n xs h.0, take-IsDescending n xs h.1)

take-IsAscending : (n : ℕ) (xs : List DepthEntry) → IsAscending xs → IsAscending (take n xs)
take-IsAscending zero xs h = tt
take-IsAscending (suc n) [] h = tt
take-IsAscending (suc n) (x ∷ xs) h = (All-take _ n xs h.0, take-IsAscending n xs h.1)

-- On a grid of fewer than 2 ^ 31 levels `get_depth` returns at most the asked number of entries on
-- each side, bids at falling and asks at rising prices.
pub get_depth_sorted :
    (b : Book) (n : ℕ)
    → IsGrid b.grid
    → b.num_levels < 2 ^ 31
    → (d : DepthSnapshot) × (get_depth b (pos n) ≡ some d)
      × (length d.bids ≤ n)
      × (length d.asks ≤ n)
      × IsDescending d.bids
      × IsAscending d.asks
get_depth_sorted b n v h = (
  _,
  get_depth-take b n h,
  length-take_le n _,
  length-take_le n _,
  take-IsDescending n _ (quotes-IsDescending b v b.num_levels),
  take-IsAscending n _ (quotes-IsAscending b v 0 b.num_levels),
)
