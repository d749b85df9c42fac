-- ===== src/Book/Levels.antt =====
-- src/orderbook/orderbook.h: the level that an index names, and what a write to one level does.
use order_book_server_cpp.Prelude.{
  ℕ, zero, suc, ◌∙◌, ◌<◌, ◌≤◌, none, get_elem?-eq-none, ◌≡◌, ◌&&◌, refl, some, Bool, true, false,
  List, arith, length, length-set, get_or, get_or-set, get_elem?-get_or, ◌==◌, if◌then◌else◌, map,
  [], ◌∷◌, ap,
}
use order_book_server_cpp.Book.{
  Book, Level, Ref, empty_level, side_of, get_side, set_side, locate, clear,
}
use order_book_server_cpp.Book.Queue.{Order, deref}

abbrev pub same_side : Bool → Bool → Bool
same_side true s = s
same_side false true = false
same_side false false = true

unfoldable pub level_at : Book → Bool → ℕ → Level
level_at b s i = get_or (side_of b s) i empty_level

pub record IsWide (b : Book) : Type 0 where
  pub bids_wide : length b.bids ≡ b.num_levels
  pub asks_wide : length b.asks ≡ b.num_levels

side_wide : (b : Book) → IsWide b → (s : Bool) → length (side_of b s) ≡ b.num_levels
side_wide b w true = w.bids_wide
side_wide b w false = w.asks_wide

pub get_side-level_at :
    (b : Book) (s : Bool) (i : ℕ)
    → IsWide b
    → i < b.num_levels
    → get_side b s i ≡ some (level_at b s i)
unfolding get_side level_at
get_side-level_at b s i w h =
    get_elem?-get_or (side_of b s) i empty_level (omega (arith, side_wide b w s))

pub get_side_outside :
    (b : Book) (s : Bool) (i : ℕ) → IsWide b → b.num_levels ≤ i → get_side b s i ≡ none
unfolding get_side
get_side_outside b s i w h = get_elem?-eq-none (side_of b s) i (omega (arith, side_wide b w s))

pub set_side-IsWide :
    (b : Book) (s : Bool) (i : ℕ) (l : Level) → IsWide b → IsWide (set_side b s i l)
unfolding set_side
set_side-IsWide b true i l w = record {
  bids_wide = rw length-set (w.bids_wide);
  asks_wide = w.asks_wide;
}
set_side-IsWide b false i l w = record {
  bids_wide = w.bids_wide;
  asks_wide = rw length-set (w.asks_wide);
}

pub level_at-set_side :
    (b : Book) (s t : Bool) (i j : ℕ) (l : Level)
    → IsWide b
    → i < b.num_levels
    → level_at (set_side b s i l) t j ≡ (if same_side s t && (i == j) then l else level_at b t j)
unfolding level_at set_side
level_at-set_side b true true i j l w h =
    get_or-set b.bids i j l empty_level (omega (arith, w.bids_wide))
level_at-set_side b false false i j l w h =
    get_or-set b.asks i j l empty_level (omega (arith, w.asks_wide))
level_at-set_side b true false i j l w h = refl
level_at-set_side b false true i j l w h = refl

get_or-cleared :
    (ls : List Level) (j : ℕ) → get_or (map (λ _. empty_level) ls) j empty_level ≡ empty_level
get_or-cleared [] j = refl
get_or-cleared (l ∷ ls) zero = refl
get_or-cleared (l ∷ ls) (suc j) = get_or-cleared ls j

length-cleared : (ls : List Level) → length (map (λ _. empty_level) ls) ≡ length ls
length-cleared [] = refl
length-cleared (l ∷ ls) = ap suc (length-cleared ls)

pub level_at-clear : (b : Book) (s : Bool) (i : ℕ) → level_at (clear b) s i ≡ empty_level
unfolding level_at clear
level_at-clear b true i = get_or-cleared b.bids i
level_at-clear b false i = get_or-cleared b.asks i

pub clear-IsWide : (b : Book) → IsWide b → IsWide (clear b)
unfolding clear
clear-IsWide b w = record {
  bids_wide = length-cleared b.bids ∙ w.bids_wide;
  asks_wide = length-cleared b.asks ∙ w.asks_wide;
}

pub locate-level_at :
    (b : Book) (r : Ref) (o : Order)
    → IsWide b
    → r.index < b.num_levels
    → deref r.it (level_at b r.is_bid r.index).queue ≡ some o
    → locate b r ≡ some (level_at b r.is_bid r.index, o)
unfolding locate
locate-level_at b r o w h e = rw (get_side-level_at b r.is_bid r.index w h, e)
