-- ===== src/Book/Priority/Places.antt =====
-- src/orderbook/orderbook.h: the ids that wait after a change of one level.
use mathlib.Core.Path.{subst₂}
use order_book_server_cpp.Prelude.{
  ℕ, ◌<◌, ◌≡◌, refl, ◌∙◌, ap, some, Option, Bool, true, false, List, [], ◌∷◌, ◌++◌, if◌then◌else◌,
  Bool-cases, inl, inr,
}
use order_book_server_cpp.Book.{Book, MboMsg, Level, Ref, set_side, remove, shrink, enlarge, reduce}
use order_book_server_cpp.Book.Levels.{level_at, level_at-set_side, IsWide}
use order_book_server_cpp.Book.Queue.{Order}
use order_book_server_cpp.Book.Invariant.{IsValid, rewritten, same_place, Linked}
use order_book_server_cpp.Book.Steps.Add.{added, longer, new_order}
use order_book_server_cpp.Book.Priority.{waiting, leave, is_at, left, requeued, joined}
use order_book_server_cpp.Book.Priority.Lists.{
  waiting-erase, waiting-write, waiting-append, waiting-enlarge,
}

-- The ids that wait at a place.
abbrev pub waiting_at : Book → Bool → ℕ → List ℕ
waiting_at b s i = waiting (level_at b s i).queue

level_at-rewritten :
    (b : Book) (s : Bool) (i : ℕ) (l : Level) (f : ℕ → Option Ref) (n : ℕ) (t : Bool) (j : ℕ)
    → IsWide b
    → i < b.num_levels
    → level_at (rewritten b s i l f n) t j ≡ (if is_at s i t j then l else level_at b t j)
unfolding level_at set_side
level_at-rewritten b s i l f n true j w h = unfold level_at in level_at-set_side b s true i j l w h
level_at-rewritten b s i l f n false j w h = level_at-set_side b s false i j l w h

if_same : (c : Bool) (w : List ℕ) → (if c then w else w) ≡ w
if_same true w = refl
if_same false w = refl

-- A write of one level changes the ids of that place only.
waiting-rewritten :
    (b : Book) (s : Bool) (i : ℕ) (l : Level) (f : ℕ → Option Ref) (n : ℕ) (g : List Order → List ℕ)
    → IsWide b
    → i < b.num_levels
    → waiting l.queue ≡ g (level_at b s i).queue
    → (t : Bool) (j : ℕ)
    → waiting_at (rewritten b s i l f n) t j
      ≡ (if is_at s i t j then g (level_at b t j).queue else waiting_at b t j)
waiting-rewritten b s i l f n g w h e t j =
    rw (level_at-rewritten b s i l f n t j w h) (elim (Bool-cases (is_at s i t j)) [
      | inl same ↦
          let (p, q) = same_place s t i j same in
          rw same (subst₂ (λ u k. waiting l.queue ≡ g (level_at b u k).queue) p q e)
      | inr other ↦ rw other refl
    ])

pub waiting-add :
    (b : Book) (m : MboMsg) (side : Bool) (index : ℕ)
    → IsWide b
    → index < b.num_levels
    → (s : Bool) (i : ℕ)
    → waiting_at (added b m side index) s i ≡ joined m.order_id s i side index (waiting_at b s i)
unfolding added set_side
waiting-add b m side index w h s i =
    waiting-rewritten b side index (longer b m side index) _ _ (λ q. waiting q ++ m.order_id ∷ []) w
      h (waiting-append (level_at b side index).queue (new_order b m side index)) s i

module _ (b : Book) (v : IsValid b) (m : MboMsg) where
  module _ (r : Ref) (e : b.orders_ref m.order_id ≡ some r) where
    abbrev link : Linked b m.order_id r
    link = v.linked m.order_id r e

    abbrev home : Level
    home = level_at b r.is_bid r.index

    pub waiting-remove :
        (s : Bool) (i : ℕ)
        → waiting_at (remove b m.order_id r home link.order) s i
          ≡ left m.order_id s i r (level_at b s i).queue
    unfolding remove set_side
    waiting-remove s i =
        waiting-rewritten b r.is_bid r.index _ _ _ (leave r.it) v.wide link.inside
          (waiting-erase r.it home.queue (v.sound r.is_bid r.index).distinct) s i

    pub waiting-shrink :
        (sz : ℕ) (s : Bool) (i : ℕ)
        → waiting_at (shrink b r home link.order sz) s i ≡ waiting_at b s i
    unfolding shrink set_side
    waiting-shrink sz s i =
        waiting-rewritten b r.is_bid r.index _ b.orders_ref b.next_it waiting v.wide link.inside
          (waiting-write r.it _ home.queue) s i
        ∙ if_same (is_at r.is_bid r.index s i) _

    pub waiting-reduce :
        (size : ℕ) (s : Bool) (i : ℕ)
        → waiting_at (reduce b r home link.order size) s i ≡ waiting_at b s i
    unfolding reduce set_side
    waiting-reduce size s i =
        waiting-rewritten b r.is_bid r.index _ b.orders_ref b.next_it waiting v.wide link.inside
          (waiting-write r.it _ home.queue) s i
        ∙ if_same (is_at r.is_bid r.index s i) _

    pub waiting-back :
        (size : ℕ) (s : Bool) (i : ℕ)
        → waiting_at (enlarge b r home link.order size) s i
          ≡ requeued m.order_id s i r (level_at b s i).queue
    unfolding enlarge set_side
    waiting-back size s i =
        let t = v.sound r.is_bid r.index in
        waiting-rewritten b r.is_bid r.index _ b.orders_ref b.next_it
          (λ q. leave r.it q ++ m.order_id ∷ []) v.wide link.inside
          (waiting-enlarge b.next_it r.it size home.queue link.order t.below t.distinct link.found
            ∙ ap (λ k. leave r.it home.queue ++ k ∷ []) link.named)
          s i
