-- ===== src/SplitString.antt =====
-- core/utils/utils.cpp: `Utils::split_string`. A text is the list of its bytes; the positions are
-- those of texts shorter than 2 ^ 31 bytes, which fit the `int` variables of the loop. The loop is
-- on fuel, as an empty delimiter keeps it going; `none` is a run out of fuel.
pub mod Pieces
use order_book_server_cpp.Prelude.{
  ℕ, zero, suc, ◌+◌, ◌-◌, Option, none, some, Bool, true, false, ◌&&◌, List, [], ◌∷◌, ◌++◌, length,
  take, drop, ◌==◌, if◌then◌else◌,
}

abbrev pub starts_with : List ℕ → List ℕ → Bool
starts_with [] s = true
starts_with (d ∷ ds) [] = false
starts_with (d ∷ ds) (c ∷ s) = (d == c) && starts_with ds s

abbrev pub shift : ℕ → Option ℕ → Option ℕ
shift n none = none
shift n (some k) = some (n + k)

-- The first position of a delimiter in a text; `none` is `std::string::npos`.
unfoldable pub find_in : List ℕ → List ℕ → Option ℕ
find_in del [] = if starts_with del [] then some 0 else none
find_in del (c ∷ s) =
    let later = shift 1 (find_in del s) in if starts_with del (c ∷ s) then some 0 else later

-- `str.find(del, start)`
unfoldable pub find_from : List ℕ → List ℕ → ℕ → Option ℕ
unfolding find_in
find_from str del start = shift start (find_in del (drop start str))

-- `str.substr(start, n)`
abbrev pub substr : List ℕ → ℕ → ℕ → List ℕ
substr str start n = take n (drop start str)

unfoldable pub split_loop : ℕ → List ℕ → List ℕ → ℕ → List (List ℕ) → Option (List (List ℕ))
split_loop zero str del start res = none
split_loop (suc fuel) str del start res = elim (find_from str del start) [
  | some end ↦
      split_loop fuel str del (end + length del) (res ++ substr str start (end - start) ∷ [])
  | none ↦ some (res ++ substr str start (length str - start) ∷ [])
]

unfoldable pub split_string : ℕ → List ℕ → List ℕ → Option (List (List ℕ))
unfolding split_loop
split_string fuel str del = split_loop fuel str del 0 []
