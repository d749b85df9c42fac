-- ===== src/Json/Parser/Scans.antt =====
-- core/json/json_parse.cpp: the loops that walk the text, on texts that were written.
use order_book_server_cpp.Prelude.{
  ℕ, ◌≡◌, refl, ap, some, Bool, true, false, ◌&&◌, ◌||◌, not, List, [], ◌∷◌, ◌++◌, ◌==◌, arith, All,
}
use order_book_server_cpp.Json.Writer.{quote}
use order_book_server_cpp.Json.Parser.{
  at, returns, is_closing, starts_value, skip_to_value, find_delimiter, scan_quoted,
  parse_value_string, parse_key, c_string, goes_on,
}
use order_book_server_cpp.Json.Parser.Numbers.{Is}

-- The characters that stand behind a value.
abbrev pub is_delimiter : ℕ → Bool
is_delimiter c = (c == b',') || is_closing c

abbrev pub no_quote : ℕ → Bool
no_quote c = not (c == quote)

-- A byte of a key: no quote and no zero.
abbrev pub in_key : ℕ → Bool
in_key c = not (c == quote) && not (c == 0)

pub skip_to_value-start : (s : List ℕ) → starts_value s ≡ true → skip_to_value s ≡ some s
unfolding skip_to_value starts_value
skip_to_value-start [] h = cc
skip_to_value-start (c ∷ s) h = rw h refl

-- A comma or a colon in front of a value is passed over.
pub skip_to_value-comma : (s : List ℕ) → skip_to_value (b',' ∷ s) ≡ skip_to_value s
unfolding skip_to_value starts_value
skip_to_value-comma s = refl

pub skip_to_value-colon : (s : List ℕ) → skip_to_value (b':' ∷ s) ≡ skip_to_value s
unfolding skip_to_value starts_value
skip_to_value-colon s = refl

pub find_delimiter-here :
    (c : ℕ) (s : List ℕ) → is_delimiter c ≡ true → find_delimiter (c ∷ s) ≡ (at (c ∷ s), true)
unfolding find_delimiter
find_delimiter-here c [] h = rw h refl
find_delimiter-here c (d ∷ s) h = rw h refl

pub not-goes_on : (c : ℕ) (s : List ℕ) → is_delimiter c ≡ true → goes_on c s ≡ false
not-goes_on c s h = ground arith

pub scan_quoted-append :
    (s r : List ℕ) → All (Is no_quote) s → scan_quoted (s ++ quote ∷ r) ≡ (s, at r, true)
unfolding scan_quoted
scan_quoted-append [] r h = refl
scan_quoted-append (c ∷ s) r h =
    let e : (c == quote) ≡ false = ground (arith, h.0) in rw (e, scan_quoted-append s r h.1) refl

pub parse_value_string-append :
    (s r : List ℕ)
    → All (Is no_quote) s
    → parse_value_string (s ++ quote ∷ r) ≡ returns (s, at r, true)
unfolding parse_value_string
parse_value_string-append [] r h = ap returns (scan_quoted-append [] r h)
parse_value_string-append (c ∷ s) r h = ap returns (scan_quoted-append (c ∷ s) r h)

in_key-no_quote : (s : List ℕ) → All (Is in_key) s → All (Is no_quote) s
in_key-no_quote [] h = tt
in_key-no_quote (c ∷ s) h = (ground (arith, h.0), in_key-no_quote s h.1)

pub c_string-key : (k : List ℕ) → All (Is in_key) k → c_string k ≡ k
unfolding c_string
c_string-key [] h = refl
c_string-key (c ∷ k) h =
    let e : (c == 0) ≡ false = ground (arith, h.0) in rw (e, c_string-key k h.1) refl

-- A member's key, at the first member or behind a comma.
pub parse_key-quote :
    (k r : List ℕ)
    → All (Is in_key) k
    → parse_key (quote ∷ (k ++ quote ∷ r)) ≡ returns (k, at r, true)
unfolding parse_key
parse_key-quote k r h = parse_value_string-append k r (in_key-no_quote k h)

pub parse_key-comma : (s : List ℕ) → parse_key (b',' ∷ s) ≡ parse_key s
unfolding parse_key
parse_key-comma s = refl
