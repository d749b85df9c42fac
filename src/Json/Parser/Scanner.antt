-- ===== src/Json/Parser/Scanner.antt =====
-- core/json/json_parse.h and json_parse.cpp: the tests on characters, and the loops that walk the text.
-- A position is the rest of the text from there on, or `past`, behind the terminating zero of the text:
-- a read there is a fault. `throws` is the `std::out_of_range` of `from_substr`.
use order_book_server_cpp.Prelude.{
  ℕ, zero, suc, ◌+◌, ◌-◌, ◌*◌, ◌^◌, Option, none, some, Bool, true, false, not, ◌&&◌, ◌||◌, List,
  [], ◌∷◌, ltb, leb, ◌==◌, if◌then◌else◌, codes, drop,
}
use order_book_server_cpp.Prelude.Int.{ℤ, pos, sub_ℕ}
use order_book_server_cpp.Json.{Json, empty, object, Items, nil, cons, check_create_json_object}
use order_book_server_cpp.Json.Writer.{quote}

pub data Pos : Type 0 where
  at : List ℕ → Pos
  past : Pos

pub data Outcome {ℓ} (A : Type ℓ) : Type ℓ where
  returns : A → Outcome A
  throws fault out_of_fuel : Outcome A

infixl 5 ◌>>=◌
abbrev pub ◌>>=◌ {ℓ κ} : {A : Type ℓ} {B : Type κ} → Outcome A → (A → Outcome B) → Outcome B
returns a >>= f = f a
throws >>= f = throws
fault >>= f = fault
out_of_fuel >>= f = out_of_fuel

-- `m_object_string[i]`, where the text goes on, is zero at its end.
abbrev pub char_of : List ℕ → ℕ
char_of [] = 0
char_of (c ∷ s) = c

abbrev pub next : Pos → Pos
next (at []) = past
next (at (c ∷ s)) = at s
next past = past

-- `check_exceed_size`
abbrev pub exceeds : Pos → Bool
exceeds (at []) = true
exceeds (at (c ∷ s)) = false
exceeds past = true

abbrev pub is_digit : ℕ → Bool
is_digit c = leb b'0' c && leb c b'9'

abbrev pub is_number : ℕ → Bool
is_number c = is_digit c || (c == b'-')

abbrev pub is_letter : ℕ → Bool
is_letter c = (leb b'a' c && leb c b'z') || (leb b'A' c && leb c b'Z')

-- The word at the head of the text, with another character behind it.
abbrev pub has_word : List ℕ → List ℕ → (ℕ → Bool) → Bool
has_word [] [] stop = false
has_word [] (c ∷ s) stop = stop c
has_word (w ∷ ws) [] stop = false
has_word (w ∷ ws) (c ∷ s) stop = (c == w) && has_word ws s stop

unfoldable pub is_true : List ℕ → Bool
is_true s = has_word (codes "true") s (λ c. not (is_letter c))

unfoldable pub is_false : List ℕ → Bool
is_false s = has_word (codes "false") s (λ c. not (is_letter c))

unfoldable pub is_null_at : List ℕ → Bool
is_null_at s = has_word (codes "null") s (λ c. not (is_letter c) && not (is_number c))

abbrev pub is_closing : ℕ → Bool
is_closing c = (c == b'}') || (c == b']')

unfoldable pub starts_value : List ℕ → Bool
unfolding is_true is_false is_null_at
starts_value s =
    (char_of s == quote)
    || ((char_of s == b'{')
        || ((char_of s == b'[')
            || (is_number (char_of s) || (is_true s || (is_false s || is_null_at s)))))

-- The first loop of `parse_value`: the start of a value, or a closing bracket; `none` is the end of
-- the text.
unfoldable pub skip_to_value : List ℕ → Option (List ℕ)
skip_to_value [] = none
skip_to_value (c ∷ s) =
    let rest = skip_to_value s in
    if starts_value (c ∷ s) || is_closing c then some (c ∷ s) else rest

-- Its last loop: up to a comma or a closing bracket.
unfoldable pub find_delimiter : List ℕ → Pos × Bool
find_delimiter [] = (past, false)
find_delimiter (c ∷ []) =
    if (c == b',') || is_closing c then (at (c ∷ []), true) else (at [], false)
find_delimiter (c ∷ d ∷ s) =
    let rest = find_delimiter (d ∷ s) in
    if (c == b',') || is_closing c then (at (c ∷ d ∷ s), true) else rest

abbrev pub cons_text : ℕ → List ℕ × Pos × Bool → List ℕ × Pos × Bool
cons_text c (text, p, valid) = (c ∷ text, p, valid)

-- The text up to the next quote, the position behind the quote, and whether there is one.
unfoldable pub scan_quoted : List ℕ → List ℕ × Pos × Bool
scan_quoted [] = ([], past, false)
scan_quoted (c ∷ s) =
    let rest = scan_quoted s in if c == quote then ([], at s, true) else cons_text c rest

-- `parse_value_string`
unfoldable pub parse_value_string : List ℕ → Outcome (List ℕ × Pos × Bool)
unfolding scan_quoted
parse_value_string [] = throws
parse_value_string (c ∷ s) = returns (scan_quoted (c ∷ s))

-- `parse_key`. Its first loop reads behind the text when there is neither a quote nor a brace.
unfoldable pub parse_key : List ℕ → Outcome (List ℕ × Pos × Bool)
unfolding parse_value_string
parse_key [] = fault
parse_key (c ∷ s) =
    let rest = parse_key s in
    if c == quote
    then parse_value_string s
    else if c == b'}'
    then returns (codes "}", at s, true)
    else rest

-- `std::string(key.data())`: a key up to its first zero byte.
unfoldable pub c_string : List ℕ → List ℕ
c_string [] = []
c_string (c ∷ s) = let rest = c_string s in if c == 0 then [] else c ∷ rest

pub record Number : Type 0 where
  pub text : List ℕ
  pub rest : List ℕ
  pub is_float : Bool
  pub ends : Bool

-- The loop of `parse_value_number`.
abbrev pub goes_on : ℕ → List ℕ → Bool
goes_on c s = is_number c || ((c == b'.') || ((c == b'e') && (char_of s == b'-')))

unfoldable pub scan_number : List ℕ → Number
scan_number [] = record { text = []; rest = []; is_float = false; ends = false }
scan_number (c ∷ s) =
    let more = scan_number s in
    if goes_on c s
    then record more { text = c ∷ more.text; is_float = (c == b'.') || more.is_float }
    else record { text = []; rest = c ∷ s; is_float = false; ends = true }

-- `std::from_chars` of an `int64_t`: the digits at the head, if they are any and in range.
unfoldable pub read_digits : List ℕ → ℕ → ℕ
read_digits [] n = n
read_digits (c ∷ s) n =
    let rest = read_digits s (n * 10 + (c - b'0')) in if is_digit c then rest else n

unfoldable pub read_int64 : List ℕ → Option ℤ
unfolding read_digits
read_int64 s =
    let negative = char_of s == b'-' in
    let digits = if negative then drop 1 s else s in
    let n = read_digits digits 0 in
    let limit = if negative then 2 ^ 63 + 1 else 2 ^ 63 in
    if is_digit (char_of digits) && ltb n limit
    then some (if negative then sub_ℕ 0 n else pos n)
    else none

unfoldable pub set_index : ℕ → Json → Items → Items
set_index zero v nil = cons v nil
set_index zero v (cons w is) = cons v is
set_index (suc i) v nil = cons empty (set_index i v nil)
set_index (suc i) v (cons w is) = cons w (set_index i v is)

set_item_of : ℕ → Json → Json → Json
set_item_of i v (object a fs is) = object true fs (set_index i v is)
set_item_of i v j = j

-- `json[index] = v`
unfoldable pub set_item : ℕ → Json → Json → Json
unfolding set_item_of set_index check_create_json_object
set_item i v j = set_item_of i v (check_create_json_object j)
