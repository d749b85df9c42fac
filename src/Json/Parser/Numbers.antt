-- ===== src/Json/Parser/Numbers.antt =====
-- core/json/json_value.h and json_parse.cpp: an `int64_t` that is written and read back.
use native.Mathlib.Nat.{pow-suc}
use order_book_server_cpp.Prelude.{
  ℕ, zero, suc, ◌+◌, ◌-◌, ◌*◌, ◌/◌, ◌%◌, ◌^◌, ◌<◌, ◌≡◌, ◌∙◌, refl, some, Bool, true, false, List,
  [], ◌∷◌, ◌++◌, ltb, ◌==◌, arith, All, Bool-cases, inl, inr,
}
use order_book_server_cpp.Prelude.Int.{ℤ, pos, negsuc}
use order_book_server_cpp.Json.Writer.{digits_before, uint64_text, int64_text}
use order_book_server_cpp.Json.Parser.{
  char_of, is_digit, is_number, goes_on, scan_number, read_digits, read_int64,
}

abbrev pub Is : (ℕ → Bool) → ℕ → Type 0
Is p c = p c ≡ true

ten_pow : (k : ℕ) → 10 ^ suc k ≡ 10 * 10 ^ k
ten_pow k = omega (arith, pow-suc 10 k)

tenth : (k n : ℕ) → n < 10 ^ suc k → n / 10 < 10 ^ k
tenth k n h = omega (arith, ten_pow k)

-- One digit in front adds to the number that is read.
read_digits-step :
    (d a n : ℕ) (s : List ℕ)
    → d < 10
    → a * 10 + d ≡ n
    → read_digits ((b'0' + d) ∷ s) a ≡ read_digits s n
unfolding read_digits
read_digits-step d a n s h e =
    let digit : is_digit (b'0' + d) ≡ true = ground arith in
    let number : a * 10 + (b'0' + d - b'0') ≡ n = omega arith in rw (digit, number) refl

read_digits-before :
    (k n : ℕ) (s : List ℕ) → n < 10 ^ k → read_digits (digits_before k n s) 0 ≡ read_digits s n
unfolding digits_before
read_digits-before zero n s h = let e : n ≡ 0 = omega arith in rw e
read_digits-before (suc k) n s h = elim (Bool-cases (ltb n 10)) [
  | inl small ↦ rw small (read_digits-step n 0 n s (ground arith) (omega arith))
  | inr large ↦ rw large (
      read_digits-before k (n / 10) _ (tenth k n h)
      ∙ read_digits-step (n % 10) (n / 10) n s (omega arith) (omega arith))
]

digits_before-All :
    (k n : ℕ) (s : List ℕ) → All (Is is_digit) s → All (Is is_digit) (digits_before k n s)
unfolding digits_before
digits_before-All zero n s h = h
digits_before-All (suc k) n s h = elim (Bool-cases (ltb n 10)) [
  | inl small ↦ rw small (ground arith, h)
  | inr large ↦ rw large (digits_before-All k (n / 10) _ (ground arith, h))
]

digits_before-char_of :
    (k n : ℕ) (s : List ℕ)
    → is_digit (char_of s) ≡ true
    → is_digit (char_of (digits_before k n s)) ≡ true
unfolding digits_before
digits_before-char_of zero n s h = h
digits_before-char_of (suc k) n s h = elim (Bool-cases (ltb n 10)) [
  | inl small ↦ rw small (ground arith)
  | inr large ↦ rw large (digits_before-char_of k (n / 10) _ (ground arith))
]

uint64_text-read : (n : ℕ) → n < 2 ^ 64 → read_digits (uint64_text n) 0 ≡ n
unfolding uint64_text read_digits
uint64_text-read n h = read_digits-before 20 n [] (omega arith)

digits_before-suc-char_of :
    (k n : ℕ) (s : List ℕ) → is_digit (char_of (digits_before (suc k) n s)) ≡ true
unfolding digits_before
digits_before-suc-char_of k n s = elim (Bool-cases (ltb n 10)) [
  | inl small ↦ rw small (ground arith)
  | inr large ↦ rw large (digits_before-char_of k (n / 10) _ (ground arith))
]

uint64_text-char_of : (n : ℕ) → is_digit (char_of (uint64_text n)) ≡ true
unfolding uint64_text
uint64_text-char_of n = digits_before-suc-char_of 19 n []

uint64_text-All : (n : ℕ) → All (Is is_digit) (uint64_text n)
unfolding uint64_text
uint64_text-All n = digits_before-All 20 n [] tt

-- The whole range of `int64_t`.
abbrev pub IsInt64 : ℤ → Type 0
IsInt64 (pos n) = n < 2 ^ 63
IsInt64 (negsuc n) = n < 2 ^ 63

pub read_int64-int64_text : (i : ℤ) → IsInt64 i → read_int64 (int64_text i) ≡ some i
unfolding int64_text read_int64
read_int64-int64_text (pos n) h =
    let digit = uint64_text-char_of n in
    let plus : (char_of (uint64_text n) == b'-') ≡ false = ground arith in
    let fits : ltb n (2 ^ 63) ≡ true = ground arith in
    rw (plus, digit, uint64_text-read n (omega arith), fits) refl
read_int64-int64_text (negsuc n) h =
    let digit = uint64_text-char_of (suc n) in
    let fits : ltb (suc n) (2 ^ 63 + 1) ≡ true = ground arith in
    rw (digit, uint64_text-read (suc n) (omega arith), fits) (ground arith)

number-of_digit : (c : ℕ) → is_digit c ≡ true → is_number c ≡ true
number-of_digit c h = ground arith

All-weaken :
    (p q : ℕ → Bool) (s : List ℕ)
    → ((c : ℕ) → p c ≡ true → q c ≡ true)
    → All (Is p) s
    → All (Is q) s
All-weaken p q [] f h = tt
All-weaken p q (c ∷ s) f h = (f c h.0, All-weaken p q s f h.1)

pub int64_text-All : (i : ℤ) → All (Is is_number) (int64_text i)
unfolding int64_text
int64_text-All (pos n) = All-weaken is_digit is_number _ number-of_digit (uint64_text-All n)
int64_text-All (negsuc n) =
    (refl, All-weaken is_digit is_number _ number-of_digit (uint64_text-All (suc n)))

pub int64_text-char_of : (i : ℤ) → is_number (char_of (int64_text i)) ≡ true
unfolding int64_text
int64_text-char_of (pos n) = number-of_digit (char_of (uint64_text n)) (uint64_text-char_of n)
int64_text-char_of (negsuc n) = refl

-- A number ends in front of a character that no number has.
pub scan_number-append :
    (s : List ℕ) (c : ℕ) (rest : List ℕ)
    → All (Is is_number) s
    → goes_on c rest ≡ false
    → scan_number (s ++ c ∷ rest)
      ≡ record { text = s; rest = c ∷ rest; is_float = false; ends = true }
unfolding scan_number
scan_number-append [] c rest all stop = rw stop refl
scan_number-append (d ∷ s) c rest all stop =
    let dot : (d == b'.') ≡ false = ground (arith, all.0) in
    rw (all.0, scan_number-append s c rest all.1 stop, dot) refl
