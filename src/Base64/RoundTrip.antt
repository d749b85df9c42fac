-- ===== src/Base64/RoundTrip.antt =====
-- core/utils/utils.cpp: base64 both ways.
use order_book_server_cpp.Prelude.{
  ℕ, ◌+◌, ◌*◌, ◌/◌, ◌<◌, ◌≡◌, refl, List, [], ◌∷◌, All, length, arith,
}
use order_book_server_cpp.Base64.{
  base64_encode, base64_decode, digits_of, decode_digits, char_at, index_0, index_1, index_2,
  index_3, byte_0, byte_1, byte_2,
}
use order_book_server_cpp.Base64.Bits.{
  index_0_lem, index_1_lem, index_2_lem, index_3_lem, byte_0_lem, byte_1_lem, byte_2_lem,
  find-char_at, char_at_digit,
}

abbrev pub IsBytes : List ℕ → Type 0
IsBytes = All (λ x. x < 256)

-- `base64_encode` writes four characters for every three bytes that are begun.
length-base64_encode : (s : List ℕ) → length (base64_encode s) ≡ (length s + 2) / 3 * 4
unfolding base64_encode
length-base64_encode [] = refl
length-base64_encode (a ∷ []) = refl
length-base64_encode (a ∷ b ∷ []) = refl
length-base64_encode (a ∷ b ∷ c ∷ rest) = omega (arith, length-base64_encode rest)

digits_of-char_at :
    (v : ℕ) (s : List ℕ) → v < 64 → digits_of (char_at v ∷ s) ≡ char_at v ∷ digits_of s
unfolding digits_of
digits_of-char_at v s h = rw (char_at_digit v h)

digits_of_end : (s : List ℕ) → digits_of (b'=' ∷ s) ≡ []
unfolding digits_of
digits_of_end s = refl

byte_lt : (v : ℕ) → v < 64 → v < 256
byte_lt v h = omega arith

module _ (a b : ℕ) (h : a < 256) (k : b < 256) where
  index_0_lt : index_0 a < 64
  index_0_lt = rw (index_0_lem a h) (omega arith)

  index_1_lt : index_1 a b < 64
  index_1_lt = rw (index_1_lem a h b k) (omega arith)

  index_2_lt : index_2 a b < 64
  index_2_lt = rw (index_2_lem a h b k) (omega arith)

  index_3_lt : index_3 a < 64
  index_3_lt = rw (index_3_lem a h) (omega arith)

  -- The first byte comes back from its two digits.
  byte_0_back : byte_0 (index_0 a) (index_1 a b) ≡ a
  byte_0_back =
      rw
        (
          byte_0_lem _ (byte_lt _ index_0_lt) _ (byte_lt _ index_1_lt),
          index_0_lem a h,
          index_1_lem a h b k,
        )
        (omega arith)

module _ (a b c : ℕ) (h : a < 256) (k : b < 256) (l : c < 256) where
  byte_1_back : byte_1 (index_1 a b) (index_2 b c) ≡ b
  byte_1_back =
      rw
        (
          byte_1_lem _ (byte_lt _ (index_1_lt a b h k)) _ (byte_lt _ (index_2_lt b c k l)),
          index_1_lem a h b k,
          index_2_lem b k c l,
        )
        (omega arith)

  byte_2_back : byte_2 (index_2 b c) (index_3 c) ≡ c
  byte_2_back =
      rw
        (
          byte_2_lem _ (byte_lt _ (index_2_lt b c k l)) _ (byte_lt _ (index_3_lt c c l l)),
          index_2_lem b k c l,
          index_3_lem c l,
        )
        (omega arith)

base64_decode_lem : (s : List ℕ) → base64_decode s ≡ decode_digits (digits_of s)
unfolding base64_decode
base64_decode_lem s = refl

-- The groups of one, two and three bytes.
module _ (a b c : ℕ) (h : a < 256) (k : b < 256) (l : c < 256) where
  group_1 : decode_digits (char_at (index_0 a) ∷ char_at (index_1 a b) ∷ []) ≡ a ∷ []
  unfolding decode_digits
  group_1 = rw (
    find-char_at _ (index_0_lt a b h k),
    find-char_at _ (index_1_lt a b h k),
    byte_0_back a b h k,
  )

  group_2 :
      decode_digits (char_at (index_0 a) ∷ char_at (index_1 a b) ∷ char_at (index_2 b c) ∷ [])
      ≡ a ∷ b ∷ []
  unfolding decode_digits
  group_2 = rw (
    find-char_at _ (index_0_lt a b h k),
    find-char_at _ (index_1_lt a b h k),
    find-char_at _ (index_2_lt b c k l),
    byte_0_back a b h k,
    byte_1_back a b c h k l,
  )

  group_3 :
      (ds : List ℕ)
      → decode_digits (
          char_at (index_0 a)
          ∷ char_at (index_1 a b)
          ∷ char_at (index_2 b c)
          ∷ char_at (index_3 c)
          ∷ ds)
        ≡ a ∷ b ∷ c ∷ decode_digits ds
  unfolding decode_digits
  group_3 ds = rw (
    find-char_at _ (index_0_lt a b h k),
    find-char_at _ (index_1_lt a b h k),
    find-char_at _ (index_2_lt b c k l),
    find-char_at _ (index_3_lt c c l l),
    byte_0_back a b h k,
    byte_1_back a b c h k l,
    byte_2_back a b c h k l,
  )

decode-encode : (s : List ℕ) → IsBytes s → decode_digits (digits_of (base64_encode s)) ≡ s
unfolding base64_encode
decode-encode [] h = unfold digits_of decode_digits in refl
decode-encode (a ∷ []) h =
    let z : 0 < 256 = omega arith in
    rw
      (
        digits_of-char_at _ _ (index_0_lt a 0 h.0 z),
        digits_of-char_at _ _ (index_1_lt a 0 h.0 z),
        digits_of_end (b'=' ∷ []),
      )
      (group_1 a 0 0 h.0 z z)
decode-encode (a ∷ b ∷ []) h =
    let z : 0 < 256 = omega arith in
    rw
      (
        digits_of-char_at _ _ (index_0_lt a b h.0 h.1.0),
        digits_of-char_at _ _ (index_1_lt a b h.0 h.1.0),
        digits_of-char_at _ _ (index_2_lt b 0 h.1.0 z),
        digits_of_end [],
      )
      (group_2 a b 0 h.0 h.1.0 z)
decode-encode (a ∷ b ∷ c ∷ rest) h = rw (
  digits_of-char_at _ _ (index_0_lt a b h.0 h.1.0),
  digits_of-char_at _ _ (index_1_lt a b h.0 h.1.0),
  digits_of-char_at _ _ (index_2_lt b c h.1.0 h.1.1.0),
  digits_of-char_at _ _ (index_3_lt c c h.1.1.0 h.1.1.0),
  group_3 a b c h.0 h.1.0 h.1.1.0,
  decode-encode rest h.1.1.1,
)

-- `base64_decode` returns every list of bytes from its encoding.
pub base64_decode-base64_encode : (s : List ℕ) → IsBytes s → base64_decode (base64_encode s) ≡ s
base64_decode-base64_encode s h = rw (base64_decode_lem, decode-encode s h)
