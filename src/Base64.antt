-- ===== src/Base64.antt =====
-- core/utils/utils.cpp: `base64_encode` and `base64_decode`, on lists of bytes. The loops fill
-- `char_array_3` and `char_array_4` before they put out a group: a clause takes the group at once.
pub mod Bits
pub mod RoundTrip
use Prim.Native.Nat.{bit_and}
use order_book_server_cpp.Prelude.{
  ℕ, zero, suc, ◌+◌, ◌-◌, ◌*◌, ◌/◌, ◌%◌, Option, none, some, Bool, true, false, not, ◌&&◌, ◌||◌,
  List, [], ◌∷◌, ◌++◌, leb, ltb, ◌==◌, if◌then◌else◌, get_or, codes,
}

abbrev pub base64_chars : List ℕ
base64_chars = codes "ABCDEFGHIJKLMNOPQRSTUVWXYZabcdefghijklmnopqrstuvwxyz0123456789+/"

unfoldable pub is_base64 : ℕ → Bool
is_base64 c =
    leb b'A' c && leb c b'Z'
    || leb b'a' c && leb c b'z'
    || leb b'0' c && leb c b'9'
    || c == b'+'
    || c == b'/'

-- `base64_chars[i]`, of an index below 64.
unfoldable pub char_at : ℕ → ℕ
char_at i = get_or base64_chars i 0

-- The four indices of a group of three bytes.
unfoldable pub index_0 : ℕ → ℕ
index_0 a = bit_and a 0xfc / 4

unfoldable pub index_1 : ℕ → ℕ → ℕ
index_1 a b = bit_and a 0x03 * 16 + bit_and b 0xf0 / 16

unfoldable pub index_2 : ℕ → ℕ → ℕ
index_2 b c = bit_and b 0x0f * 4 + bit_and c 0xc0 / 64

unfoldable pub index_3 : ℕ → ℕ
index_3 c = bit_and c 0x3f

-- The last group has zero bytes in place of the missing ones, and `=` in place of their digits.
unfoldable pub base64_encode : List ℕ → List ℕ
base64_encode [] = []
base64_encode (a ∷ []) = char_at (index_0 a) ∷ char_at (index_1 a 0) ∷ b'=' ∷ b'=' ∷ []
base64_encode (a ∷ b ∷ []) =
    char_at (index_0 a) ∷ char_at (index_1 a b) ∷ char_at (index_2 b 0) ∷ b'=' ∷ []
base64_encode (a ∷ b ∷ c ∷ rest) =
    char_at (index_0 a)
    ∷ char_at (index_1 a b)
    ∷ char_at (index_2 b c)
    ∷ char_at (index_3 c)
    ∷ base64_encode rest

-- `base64_chars.find(c)`, kept in a byte: `npos` becomes 255.
find_from : List ℕ → ℕ → ℕ → ℕ
find_from [] i c = 255
find_from (x ∷ xs) i c = let rest = find_from xs (i + 1) c in if x == c then i else rest

unfoldable pub find : ℕ → ℕ
unfolding find_from
find c = find_from base64_chars 0 c

-- The three bytes of a group of four indices.
unfoldable pub byte_0 : ℕ → ℕ → ℕ
byte_0 v w = (v * 4 + bit_and w 0x30 / 16) % 256

unfoldable pub byte_1 : ℕ → ℕ → ℕ
byte_1 w x = (bit_and w 0xf * 16 + bit_and x 0x3c / 4) % 256

unfoldable pub byte_2 : ℕ → ℕ → ℕ
byte_2 x y = (bit_and x 0x3 * 64 + y) % 256

-- The characters that the loop takes: up to the first `=` or other character.
unfoldable pub digits_of : List ℕ → List ℕ
digits_of [] = []
digits_of (c ∷ s) = if not (c == b'=') && is_base64 c then c ∷ digits_of s else []

-- The last group has the character 0 in place of the missing ones.
unfoldable pub decode_digits : List ℕ → List ℕ
decode_digits [] = []
decode_digits (p ∷ []) = []
decode_digits (p ∷ q ∷ []) = byte_0 (find p) (find q) ∷ []
decode_digits (p ∷ q ∷ r ∷ []) = byte_0 (find p) (find q) ∷ byte_1 (find q) (find r) ∷ []
decode_digits (p ∷ q ∷ r ∷ s ∷ rest) =
    byte_0 (find p) (find q)
    ∷ byte_1 (find q) (find r)
    ∷ byte_2 (find r) (find s)
    ∷ decode_digits rest

unfoldable pub base64_decode : List ℕ → List ℕ
unfolding digits_of decode_digits
base64_decode s = decode_digits (digits_of s)
