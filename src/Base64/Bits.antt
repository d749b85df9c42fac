-- ===== src/Base64/Bits.antt =====
-- core/utils/utils.cpp: the bit operations of base64 as arithmetic, and the alphabet, by tables.
use Prim.Native.Nat.{bit_and}
use order_book_server_cpp.Prelude.{
  ℕ, zero, suc, ◌+◌, ◌*◌, ◌/◌, ◌%◌, ◌<◌, ◌≡◌, refl, Bool, true, not, ◌&&◌, ◌==◌, arith,
}
use order_book_server_cpp.Base64.{
  index_0, index_1, index_2, index_3, byte_0, byte_1, byte_2, char_at, find, is_base64,
}

-- A test of every number below `n`.
all_below : ℕ → (ℕ → Bool) → Bool
all_below zero p = true
all_below (suc n) p = p n && all_below n p

all_below-apply : (n : ℕ) (p : ℕ → Bool) (x : ℕ) → all_below n p ≡ true → x < n → p x ≡ true
unfolding all_below
all_below-apply zero p x h lt = absurd (omega arith)
all_below-apply (suc n) p x h lt = ground (arith, all_below-apply n p x)

-- The masks of both directions on a byte.
masks : ℕ → Bool
masks x =
    bit_and x 0xfc / 4 == x / 4
    && bit_and x 0x03 == x % 4
    && bit_and x 0xf0 / 16 == x / 16
    && bit_and x 0x0f == x % 16
    && bit_and x 0xc0 / 64 == x / 64
    && bit_and x 0x3f == x % 64
    && bit_and x 0x30 / 16 == x / 16 % 4
    && bit_and x 0x3c / 4 == x / 4 % 16

masks_table : all_below 256 masks ≡ true
unfolding all_below masks
masks_table = refl

masks_hold : (x : ℕ) → x < 256 → masks x ≡ true
masks_hold x h = all_below-apply 256 masks x masks_table h

module _ (x : ℕ) (h : x < 256) where
  mask_fc : bit_and x 0xfc / 4 ≡ x / 4
  unfolding masks
  mask_fc = ground (arith, masks_hold x h)

  mask_03 : bit_and x 0x03 ≡ x % 4
  unfolding masks
  mask_03 = ground (arith, masks_hold x h)

  mask_f0 : bit_and x 0xf0 / 16 ≡ x / 16
  unfolding masks
  mask_f0 = ground (arith, masks_hold x h)

  mask_0f : bit_and x 0x0f ≡ x % 16
  unfolding masks
  mask_0f = ground (arith, masks_hold x h)

  mask_c0 : bit_and x 0xc0 / 64 ≡ x / 64
  unfolding masks
  mask_c0 = ground (arith, masks_hold x h)

  mask_3f : bit_and x 0x3f ≡ x % 64
  unfolding masks
  mask_3f = ground (arith, masks_hold x h)

  mask_30 : bit_and x 0x30 / 16 ≡ x / 16 % 4
  unfolding masks
  mask_30 = ground (arith, masks_hold x h)

  mask_3c : bit_and x 0x3c / 4 ≡ x / 4 % 16
  unfolding masks
  mask_3c = ground (arith, masks_hold x h)

module _ (a : ℕ) (h : a < 256) where
  pub index_0_lem : index_0 a ≡ a / 4
  unfolding index_0
  index_0_lem = mask_fc a h

  pub index_3_lem : index_3 a ≡ a % 64
  unfolding index_3
  index_3_lem = mask_3f a h

  module _ (b : ℕ) (k : b < 256) where
    pub index_1_lem : index_1 a b ≡ a % 4 * 16 + b / 16
    unfolding index_1
    index_1_lem = rw (mask_03 a h, mask_f0 b k)

    pub index_2_lem : index_2 a b ≡ a % 16 * 4 + b / 64
    unfolding index_2
    index_2_lem = rw (mask_0f a h, mask_c0 b k)

    pub byte_0_lem : byte_0 a b ≡ (a * 4 + b / 16 % 4) % 256
    unfolding byte_0
    byte_0_lem = rw (mask_30 b k)

    pub byte_1_lem : byte_1 a b ≡ (a % 16 * 16 + b / 4 % 16) % 256
    unfolding byte_1
    byte_1_lem = rw (mask_0f a h, mask_3c b k)

    pub byte_2_lem : byte_2 a b ≡ (a % 4 * 64 + b) % 256
    unfolding byte_2
    byte_2_lem = rw (mask_03 a h)

alphabet : ℕ → Bool
alphabet v = find (char_at v) == v && is_base64 (char_at v) && not (char_at v == b'=')

alphabet_table : all_below 64 alphabet ≡ true
unfolding all_below alphabet find char_at is_base64
alphabet_table = refl

alphabet_holds : (v : ℕ) → v < 64 → alphabet v ≡ true
alphabet_holds v h = all_below-apply 64 alphabet v alphabet_table h

-- A digit is found where it stands, and is taken for a digit.
pub find-char_at : (v : ℕ) → v < 64 → find (char_at v) ≡ v
unfolding alphabet
find-char_at v h = ground (arith, alphabet_holds v h)

pub char_at_digit : (v : ℕ) → v < 64 → (not (char_at v == b'=') && is_base64 (char_at v)) ≡ true
unfolding alphabet
char_at_digit v h = ground (arith, alphabet_holds v h)
