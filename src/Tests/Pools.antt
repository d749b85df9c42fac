-- ===== src/Tests/Pools.antt =====
-- core/cache/cache_pool.h and the base64 functions of
-- core/utils/utils.cpp at small inputs.
use order_book_server_cpp.Prelude.{ℕ, ◌≡◌, ◌+◌, refl, some, [], ◌∷◌, arith}
use order_book_server_cpp.Prelude.Ring.{write}
use order_book_server_cpp.CachePool
use order_book_server_cpp.CachePool.Ownership
use order_book_server_cpp.Base64.{
  base64_encode, base64_decode, char_at, index_0, index_1, index_2, index_3,
}
use order_book_server_cpp.Base64.RoundTrip.{base64_decode-base64_encode}

abbrev pool : CachePool.PoolBuffer ℕ
pool = CachePool.new_pool 3 (λ _. 0)

acquire-Acquires_example :
    Ownership.Acquires 3
      (λ x. x + 1)
      pool
      (0 ∷ 1 ∷ 2 ∷ [])
      []
      (CachePool.acquire 3 (λ x. x + 1) pool)
acquire-Acquires_example =
    Ownership.acquire-Acquires 3 (λ x. x + 1) pool (0 ∷ 1 ∷ 2 ∷ []) []
      (Ownership.new_pool-IsPool 3 (λ _. 0) (omega arith))

abbrev acquired : CachePool.PoolBuffer ℕ
acquired = acquire-Acquires_example.0

release-IsPool_example :
    (c : CachePool.PoolBuffer ℕ) × (CachePool.release 3 (λ _. 0) (some 0) acquired
      ≡ CachePool.returns c)
    × Ownership.IsPool 3 c (1 ∷ 2 ∷ 0 ∷ []) []
    × ((p : ℕ) → c.objects p ≡ write acquired.objects 0 0 p)
release-IsPool_example =
    Ownership.release-IsPool 3 (λ _. 0) acquired 0 (1 ∷ 2 ∷ []) [] [] acquire-Acquires_example.2

-- "Hi!" and "Hi".
encoded : base64_encode (b'H' ∷ b'i' ∷ []) ≡ b'S' ∷ b'G' ∷ b'k' ∷ b'=' ∷ []
unfolding base64_encode char_at index_0 index_1 index_2 index_3
encoded = refl

base64_decode-base64_encode_example :
    base64_decode (base64_encode (b'H' ∷ b'i' ∷ b'!' ∷ 255 ∷ [])) ≡ b'H' ∷ b'i' ∷ b'!' ∷ 255 ∷ []
base64_decode-base64_encode_example =
    base64_decode-base64_encode (b'H' ∷ b'i' ∷ b'!' ∷ 255 ∷ []) (omega arith)
