-- ===== src/Tests/Strings.antt =====
-- core/cache/share_string.cpp: a first string in a pool of two.
use order_book_server_cpp.Prelude.{◌≡◌, refl, some, [], ◌∷◌, arith, All, codes}
use order_book_server_cpp.Prelude.Ring.{write}
use order_book_server_cpp.CachePool.{new_pool, acquire, get_current_head}
use order_book_server_cpp.CachePool.Ownership.{new_pool-IsPool, pointers}
use order_book_server_cpp.ShareString.{ShareString, StringPool, data_of, new_share_string}
use order_book_server_cpp.ShareString.Store.{IsStore, Operation, construct}
use order_book_server_cpp.ShareString.Sharing.{Operation-IsStore}

abbrev two_strings : StringPool
two_strings = new_pool 2 (λ a. record { text = []; count = 0 })

empty-IsStore : IsStore 2 two_strings []
empty-IsStore = (
  pointers 0 2,
  [],
  record {
    pool = new_pool-IsPool 2 (λ a. record { text = []; count = 0 }) (omega arith);
    counts = λ a m. cc;
    positive = λ a m. cc;
    owned = λ a m. absurd (omega arith);
  },
  tt,
)

abbrev hello : ShareString
hello = record { reference = some 0; start_index = 0; length = 5 }

abbrev one_string : StringPool
one_string = record {
  available_items = λ i. i;
  objects =
      write (write (λ a. record { text = []; count = 0 }) 0 (record { text = []; count = 0 })) 0
        (record { text = codes "hello"; count = 1 });
  head = 1;
  tail = 0;
  size = 1;
}

construct_hello : Operation 2 (two_strings, []) (one_string, hello ∷ [])
unfolding new_share_string acquire get_current_head new_pool
construct_hello = construct (codes "hello") two_strings one_string hello [] refl

Operation-IsStore_example :
    IsStore 2 one_string (hello ∷ []) × All (λ s. data_of one_string s ≡ data_of two_strings s) []
Operation-IsStore_example =
    Operation-IsStore 2 (two_strings, []) (one_string, hello ∷ []) empty-IsStore (omega arith)
      construct_hello
