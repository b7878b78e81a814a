-- ===== src/Tests/CoreExamples.antt =====
-- The theorems about `KvStore` at a small store.
use oxistore.Common.{
  ◌≡◌, ◌≢◌, ◌⊎◌, refl, true, false, ◌&&◌, none, some, List, [], ◌∷◌, ok, ite, keep_if, arith,
}
use oxistore.Common.Assoc.{lookup}
use oxistore.Common.Bytes.{Bytes, ltb_bytes, leb_bytes, starts_with, bytes_dec}
use oxistore.Core.PrefixBound.{prefix_upper_bound, prefix_upper_bound-exact}
use oxistore.Core.Store.{prefix_scan, snapshot_prefix_scan, compare_and_swap, batch_write}
use oxistore.Core.Contract.{items}
use oxistore.Core.Scans.{prefix_scan-exact, snapshot_prefix_scan-unbounded}
use oxistore.Core.Transactions.{compare_and_swap-exact, batch_write-exact, written}
use oxistore.Tests.ListStore.{
  Entries, Fixed, list_store, list_store-Transacts, fixed_store, fixed_store-Reads, list_snapshot,
}

-- The documentation's examples: "foo", "ab\xff", "\xff\xff", "".
bound_examples :
    (prefix_upper_bound (0x66 ∷ 0x6f ∷ 0x6f ∷ []) ≡ some (0x66 ∷ 0x6f ∷ 0x70 ∷ []))
    × (prefix_upper_bound (0x61 ∷ 0x62 ∷ 0xff ∷ []) ≡ some (0x61 ∷ 0x63 ∷ []))
    × (prefix_upper_bound (0xff ∷ 0xff ∷ []) ≡ none)
    × (prefix_upper_bound [] ≡ none)
unfolding prefix_upper_bound
bound_examples = (refl, refl, refl, refl)

prefix_upper_bound-exact_example :
    starts_with (97 ∷ 255 ∷ 7 ∷ []) (97 ∷ 255 ∷ [])
    ≡ leb_bytes (97 ∷ 255 ∷ []) (97 ∷ 255 ∷ 7 ∷ []) && ltb_bytes (97 ∷ 255 ∷ 7 ∷ []) (98 ∷ [])
unfolding prefix_upper_bound
prefix_upper_bound-exact_example =
    prefix_upper_bound-exact (97 ∷ 255 ∷ []) (97 ∷ 255 ∷ 7 ∷ []) (98 ∷ []) (omega arith) refl

abbrev three : Entries
three = ((1 ∷ []), (10 ∷ [])) ∷ ((1 ∷ 5 ∷ []), (15 ∷ [])) ∷ ((255 ∷ []), (99 ∷ [])) ∷ []

abbrev fixed : Fixed
fixed = (three, omega arith)

prefix_scan-exact_example :
    (prefix_scan fixed_store (1 ∷ []) fixed).0
    ≡ ok (items (keep_if (λ kv. starts_with kv.0 (1 ∷ [])) three))
prefix_scan-exact_example = prefix_scan-exact fixed_store fixed_store-Reads (1 ∷ []) fixed

snapshot_prefix_scan-unbounded_example : snapshot_prefix_scan list_snapshot three (255 ∷ []) ≡ ok []
unfolding prefix_upper_bound
snapshot_prefix_scan-unbounded_example =
    snapshot_prefix_scan-unbounded list_snapshot (λ l. l) three (255 ∷ []) (λ lo hi. refl) refl

compare_and_swap-exact_example :
    ((lookup bytes_dec (1 ∷ []) three ≡ some (10 ∷ []))
      × ((compare_and_swap list_store (1 ∷ []) (some (10 ∷ [])) (11 ∷ []) three).0 ≡ ok true)
      × ((q : Bytes)
          → lookup bytes_dec q
              (compare_and_swap list_store (1 ∷ []) (some (10 ∷ [])) (11 ∷ []) three).1
            ≡ ite (bytes_dec (1 ∷ []) q) (some (11 ∷ [])) (lookup bytes_dec q three)))
    ⊎ ((lookup bytes_dec (1 ∷ []) three ≢ some (10 ∷ []))
        × ((compare_and_swap list_store (1 ∷ []) (some (10 ∷ [])) (11 ∷ []) three).0 ≡ ok false)
        × ((q : Bytes)
            → lookup bytes_dec q
                (compare_and_swap list_store (1 ∷ []) (some (10 ∷ [])) (11 ∷ []) three).1
              ≡ lookup bytes_dec q three))
compare_and_swap-exact_example =
    compare_and_swap-exact list_store list_store-Transacts (1 ∷ []) (some (10 ∷ [])) (11 ∷ []) three

abbrev pairs : List (Bytes × Bytes)
pairs = ((7 ∷ []), (1 ∷ [])) ∷ ((7 ∷ []), (2 ∷ [])) ∷ []

batch_write-exact_example :
    ((batch_write list_store pairs three).0 ≡ ok tt)
    × ((q : Bytes)
        → lookup bytes_dec q (batch_write list_store pairs three).1
          ≡ written pairs q (lookup bytes_dec q three))
batch_write-exact_example = batch_write-exact list_store list_store-Transacts pairs three
