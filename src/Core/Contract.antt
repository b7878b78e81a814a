-- ===== src/Core/Contract.antt =====
-- What the documentation of `KvStore` and `KvTxn` promises, as laws over an abstract view: the
-- entries of a store in its order, and the value of each key in a transaction.
use oxistore.Common.{◌≡◌, Bool, ◌&&◌, Option, none, some, List, map, ok, keep_if, ite, All}
use oxistore.Common.Assoc.{lookup}
use oxistore.Common.Bytes.{Bytes, AreBytes, ltb_bytes, leb_bytes, bytes_dec}
use oxistore.Core.Store.{KvStore, RangeItem}

-- `[lo, hi)`
abbrev pub in_range : Bytes → Bytes → Bytes × Bytes → Bool
in_range lo hi kv = leb_bytes lo kv.0 && ltb_bytes kv.0 hi

abbrev pub items : List (Bytes × Bytes) → List RangeItem
items = map ok

-- Reads do not change what the store holds.
pub record Reads {S T : Type 0} (store : KvStore S T) : Type 0 where
  pub entries : S → List (Bytes × Bytes)
  pub keys_AreBytes : (s : S) → All (λ kv. AreBytes kv.0) (entries s)
  pub get_result : (s : S) (k : Bytes) → (store.get k s).0 ≡ ok (lookup bytes_dec k (entries s))
  pub entries-get : (s : S) (k : Bytes) → entries (store.get k s).1 ≡ entries s
  pub range_result :
      (s : S) (lo hi : Bytes)
      → (store.range lo hi s).0 ≡ ok (items (keep_if (in_range lo hi) (entries s)))
  pub iter_result : (s : S) → (store.iter s).0 ≡ ok (items (entries s))

-- A transaction starts with the store's values, shows its own writes, and is visible after commit.
pub record Transacts {S T : Type 0} (store : KvStore S T) : Type 0 where
  pub value : S → Bytes → Option Bytes
  pub view : T → Bytes → Option Bytes
  pub begin : S → T
  pub transaction_result : (s : S) → store.transaction s ≡ (ok (begin s), s)
  pub view-begin : (s : S) (k : Bytes) → view (begin s) k ≡ value s k
  pub get_result : (t : T) (k : Bytes) → store.txn.get k t ≡ (ok (view t k), t)
  pub put_result : (t : T) (k v : Bytes) → (store.txn.put k v t).0 ≡ ok tt
  pub view-put :
      (t : T) (k v q : Bytes)
      → view (store.txn.put k v t).1 q ≡ ite (bytes_dec k q) (some v) (view t q)
  pub delete_result : (t : T) (k : Bytes) → (store.txn.delete k t).0 ≡ ok tt
  pub view-delete :
      (t : T) (k q : Bytes) → view (store.txn.delete k t).1 q ≡ ite (bytes_dec k q) none (view t q)
  pub commit_result : (t : T) (s : S) → (store.commit t s).0 ≡ ok tt
  pub value-commit : (t : T) (s : S) (k : Bytes) → value (store.commit t s).1 k ≡ view t k
  pub rollback_result : (t : T) (s : S) → (store.rollback t s).0 ≡ ok tt
  pub value-rollback : (t : T) (s : S) (k : Bytes) → value (store.rollback t s).1 k ≡ value s k

-- The values of a store outside of transactions: reads and `flush` keep them, and writes change one key.
pub record Stores {S T : Type 0} (store : KvStore S T) : Type 0 where
  pub value : S → Bytes → Option Bytes
  pub get_result : (s : S) (k : Bytes) → (store.get k s).0 ≡ ok (value s k)
  pub value-get : (s : S) (k q : Bytes) → value (store.get k s).1 q ≡ value s q
  pub put_result : (s : S) (k v : Bytes) → (store.put k v s).0 ≡ ok tt
  pub value-put :
      (s : S) (k v q : Bytes)
      → value (store.put k v s).1 q ≡ ite (bytes_dec k q) (some v) (value s q)
  pub delete_result : (s : S) (k : Bytes) → (store.delete k s).0 ≡ ok tt
  pub value-delete :
      (s : S) (k q : Bytes) → value (store.delete k s).1 q ≡ ite (bytes_dec k q) none (value s q)
  pub flush_result : (s : S) → (store.flush s).0 ≡ ok tt
  pub value-flush : (s : S) (q : Bytes) → value (store.flush s).1 q ≡ value s q
