-- ===== src/Core/Store.antt =====
-- `StoreError`, the `KvStore` and `KvTxn` traits, and the default methods of `KvStore`.
-- A store has interior mutability, so each of its methods is an action on a state `S`; a
-- transaction is a value of its own type `T` until it is committed or rolled back. An iterator is
-- the list of its items.
use Prim.Native.String.{String}
use oxistore.Common.{
  ℕ, ◌+◌, Bool, true, false, Option, none, some, List, [], ◌∷◌, map, reverse, Result, ok, err,
  map_ok, is_some, if◌then◌else◌, keep_if,
}
use oxistore.Common.Bytes.{Bytes, starts_with, bytes_dec}
use oxistore.Core.PrefixBound.{prefix_upper_bound}

-- The payload of `Io` is the text of the I/O error.
pub data StoreError : Type 0 where
  io corruption unsupported other : String → StoreError
  not_found already_exists txn_conflict read_only timeout : StoreError
  capacity_exceeded cas_mismatch key_not_found : StoreError

abbrev pub Exec : Type 0 → Type 0 → Type 0
Exec S A = S → Result StoreError A × S

module _ {S A B : Type 0} where
  abbrev pub continue : Result StoreError A → (A → Exec S B) → Exec S B
  continue (ok a) f s = f a s
  continue (err e) f s = (err e, s)

  infixl 5 ◌>>=◌ ◌>>◌
  abbrev pub ◌>>=◌ : Exec S A → (A → Exec S B) → Exec S B
  ◌>>=◌ m f s = continue (m s).0 f (m s).1

  abbrev pub ◌>>◌ : Exec S A → Exec S B → Exec S B
  m >> n = m >>= λ _. n

abbrev pub pure : {S A : Type 0} → A → Exec S A
pure a s = (ok a, s)

abbrev pub raise : {S A : Type 0} → StoreError → Exec S A
raise e s = (err e, s)

abbrev pub lift : {S A : Type 0} → Result StoreError A → Exec S A
lift r s = (r, s)

-- A key with its value, or an error.
abbrev pub RangeItem : Type 0
RangeItem = Result StoreError (Bytes × Bytes)

-- `KvTxn`, without the methods that commit and discard.
pub record KvTxn (T : Type 0) : Type 0 where
  pub get : Bytes → Exec T (Option Bytes)
  pub put : Bytes → Bytes → Exec T (Unit {0})
  pub delete : Bytes → Exec T (Unit {0})

-- The required methods of `KvStore`, and `commit` and `rollback`, which consume a transaction.
pub record KvStore (S T : Type 0) : Type 0 where
  pub txn : KvTxn T
  pub get : Bytes → Exec S (Option Bytes)
  pub put : Bytes → Bytes → Exec S (Unit {0})
  pub delete : Bytes → Exec S (Unit {0})
  pub range : Bytes → Bytes → Exec S (List RangeItem)
  pub iter : Exec S (List RangeItem)
  pub transaction : Exec S T
  pub commit : T → Exec S (Unit {0})
  pub rollback : T → Exec S (Unit {0})
  pub flush : Exec S (Unit {0})

-- The filter of the branch of `prefix_scan` that has no bound: an error is kept.
unfoldable pub item_has_prefix : Bytes → RangeItem → Bool
item_has_prefix prefix (ok (k, v)) = starts_with k prefix
item_has_prefix prefix (err e) = true

-- The loop of `count`.
unfoldable pub count_items : ℕ → List RangeItem → Result StoreError ℕ
count_items n [] = ok n
count_items n (ok item ∷ rest) = count_items (n + 1) rest
count_items n (err e ∷ rest) = err e

-- The `matches` of `compare_and_swap`.
unfoldable pub cas_matches : Option Bytes → Option Bytes → Bool
cas_matches none none = true
cas_matches (some cur) (some exp) = elim (bytes_dec cur exp) [ yes p ↦ true | no p ↦ false ]
cas_matches _ _ = false

module _ {T : Type 0} (txn : KvTxn T) where
  -- The `for` loops of `batch_write` and `batch_delete`.
  unfoldable pub put_all : List (Bytes × Bytes) → Exec T (Unit {0})
  put_all [] = pure tt
  put_all ((k, v) ∷ pairs) = do txn.put k v; put_all pairs

  unfoldable pub delete_all : List Bytes → Exec T (Unit {0})
  delete_all [] = pure tt
  delete_all (k ∷ keys) = do txn.delete k; delete_all keys

module _ {S T : Type 0} (store : KvStore S T) where
  unfoldable pub contains : Bytes → Exec S Bool
  contains key = do found ← store.get key; pure (is_some found)

  unfoldable pub get_many : List Bytes → Exec S (List (Option Bytes))
  get_many [] = pure []
  get_many (k ∷ keys) = do v ← store.get k; vs ← get_many keys; pure (v ∷ vs)

  unfoldable pub range_rev : Bytes → Bytes → Exec S (List RangeItem)
  range_rev lo hi = do items ← store.range lo hi; pure (reverse items)

  unfoldable pub prefix_scan : Bytes → Exec S (List RangeItem)
  unfolding item_has_prefix
  prefix_scan [] = store.iter
  prefix_scan (b ∷ bs) = elim (prefix_upper_bound (b ∷ bs)) [
    | some hi ↦ store.range (b ∷ bs) hi
    | none ↦ do items ← store.iter; pure (keep_if (item_has_prefix (b ∷ bs)) items)
  ]

  unfoldable pub count : Exec S ℕ
  unfolding count_items
  count = do items ← store.iter; lift (count_items 0 items)

  unfoldable pub keys : Exec S (List (Result StoreError Bytes))
  keys = do items ← store.iter; pure (map (map_ok (λ kv. kv.0)) items)

  -- A transaction that is dropped on an error leaves the store as it is.
  unfoldable pub in_txn : {A : Type 0} → Exec T A → (A → T → Exec S A) → Exec S A
  in_txn body finish = do t ← store.transaction; let (r, t') = body t; continue r (λ a. finish a t')

  unfoldable pub batch_write : List (Bytes × Bytes) → Exec S (Unit {0})
  unfolding in_txn put_all
  batch_write pairs = in_txn (put_all store.txn pairs) (λ _ t. store.commit t)

  unfoldable pub batch_delete : List Bytes → Exec S (Unit {0})
  unfolding in_txn delete_all
  batch_delete keys = in_txn (delete_all store.txn keys) (λ _ t. store.commit t)

  -- The reads and writes inside the transaction; the result is `matches`.
  unfoldable pub cas_body : Bytes → Option Bytes → Bytes → Exec T Bool
  unfolding cas_matches
  cas_body key expected new_value = do
    current ← store.txn.get key
    if cas_matches current expected then (do store.txn.put key new_value; pure true) else pure false

  -- Commits if the value matched, and discards the transaction otherwise.
  unfoldable pub cas_finish : Bool → T → Exec S Bool
  cas_finish true t = do store.commit t; pure true
  cas_finish false t = do store.rollback t; pure false

  unfoldable pub compare_and_swap : Bytes → Option Bytes → Bytes → Exec S Bool
  unfolding in_txn cas_body cas_finish
  compare_and_swap key expected new_value = in_txn (cas_body key expected new_value) cas_finish

-- `KvSnapshot`: a read-only view, so its methods are functions of it.
pub record KvSnapshot (S : Type 0) : Type 0 where
  pub get : S → Bytes → Result StoreError (Option Bytes)
  pub range : S → Bytes → Bytes → Result StoreError (List RangeItem)

unfoldable pub snapshot_prefix_scan :
    {S : Type 0} → KvSnapshot S → S → Bytes → Result StoreError (List RangeItem)
snapshot_prefix_scan snap s prefix = elim (prefix_upper_bound prefix) [
  | some hi ↦ snap.range s prefix hi
  | none ↦ snap.range s [] []
]
