-- ===== src/Tests/ListStore.antt =====
-- Stores as lists of entries: the contracts of reads and of transactions can be met.
use oxistore.Common.{◌≡◌, refl, none, some, List, ◌∷◌, ok, keep_if, All, ite, if_pos, if_neg}
use oxistore.Common.Assoc.{lookup, without, lookup-without_self, lookup-without_ne}
use oxistore.Common.Bytes.{Bytes, AreBytes, bytes_dec}
use oxistore.Core.Store.{KvStore, KvTxn, KvSnapshot, read_only, raise, pure}
use oxistore.Core.Contract.{Reads, Transacts, items, in_range}

abbrev pub Entries : Type 0
Entries = List (Bytes × Bytes)

abbrev pub list_txn : KvTxn Entries
list_txn = record {
  get = λ k l. (ok (lookup bytes_dec k l), l);
  put = λ k v l. (ok tt, (k, v) ∷ l);
  delete = λ k l. (ok tt, without bytes_dec k l);
}

abbrev pub list_store : KvStore Entries Entries
list_store = record {
  txn = list_txn;
  get = list_txn.get;
  put = list_txn.put;
  delete = list_txn.delete;
  range = λ lo hi l. (ok (items (keep_if (in_range lo hi) l)), l);
  iter = λ l. (ok (items l), l);
  transaction = λ l. (ok l, l);
  commit = λ t l. (ok tt, t);
  rollback = λ t l. (ok tt, l);
  flush = λ l. (ok tt, l);
}

pub lookup-without :
    (k q : Bytes) (l : Entries)
    → lookup bytes_dec q (without bytes_dec k l) ≡ ite (bytes_dec k q) none (lookup bytes_dec q l)
lookup-without k q l = elim (bytes_dec k q) [
  | yes p ↦ rw (if_pos _ p) (rw (← p) (lookup-without_self bytes_dec k l))
  | no p ↦ rw (if_neg _ p) (lookup-without_ne bytes_dec k q l p)
]

pub lookup-put :
    (l : Entries) (k v q : Bytes)
    → lookup bytes_dec q ((k, v) ∷ l) ≡ ite (bytes_dec k q) (some v) (lookup bytes_dec q l)
unfolding lookup
lookup-put l k v q = refl

abbrev pub list_store-Transacts : Transacts list_store
list_store-Transacts = record {
  value = λ l k. lookup bytes_dec k l;
  view = λ l k. lookup bytes_dec k l;
  begin = λ l. l;
  transaction_result = λ l. refl;
  view-begin = λ l k. refl;
  get_result = λ l k. refl;
  put_result = λ l k v. refl;
  view-put = lookup-put;
  delete_result = λ l k. refl;
  view-delete = λ l k q. lookup-without k q l;
  commit_result = λ t l. refl;
  value-commit = λ t l k. refl;
  rollback_result = λ t l. refl;
  value-rollback = λ t l k. refl;
}

-- Its keys are byte strings, and it takes no writes.
abbrev pub Fixed : Type 0
Fixed = (l : Entries) × All (λ kv. AreBytes kv.0) l

abbrev pub fixed_store : KvStore Fixed Entries
fixed_store = record {
  txn = list_txn;
  get = λ k s. (ok (lookup bytes_dec k s.0), s);
  put = λ k v. raise read_only;
  delete = λ k. raise read_only;
  range = λ lo hi s. (ok (items (keep_if (in_range lo hi) s.0)), s);
  iter = λ s. (ok (items s.0), s);
  transaction = λ s. (ok s.0, s);
  commit = λ t. raise read_only;
  rollback = λ t. pure tt;
  flush = pure tt;
}

abbrev pub fixed_store-Reads : Reads fixed_store
fixed_store-Reads = record {
  entries = λ s. s.0;
  keys_AreBytes = λ s. s.1;
  get_result = λ s k. refl;
  entries-get = λ s k. refl;
  range_result = λ s lo hi. refl;
  iter_result = λ s. refl;
}

abbrev pub list_snapshot : KvSnapshot Entries
list_snapshot = record {
  get = λ l k. ok (lookup bytes_dec k l);
  range = λ l lo hi. ok (items (keep_if (in_range lo hi) l));
}
