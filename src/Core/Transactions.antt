-- ===== src/Core/Transactions.antt =====
-- `compare_and_swap`, `batch_write` and `batch_delete` of `KvStore`, over a store that keeps the
-- contract of transactions.
use oxistore.Common.{
  ◌≡◌, ◌≢◌, ◌⊎◌, ◌∙◌, ap, refl, true, false, Option, none, some, List, [], ◌∷◌, ok, ite,
  if◌then◌else◌, arith, ◌↔◌, Bool-cases, inl, inr,
}
use oxistore.Common.Bytes.{Bytes, bytes_dec}
use oxistore.Core.Store.{
  Exec, KvStore, cas_matches, put_all, delete_all, in_txn, cas_body, cas_finish, compare_and_swap,
  batch_write, batch_delete,
}
use oxistore.Core.Contract.{Transacts}

cas_matches_iff : (a b : Option Bytes) → (cas_matches a b ≡ true) ↔ (a ≡ b)
unfolding cas_matches
cas_matches_iff none none = ground arith
cas_matches_iff none (some y) = ground arith
cas_matches_iff (some x) none = ground arith
cas_matches_iff (some x) (some y) = ground arith

-- The value of a key after the pairs are written in order: the last pair of the key wins.
abbrev pub written : List (Bytes × Bytes) → Bytes → Option Bytes → Option Bytes
written [] q old = old
written ((k, v) ∷ pairs) q old = written pairs q (ite (bytes_dec k q) (some v) old)

abbrev pub deleted : List Bytes → Bytes → Option Bytes → Option Bytes
deleted [] q old = old
deleted (k ∷ ks) q old = deleted ks q (ite (bytes_dec k q) none old)

module _ {S T : Type 0} (store : KvStore S T) (c : Transacts store) where
  in_txn_ok :
      {A : Type 0} (body : Exec T A) (finish : A → T → Exec S A) (s : S) (a : A) (t : T)
      → body (c.begin s) ≡ (ok a, t)
      → in_txn store body finish s ≡ finish a t s
  unfolding in_txn
  in_txn_ok body finish s a t e = rw (c.transaction_result s) (rw e)

  cas_body_result :
      (key : Bytes) (expected : Option Bytes) (new_value : Bytes) (t : T)
      → cas_body store key expected new_value t ≡ (
          if cas_matches (c.view t key) expected
          then (ok true, (store.txn.put key new_value t).1)
          else (ok false, t))
  unfolding cas_body
  cas_body_result key expected new_value t =
      ground (arith, c.get_result t key, c.put_result t key new_value)

  cas_hit :
      (key : Bytes) (expected : Option Bytes) (new_value : Bytes) (s : S)
      → cas_matches (c.value s key) expected ≡ true
      → compare_and_swap store key expected new_value s
        ≡ (ok true, (store.commit (store.txn.put key new_value (c.begin s)).1 s).1)
  unfolding compare_and_swap
  cas_hit key expected new_value s e =
      in_txn_ok (cas_body store key expected new_value) (cas_finish store) s true
        (store.txn.put key new_value (c.begin s)).1
        (cas_body_result key expected new_value (c.begin s) ∙ rw (c.view-begin s key) (rw e))
      ∙ rw (c.commit_result (store.txn.put key new_value (c.begin s)).1 s)

  cas_miss :
      (key : Bytes) (expected : Option Bytes) (new_value : Bytes) (s : S)
      → cas_matches (c.value s key) expected ≡ false
      → compare_and_swap store key expected new_value s
        ≡ (ok false, (store.rollback (c.begin s) s).1)
  unfolding compare_and_swap
  cas_miss key expected new_value s e =
      in_txn_ok (cas_body store key expected new_value) (cas_finish store) s false (c.begin s)
        (cas_body_result key expected new_value (c.begin s) ∙ rw (c.view-begin s key) (rw e))
      ∙ rw (c.rollback_result (c.begin s) s)

  -- `compare_and_swap` never fails on a store that keeps the contract. It answers whether the
  -- key's value is the expected one (`None`: absent). If it is, the key then holds the new value
  -- and every other key its old one; otherwise every key holds its old value.
  pub compare_and_swap-exact :
      (key : Bytes) (expected : Option Bytes) (new_value : Bytes) (s : S)
      → ((c.value s key ≡ expected)
          × ((compare_and_swap store key expected new_value s).0 ≡ ok true)
          × ((q : Bytes)
              → c.value (compare_and_swap store key expected new_value s).1 q
                ≡ ite (bytes_dec key q) (some new_value) (c.value s q)))
        ⊎ ((c.value s key ≢ expected)
            × ((compare_and_swap store key expected new_value s).0 ≡ ok false)
            × ((q : Bytes)
                → c.value (compare_and_swap store key expected new_value s).1 q ≡ c.value s q))
  compare_and_swap-exact key expected new_value s =
      elim (Bool-cases (cas_matches (c.value s key) expected)) [
        | inl hit ↦ inl (
          (cas_matches_iff _ _).0 hit,
          rw (cas_hit key expected new_value s hit),
          λ q. rw (cas_hit key expected new_value s hit) (
              c.value-commit _ s q
              ∙ c.view-put (c.begin s) key new_value q
              ∙ rw (c.view-begin s q)),
        )
        | inr miss ↦ inr (
          λ e. cc ((cas_matches_iff _ _).1 e, miss),
          rw (cas_miss key expected new_value s miss),
          λ q. rw (cas_miss key expected new_value s miss) (c.value-rollback (c.begin s) s q),
        )
      ]

  put_all_result :
      (pairs : List (Bytes × Bytes)) (t : T)
      → ((put_all store.txn pairs t).0 ≡ ok tt)
        × ((q : Bytes) → c.view (put_all store.txn pairs t).1 q ≡ written pairs q (c.view t q))
  unfolding put_all
  put_all_result [] t = (refl, λ q. refl)
  put_all_result ((k, v) ∷ pairs) t =
      let rest = put_all_result pairs (store.txn.put k v t).1 in
      rw (c.put_result t k v) (rest.0, λ q. rest.1 q ∙ ap (written pairs q) (c.view-put t k v q))

  delete_all_result :
      (ks : List Bytes) (t : T)
      → ((delete_all store.txn ks t).0 ≡ ok tt)
        × ((q : Bytes) → c.view (delete_all store.txn ks t).1 q ≡ deleted ks q (c.view t q))
  unfolding delete_all
  delete_all_result [] t = (refl, λ q. refl)
  delete_all_result (k ∷ ks) t =
      let rest = delete_all_result ks (store.txn.delete k t).1 in
      rw (c.delete_result t k) (rest.0, λ q. rest.1 q ∙ ap (deleted ks q) (c.view-delete t k q))

  -- `batch_write` succeeds, and afterwards each key holds the value of its last pair in the
  -- batch, or its old value if the batch has no pair of the key.
  pub batch_write-exact :
      (pairs : List (Bytes × Bytes)) (s : S)
      → ((batch_write store pairs s).0 ≡ ok tt)
        × ((q : Bytes) → c.value (batch_write store pairs s).1 q ≡ written pairs q (c.value s q))
  unfolding batch_write
  batch_write-exact pairs s =
      let run = put_all_result pairs (c.begin s) in
      let e =
        in_txn_ok (put_all store.txn pairs) (λ _ t. store.commit t) s tt _
          (ground (arith, run.0)) in
      rw e (
        c.commit_result _ s,
        λ q. c.value-commit _ s q ∙ run.1 q ∙ ap (written pairs q) (c.view-begin s q),
      )

  -- `batch_delete` succeeds, and afterwards the keys of the batch are absent and every other key
  -- holds its old value.
  pub batch_delete-exact :
      (ks : List Bytes) (s : S)
      → ((batch_delete store ks s).0 ≡ ok tt)
        × ((q : Bytes) → c.value (batch_delete store ks s).1 q ≡ deleted ks q (c.value s q))
  unfolding batch_delete
  batch_delete-exact ks s =
      let run = delete_all_result ks (c.begin s) in
      let e =
        in_txn_ok (delete_all store.txn ks) (λ _ t. store.commit t) s tt _
          (ground (arith, run.0)) in
      rw e (
        c.commit_result _ s,
        λ q. c.value-commit _ s q ∙ run.1 q ∙ ap (deleted ks q) (c.view-begin s q),
      )
