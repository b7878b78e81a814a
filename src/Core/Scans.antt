-- ===== src/Core/Scans.antt =====
-- The reads that `KvStore` provides by default, against the entries of a store that keeps the
-- contract of `get`, `range` and `iter`.
use oxistore.Common.{
  ℕ, ◌+◌, ◌≡◌, refl, ap, ◌∙◌, Bool, none, some, List, [], ◌∷◌, map, reverse, ok, keep_if, length,
  All, arith, Option-cases, inl, inr, map_ok,
}
use oxistore.Common.Assoc.{lookup}
use oxistore.Common.Bytes.{Bytes, AreBytes, starts_with, bytes_dec, ltb_bytes-nil}
use oxistore.Core.PrefixBound.{prefix_upper_bound, prefix_upper_bound-exact}
use oxistore.Core.Store.{
  KvStore, KvSnapshot, item_has_prefix, count_items, prefix_scan, count, range_rev, keys, get_many,
  snapshot_prefix_scan,
}
use oxistore.Core.Contract.{Reads, items, in_range}

keep_if-ext :
    (p q : Bytes × Bytes → Bool) (l : List (Bytes × Bytes))
    → All (λ kv. p kv ≡ q kv) l
    → keep_if p l ≡ keep_if q l
keep_if-ext p q [] h = refl
keep_if-ext p q (kv ∷ l) h = rw h.0 (ground (arith, keep_if-ext p q l))

keep_if-items :
    (p : Bytes) (l : List (Bytes × Bytes))
    → keep_if (item_has_prefix p) (items l) ≡ items (keep_if (λ kv. starts_with kv.0 p) l)
unfolding item_has_prefix
keep_if-items p [] = refl
keep_if-items p ((k, v) ∷ l) = ground (arith, keep_if-items p l)

keep_if-true : (l : List (Bytes × Bytes)) → keep_if (λ kv. starts_with kv.0 []) l ≡ l
unfolding starts_with
keep_if-true [] = refl
keep_if-true (kv ∷ l) = ap (◌∷◌ kv) (keep_if-true l)

range-is-prefix :
    (p hi : Bytes) (l : List (Bytes × Bytes))
    → prefix_upper_bound p ≡ some hi
    → All (λ kv. AreBytes kv.0) l
    → All (λ kv. in_range p hi kv ≡ starts_with kv.0 p) l
range-is-prefix p hi [] e h = tt
range-is-prefix p hi (kv ∷ l) e h =
    (rw (prefix_upper_bound-exact p kv.0 hi h.0 e), range-is-prefix p hi l e h.1)

count_items-items : (n : ℕ) (l : List (Bytes × Bytes)) → count_items n (items l) ≡ ok (n + length l)
unfolding count_items
count_items-items n [] = ap ok (omega arith)
count_items-items n (kv ∷ l) = ground (arith, count_items-items (n + 1) l)

key_items :
    (l : List (Bytes × Bytes))
    → map (map_ok (λ (kv : Bytes × Bytes). kv.0)) (items l) ≡ map (λ kv. ok kv.0) l
key_items [] = refl
key_items (kv ∷ l) = ap (◌∷◌ (ok kv.0)) (key_items l)

empty_range : (l : List (Bytes × Bytes)) → keep_if (in_range [] []) l ≡ []
empty_range [] = refl
empty_range (kv ∷ l) = ground (arith, empty_range l, ltb_bytes-nil kv.0)

module _ {S T : Type 0} (store : KvStore S T) (reads : Reads store) where
  -- `prefix_scan` yields, in the store's order and with no error, exactly the entries whose key
  -- starts with the prefix; so on each of its three branches.
  pub prefix_scan-exact :
      (p : Bytes) (s : S)
      → (prefix_scan store p s).0
        ≡ ok (items (keep_if (λ kv. starts_with kv.0 p) (reads.entries s)))
  unfolding prefix_scan
  prefix_scan-exact [] s = rw (keep_if-true (reads.entries s)) (reads.iter_result s)
  prefix_scan-exact (b ∷ bs) s = elim (Option-cases (prefix_upper_bound (b ∷ bs))) [
    | inl e ↦
        rw (e, prefix_scan)
          (rw (reads.iter_result s) (ap ok (keep_if-items (b ∷ bs) (reads.entries s))))
    | inr (hi, e) ↦
        rw (e, prefix_scan)
          (rw (reads.range_result s (b ∷ bs) hi) (
            ap (λ l. ok (items l))
              (keep_if-ext (in_range (b ∷ bs) hi) (λ kv. starts_with kv.0 (b ∷ bs))
                (reads.entries s)
                (range-is-prefix (b ∷ bs) hi (reads.entries s) e (reads.keys_AreBytes s)))))
  ]

  -- `count` is the number of the store's entries.
  pub count-exact : (s : S) → (count store s).0 ≡ ok (length (reads.entries s))
  unfolding count
  count-exact s = rw (reads.iter_result s) (rw count_items-items (ap ok (omega arith)))

  get_many_result :
      (ks : List Bytes) (s : S)
      → ((get_many store ks s).0 ≡ ok (map (λ k. lookup bytes_dec k (reads.entries s)) ks))
        × (reads.entries (get_many store ks s).1 ≡ reads.entries s)
  unfolding get_many
  get_many_result [] s = (refl, refl)
  get_many_result (k ∷ ks) s =
      ground
        (arith, reads.get_result s k, reads.entries-get s k, get_many_result ks (store.get k s).1)

  -- `get_many` returns, in the order of the keys, what one `get` each would return, and leaves the
  -- entries as they are.
  pub get_many-exact :
      (ks : List Bytes) (s : S)
      → ((get_many store ks s).0 ≡ ok (map (λ k. lookup bytes_dec k (reads.entries s)) ks))
        × (reads.entries (get_many store ks s).1 ≡ reads.entries s)
  get_many-exact = get_many_result

  -- `range_rev` is the range in descending order, and `keys` are the keys of all entries in order.
  pub range_rev-keys_exact :
      (lo hi : Bytes) (s : S)
      → ((range_rev store lo hi s).0
          ≡ ok (reverse (items (keep_if (in_range lo hi) (reads.entries s)))))
        × ((keys store s).0 ≡ ok (map (λ kv. ok kv.0) (reads.entries s)))
  unfolding range_rev keys
  range_rev-keys_exact lo hi s = (
    rw (reads.range_result s lo hi),
    rw (reads.iter_result s) (ap ok (key_items (reads.entries s))),
  )

-- A snapshot's `prefix_scan` returns nothing for an empty prefix, or one of 0xFF bytes only, on a
-- snapshot with `range` as documented: `range(&[], &[])` is empty, though the comment in the code
-- says that it scans everything.
pub snapshot_prefix_scan-unbounded :
    {S : Type 0} (snap : KvSnapshot S) (entries : S → List (Bytes × Bytes)) (s : S) (p : Bytes)
    → ((lo hi : Bytes) → snap.range s lo hi ≡ ok (items (keep_if (in_range lo hi) (entries s))))
    → prefix_upper_bound p ≡ none
    → snapshot_prefix_scan snap s p ≡ ok []
unfolding snapshot_prefix_scan
snapshot_prefix_scan-unbounded snap entries s p ranges e =
    rw (e, snapshot_prefix_scan) (ranges [] [] ∙ ap (λ l. ok (items l)) (empty_range (entries s)))
