-- ===== src/Cache/Lfu/Consistency/Steps.antt =====
-- Every operation of an `LfuCache` keeps its two maps consistent.
use oxistore.Common.{
  ℕ, ◌+◌, ◌≤◌, ◌≡◌, ◌≢◌, refl, sym, subst, ◌∙◌, ap, true, false, ◌&&◌, none, some, List, ◌==◌,
  if◌then◌else◌, arith, ℕ_discrete, inl, inr, Option-cases,
}
use oxistore.Common.Assoc.{lookup, without}
use oxistore.Cache.Entry.{CacheEntry}
use oxistore.Cache.LinkedMap.{LinkedHashMap, IsLinked}
use oxistore.Cache.Lfu as Lfu
use oxistore.Cache.Lfu.{
  LfuCache, set, take_out, empties, put_in, store_bucket, increment_freq, drop_entry, evict,
  insert_new, replace_entry, insert_entry, get, put, put_with_ttl, clear,
}
use oxistore.Cache.Lfu.Buckets.{member}
use oxistore.Cache.Lfu.Membership.{take_out-Others, put_in-Others, taken_out, put_in_only, emptied}
use oxistore.Cache.Lfu.Consistency.{
  IsConsistent, freq_is, dropped-IsConsistent, placed-IsConsistent,
}

module _ {K V M : Type 0} (dec : Discrete K) (ops : LinkedHashMap K (Unit {0}) M)
    (linked : IsLinked dec ops) where
  -- A key with an entry is in no other bucket than that of its frequency.
  nowhere_else :
      (c : LfuCache K V M) (k : K) (g : ℕ) (e : CacheEntry V)
      → IsConsistent dec ops linked c
      → lookup dec k c.key_to_entry ≡ some (g, e)
      → (f : ℕ) → g ≢ f
      → member ops f k c.freq_to_keys ≡ false
  nowhere_else c k g e h there f ne = h.agrees k f ∙ ap (freq_is f) there ∙ ground arith

  nowhere :
      (c : LfuCache K V M) (k : K)
      → IsConsistent dec ops linked c
      → lookup dec k c.key_to_entry ≡ none
      → (f : ℕ) → member ops f k c.freq_to_keys ≡ false
  nowhere c k h absent f = h.agrees k f ∙ ap (freq_is f) absent

  increment_freq-exact :
      (c : LfuCache K V M) (k : K) (g : ℕ) (e : CacheEntry V)
      → lookup dec k c.key_to_entry ≡ some (g, e)
      → increment_freq dec ops k c ≡ (record c {
        key_to_entry = set dec k (g + 1, e) c.key_to_entry;
        freq_to_keys = put_in ops k (g + 1) (take_out ops k g c.freq_to_keys);
        min_freq = if empties ops k g c.freq_to_keys && g == c.min_freq then g + 1 else c.min_freq;
      })
  unfolding increment_freq
  increment_freq-exact c k g e there = rw (increment_freq, there) refl

  increment_freq_absent :
      (c : LfuCache K V M) (k : K)
      → lookup dec k c.key_to_entry ≡ none
      → increment_freq dec ops k c ≡ c
  unfolding increment_freq
  increment_freq_absent c k absent = rw (increment_freq, absent) refl

  -- The new `min_freq` is at most the frequency of the other keys.
  least_others :
      (c : LfuCache K V M) (k q : K) (g f : ℕ) (x : CacheEntry V)
      → IsConsistent dec ops linked c
      → k ≢ q
      → lookup dec q c.key_to_entry ≡ some (f, x)
      → (if empties ops k g c.freq_to_keys && g == c.min_freq then g + 1 else c.min_freq) ≤ f
  least_others c k q g f x h ne there =
      let low = (h.bounds q f x there).1 in
      let here : member ops f q c.freq_to_keys ≡ true =
        h.agrees q f ∙ ap (freq_is f) there ∙ ground arith in
      elim (ℕ_discrete g f) [
        | yes same ↦
            let occupied : member ops g q c.freq_to_keys ≡ true =
              subst (λ y. member ops y q c.freq_to_keys ≡ true) (sym same) here in
            ground (arith, emptied dec ops linked k q g c.freq_to_keys)
        | no other ↦ ground arith
      ]

  pub increment_freq-IsConsistent :
      (c : LfuCache K V M) (k : K)
      → IsConsistent dec ops linked c
      → IsConsistent dec ops linked (increment_freq dec ops k c)
  increment_freq-IsConsistent c k h = elim (Option-cases (lookup dec k c.key_to_entry)) [
    | inl absent ↦ subst (IsConsistent dec ops linked) (sym (increment_freq_absent c k absent)) h
    | inr ((g, e), there) ↦
        let out : List (ℕ × M) = take_out ops k g c.freq_to_keys in
        let low = (h.bounds k g e there).1 in
        subst (IsConsistent dec ops linked) (sym (increment_freq-exact c k g e there)) (
          placed-IsConsistent dec ops linked c k (g + 1) _ e (put_in ops k (g + 1) out) h
            (put_in_only dec ops linked k (g + 1) out
              (taken_out dec ops linked k g c.freq_to_keys (nowhere_else c k g e h there)))
            (λ q f ne.
              put_in-Others dec ops linked k (g + 1) out q f ne
              ∙ take_out-Others dec ops linked k g c.freq_to_keys q f ne)
            (omega arith) (ground arith) (λ q f x ne old. least_others c k q g f x h ne old))
  ]

  pub insert_new-IsConsistent :
      (c : LfuCache K V M) (k : K) (e : CacheEntry V)
      → IsConsistent dec ops linked c
      → lookup dec k c.key_to_entry ≡ none
      → IsConsistent dec ops linked (insert_new dec ops k e c)
  unfolding insert_new
  insert_new-IsConsistent c k e h absent =
      placed-IsConsistent dec ops linked c k 1 1 e (put_in ops k 1 c.freq_to_keys) h
        (put_in_only dec ops linked k 1 c.freq_to_keys (nowhere c k h absent))
        (put_in-Others dec ops linked k 1 c.freq_to_keys) (omega arith) (omega arith)
        (λ q f x ne there. (h.bounds q f x there).0)

  remove_absent :
      (c : LfuCache K V M) (k : K)
      → lookup dec k c.key_to_entry ≡ none
      → Lfu.remove dec ops k c ≡ (none, c)
  unfolding Lfu.remove
  remove_absent c k absent = rw (Lfu.remove, absent) refl

  remove_present :
      (c : LfuCache K V M) (k : K) (g : ℕ) (e : CacheEntry V)
      → lookup dec k c.key_to_entry ≡ some (g, e)
      → Lfu.remove dec ops k c ≡ (
        some e.value,
        record c {
          key_to_entry = without dec k c.key_to_entry;
          freq_to_keys = take_out ops k g c.freq_to_keys;
        },
      )
  unfolding Lfu.remove
  remove_present c k g e there = rw (Lfu.remove, there) refl

  pub remove-IsConsistent :
      (c : LfuCache K V M) (k : K)
      → IsConsistent dec ops linked c
      → IsConsistent dec ops linked (Lfu.remove dec ops k c).1
  remove-IsConsistent c k h = elim (Option-cases (lookup dec k c.key_to_entry)) [
    | inl absent ↦ subst (λ r. IsConsistent dec ops linked r.1) (sym (remove_absent c k absent)) h
    | inr ((g, e), there) ↦
        subst (λ r. IsConsistent dec ops linked r.1) (sym (remove_present c k g e there))
          (dropped-IsConsistent dec ops linked c k (take_out ops k g c.freq_to_keys) h
            (taken_out dec ops linked k g c.freq_to_keys (nowhere_else c k g e h there))
            (take_out-Others dec ops linked k g c.freq_to_keys))
  ]
