-- ===== src/Cache/Lfu/Eviction.antt =====
-- `LfuCache::evict`: the victim, and what is left.
use oxistore.Common.{
  ℕ, ◌≤◌, ◌≡◌, refl, sym, subst, ◌∙◌, ap, true, false, none, some, List, ◌==◌, arith, ℕ_discrete,
  inl, inr, Option-cases, is_some,
}
use oxistore.Common.Assoc.{lookup, without, lookup-without_self, lookup-without_ne}
use oxistore.Cache.Entry.{CacheEntry}
use oxistore.Cache.LinkedMap.{LinkedHashMap, IsLinked}
use oxistore.Cache.Lfu.{LfuCache, set, store_bucket, drop_entry, evict}
use oxistore.Cache.Lfu.Buckets.{
  held, member, member-store_self, member-store_ne, member-set_self, member-set_ne,
}
use oxistore.Cache.Lfu.Membership.{popped, unpopped}
use oxistore.Cache.Lfu.Consistency.{IsConsistent, freq_is, dropped-IsConsistent}

module _ {K V M : Type 0} (dec : Discrete K) (ops : LinkedHashMap K (Unit {0}) M)
    (linked : IsLinked dec ops) where
  pub evict_nothing :
      (c : LfuCache K V M)
      → lookup ℕ_discrete c.min_freq c.freq_to_keys ≡ none
      → evict dec ops c ≡ (none, c)
  unfolding evict
  evict_nothing c e = rw (evict, e) refl

  evict_empty :
      (c : LfuCache K V M) (b b' : M)
      → lookup ℕ_discrete c.min_freq c.freq_to_keys ≡ some b
      → ops.pop_front b ≡ (none, b')
      → evict dec ops c
        ≡ (none, record c { freq_to_keys = set ℕ_discrete c.min_freq b' c.freq_to_keys })
  unfolding evict
  evict_empty c b b' e p = rw (evict, e, p) refl

  evict_key :
      (c : LfuCache K V M) (b b' : M) (k : K) (u : Unit {0}) (g : ℕ) (e : CacheEntry V)
      → lookup ℕ_discrete c.min_freq c.freq_to_keys ≡ some b
      → ops.pop_front b ≡ (some (k, u), b')
      → lookup dec k c.key_to_entry ≡ some (g, e)
      → evict dec ops c ≡ (
        some e.value,
        record c {
          key_to_entry = without dec k c.key_to_entry;
          freq_to_keys = store_bucket ops c.min_freq b' c.freq_to_keys;
        },
      )
  unfolding evict drop_entry
  evict_key c b b' k u g e there p found = rw (evict, there, p, drop_entry, found) refl

  -- The front key of the bucket of `min_freq` has an entry of that frequency.
  front_entry :
      (c : LfuCache K V M) (b b' : M) (k : K) (u : Unit {0})
      → IsConsistent dec ops linked c
      → lookup ℕ_discrete c.min_freq c.freq_to_keys ≡ some b
      → ops.pop_front b ≡ (some (k, u), b')
      → (e : CacheEntry V) × (lookup dec k c.key_to_entry ≡ some (c.min_freq, e))
  unfolding member
  front_entry c b b' k u h there p =
      let (here, gone, others) = popped dec ops linked b b' k u p in
      let listed : freq_is c.min_freq (lookup dec k c.key_to_entry) ≡ true =
        sym (h.agrees k c.min_freq) ∙ ap (held ops k) there ∙ here in
      elim (Option-cases (lookup dec k c.key_to_entry)) [
        | inl absent ↦ absurd (ground (arith, absent))
        | inr ((g, e), found) ↦
            let g_is : (g == c.min_freq) ≡ true = sym (ap (freq_is c.min_freq) found) ∙ listed in
            let same : g ≡ c.min_freq = ground (arith, g_is) in
            (e, found ∙ ap (λ x. some (x, e)) same)
      ]

  -- The key is taken from both maps.
  evicted-IsConsistent :
      (c : LfuCache K V M) (b b' : M) (k : K) (u : Unit {0}) (e : CacheEntry V)
      → IsConsistent dec ops linked c
      → lookup ℕ_discrete c.min_freq c.freq_to_keys ≡ some b
      → ops.pop_front b ≡ (some (k, u), b')
      → lookup dec k c.key_to_entry ≡ some (c.min_freq, e)
      → IsConsistent dec ops linked (record c {
        key_to_entry = without dec k c.key_to_entry;
        freq_to_keys = store_bucket ops c.min_freq b' c.freq_to_keys;
      })
  unfolding member
  evicted-IsConsistent c b b' k u e h there p found =
      let (here, gone, others) = popped dec ops linked b b' k u p in
      let bs : List (ℕ × M) = store_bucket ops c.min_freq b' c.freq_to_keys in
      dropped-IsConsistent dec ops linked c k bs h
        (λ f. elim (ℕ_discrete c.min_freq f) [
          | yes same ↦
              subst (λ x. member ops x k bs ≡ false) same
                (member-store_self dec ops linked c.min_freq k b' c.freq_to_keys ∙ gone)
          | no ne ↦
              member-store_ne dec ops linked c.min_freq f k b' c.freq_to_keys ne
              ∙ h.agrees k f
              ∙ ap (freq_is f) found
              ∙ ground arith
        ])
        (λ q f ne. elim (ℕ_discrete c.min_freq f) [
          | yes same ↦
              subst (λ x. member ops x q bs ≡ member ops x q c.freq_to_keys) same
                (member-store_self dec ops linked c.min_freq q b' c.freq_to_keys
                  ∙ ap is_some (others q ne)
                  ∙ sym (ap (held ops q) there))
          | no other ↦ member-store_ne dec ops linked c.min_freq f q b' c.freq_to_keys other
        ])

  -- An empty bucket, if there is one, stays as it is.
  same-IsConsistent :
      (c : LfuCache K V M) (b b' : M)
      → IsConsistent dec ops linked c
      → lookup ℕ_discrete c.min_freq c.freq_to_keys ≡ some b
      → ops.pop_front b ≡ (none, b')
      → IsConsistent dec ops linked
          (record c { freq_to_keys = set ℕ_discrete c.min_freq b' c.freq_to_keys })
  unfolding member
  same-IsConsistent c b b' h there p = record {
    agrees = λ q f. elim (ℕ_discrete c.min_freq f) [
      | yes same ↦
          subst
            (λ x.
              member ops x q (set ℕ_discrete c.min_freq b' c.freq_to_keys)
              ≡ member ops x q c.freq_to_keys)
            same
            (member-set_self dec ops linked c.min_freq q b' c.freq_to_keys
              ∙ ap is_some (unpopped dec ops linked b b' q p)
              ∙ sym (ap (held ops q) there))
          ∙ h.agrees q f
      | no other ↦
          member-set_ne dec ops linked c.min_freq f q b' c.freq_to_keys other ∙ h.agrees q f
    ];
    bounds = h.bounds;
  }

  pub evict-IsConsistent :
      (c : LfuCache K V M)
      → IsConsistent dec ops linked c
      → IsConsistent dec ops linked (evict dec ops c).1
  evict-IsConsistent c h = elim (Option-cases (lookup ℕ_discrete c.min_freq c.freq_to_keys)) [
    | inl e ↦ subst (λ r. IsConsistent dec ops linked r.1) (sym (evict_nothing c e)) h
    | inr (b, there) ↦
        let b' : M = (ops.pop_front b).1 in
        elim (Option-cases (ops.pop_front b).0) [
          | inl nothing ↦
              let p : ops.pop_front b ≡ (none, b') = ap (λ o. (o, b')) nothing in
              subst (λ r. IsConsistent dec ops linked r.1) (sym (evict_empty c b b' there p))
                (same-IsConsistent c b b' h there p)
          | inr ((k, u), front) ↦
              let p : ops.pop_front b ≡ (some (k, u), b') = ap (λ o. (o, b')) front in
              let (e, found) = front_entry c b b' k u h there p in
              subst (λ r. IsConsistent dec ops linked r.1)
                (sym (evict_key c b b' k u c.min_freq e there p found))
                (evicted-IsConsistent c b b' k u e h there p found)
        ]
  ]

  -- On a consistent cache whose bucket of `min_freq` has a key at its front: `evict` removes that key
  -- and returns its value, no entry has a lower frequency, and the other entries stay.
  pub evict_least :
      (c : LfuCache K V M) (b b' : M) (k : K) (u : Unit {0})
      → IsConsistent dec ops linked c
      → lookup ℕ_discrete c.min_freq c.freq_to_keys ≡ some b
      → ops.pop_front b ≡ (some (k, u), b')
      → (f : ℕ) × (e : CacheEntry V) × (lookup dec k c.key_to_entry ≡ some (f, e))
        × ((evict dec ops c).0 ≡ some e.value)
        × ((evict dec ops c).1.key_to_entry ≡ without dec k c.key_to_entry)
        × ((q : K) (g : ℕ) (x : CacheEntry V) → lookup dec q c.key_to_entry ≡ some (g, x) → f ≤ g)
  evict_least c b b' k u h there p =
      let (e, found) = front_entry c b b' k u h there p in
      let runs = evict_key c b b' k u c.min_freq e there p found in
      (
        c.min_freq,
        e,
        found,
        ap (λ r. r.0) runs,
        ap (λ r. r.1.key_to_entry) runs,
        λ q g x old. (h.bounds q g x old).1,
      )

  -- An absent key stays absent.
  pub evict_absent :
      (c : LfuCache K V M) (q : K)
      → IsConsistent dec ops linked c
      → lookup dec q c.key_to_entry ≡ none
      → lookup dec q (evict dec ops c).1.key_to_entry ≡ none
  evict_absent c q h absent = elim (Option-cases (lookup ℕ_discrete c.min_freq c.freq_to_keys)) [
    | inl e ↦ ap (λ r. lookup dec q r.1.key_to_entry) (evict_nothing c e) ∙ absent
    | inr (b, there) ↦
        let b' : M = (ops.pop_front b).1 in
        elim (Option-cases (ops.pop_front b).0) [
          | inl nothing ↦
              ap (λ r. lookup dec q r.1.key_to_entry)
                (evict_empty c b b' there (ap (λ o. (o, b')) nothing))
              ∙ absent
          | inr ((k, u), front) ↦
              let p : ops.pop_front b ≡ (some (k, u), b') = ap (λ o. (o, b')) front in
              let (e, found) = front_entry c b b' k u h there p in
              ap (λ r. lookup dec q r.1.key_to_entry)
                (evict_key c b b' k u c.min_freq e there p found)
              ∙ elim (dec k q) [
                | yes same ↦
                    subst (λ x. lookup dec x (without dec k c.key_to_entry) ≡ none) same
                      (lookup-without_self dec k c.key_to_entry)
                | no ne ↦ lookup-without_ne dec k q c.key_to_entry ne ∙ absent
              ]
        ]
  ]
