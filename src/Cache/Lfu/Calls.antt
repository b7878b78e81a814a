-- ===== src/Cache/Lfu/Calls.antt =====
-- Sequences of calls of an `LfuCache`.
use oxistore.Common.{
  ℕ, ◌≡◌, refl, sym, subst, ◌∙◌, ap, true, false, Option, none, some, List, [], ◌∷◌, ◌==◌, arith,
  inl, inr, Option-cases, Bool-cases, length, is_some, ltb, zero, suc, All,
}
use oxistore.Common.Assoc.{lookup}
use oxistore.Cache.Entry.{CacheEntry, fresh, with_ttl, is_expired}
use oxistore.Cache.LinkedMap.{LinkedHashMap, IsLinked}
use oxistore.Cache.Runs.{Op, op_get, op_put, op_put_with_ttl, op_remove, op_clear, op_resize}
use oxistore.Cache.Lfu as Lfu
use oxistore.Cache.Lfu.{
  LfuCache, set, increment_freq, evict, insert_new, replace_entry, insert_entry, get, put,
  put_with_ttl, clear, shrink, resize, is_over,
}
use oxistore.Cache.Lfu.Buckets.{member}
use oxistore.Cache.Lfu.Consistency.{IsConsistent, freq_is, placed-IsConsistent}
use oxistore.Cache.Lfu.Consistency.Steps.{
  increment_freq-IsConsistent, insert_new-IsConsistent, remove-IsConsistent,
}
use oxistore.Cache.Lfu.Eviction.{evict-IsConsistent, evict_absent}

module _ {K V M : Type 0} (dec : Discrete K) (ops : LinkedHashMap K (Unit {0}) M) where
  -- The state that a call leaves, where a `resize` runs for the given number of rounds at most; `none`
  -- if it has not ended then.
  abbrev pub step : ℕ → ℕ → Op K V → LfuCache K V M → Option (LfuCache K V M)
  step rounds now (op_get k) c = some (get dec ops now k c).1
  step rounds now (op_put k v) c = some (put dec ops k v c).1
  step rounds now (op_put_with_ttl k v ttl) c = some (put_with_ttl dec ops now k v ttl c).1
  step rounds now (op_remove k) c = some (Lfu.remove dec ops k c).1
  step rounds now op_clear c = some (clear dec ops c)
  step rounds now (op_resize n) c = resize dec ops rounds n c

  abbrev pub followed :
      Option (LfuCache K V M) → (LfuCache K V M → List (LfuCache K V M)) → List (LfuCache K V M)
  followed none f = []
  followed (some c) f = c ∷ f c

  -- The states after each call, up to the first that has not ended.
  unfoldable pub states : ℕ → List (ℕ × Op K V) → LfuCache K V M → List (LfuCache K V M)
  states rounds [] c = []
  states rounds ((now, op) ∷ rest) c = followed (step rounds now op c) (states rounds rest)

some_same : {A : Type 0} (x y : A) → some x ≡ some y → x ≡ y
some_same x y e = ground arith

module _ {K V M : Type 0} (dec : Discrete K) (ops : LinkedHashMap K (Unit {0}) M)
    (linked : IsLinked dec ops) where
  replace_entry_present :
      (c : LfuCache K V M) (k : K) (g : ℕ) (old e : CacheEntry V)
      → lookup dec k c.key_to_entry ≡ some (g, old)
      → replace_entry dec ops k e c ≡ (record c { key_to_entry = set dec k (g, e) c.key_to_entry })
  unfolding replace_entry
  replace_entry_present c k g old e there = rw (replace_entry, there) refl

  replace_entry-IsConsistent :
      (c : LfuCache K V M) (k : K) (g : ℕ) (old e : CacheEntry V)
      → IsConsistent dec ops linked c
      → lookup dec k c.key_to_entry ≡ some (g, old)
      → IsConsistent dec ops linked (replace_entry dec ops k e c)
  replace_entry-IsConsistent c k g old e h there =
      subst (IsConsistent dec ops linked) (sym (replace_entry_present c k g old e there)) (
        placed-IsConsistent dec ops linked c k g c.min_freq e c.freq_to_keys h
          (λ f. h.agrees k f ∙ ap (freq_is f) there) (λ q f ne. refl) (h.bounds k g old there).0
          (h.bounds k g old there).1 (λ q f x ne other. (h.bounds q f x other).1))

  insert_entry-IsConsistent :
      (c : LfuCache K V M) (k : K) (e : CacheEntry V)
      → IsConsistent dec ops linked c
      → IsConsistent dec ops linked (insert_entry dec ops k e c).1
  unfolding insert_entry
  insert_entry-IsConsistent c k e h = elim (Bool-cases (c.cap == 0)) [
    | inl zero_cap ↦ rw (zero_cap) h
    | inr some_cap ↦ elim (Option-cases (lookup dec k c.key_to_entry)) [
      | inr ((g, old), there) ↦
          let present : is_some (lookup dec k c.key_to_entry) ≡ true = ap is_some there in
          rw (some_cap, present)
            (increment_freq-IsConsistent dec ops linked (replace_entry dec ops k e c) k
              (replace_entry-IsConsistent c k g old e h there))
      | inl absent ↦
          let missing : is_some (lookup dec k c.key_to_entry) ≡ false = ap is_some absent in
          elim (Bool-cases (ltb (length c.key_to_entry) c.cap)) [
            | inl room ↦
                rw (some_cap, missing, room) (insert_new-IsConsistent dec ops linked c k e h absent)
            | inr full ↦
                rw (some_cap, missing, full)
                  (insert_new-IsConsistent dec ops linked (evict dec ops c).1 k e
                    (evict-IsConsistent dec ops linked c h)
                    (evict_absent dec ops linked c k h absent))
          ]
    ]
  ]

  get_absent :
      (now : ℕ) (c : LfuCache K V M) (k : K)
      → lookup dec k c.key_to_entry ≡ none
      → get dec ops now k c ≡ (none, c)
  unfolding get
  get_absent now c k absent = rw (get, absent) refl

  get_expired :
      (now : ℕ) (c : LfuCache K V M) (k : K) (g : ℕ) (e : CacheEntry V)
      → lookup dec k c.key_to_entry ≡ some (g, e)
      → is_expired now e ≡ true
      → get dec ops now k c ≡ (none, (Lfu.remove dec ops k c).1)
  unfolding get
  get_expired now c k g e there over = rw (get, there, over) refl

  get_live :
      (now : ℕ) (c : LfuCache K V M) (k : K) (g : ℕ) (e : CacheEntry V)
      → lookup dec k c.key_to_entry ≡ some (g, e)
      → is_expired now e ≡ false
      → get dec ops now k c ≡ (some e.value, increment_freq dec ops k c)
  unfolding get
  get_live now c k g e there live = rw (get, there, live) refl

  get-IsConsistent :
      (now : ℕ) (c : LfuCache K V M) (k : K)
      → IsConsistent dec ops linked c
      → IsConsistent dec ops linked (get dec ops now k c).1
  get-IsConsistent now c k h = elim (Option-cases (lookup dec k c.key_to_entry)) [
    | inl absent ↦ subst (λ r. IsConsistent dec ops linked r.1) (sym (get_absent now c k absent)) h
    | inr ((g, e), there) ↦ elim (Bool-cases (is_expired now e)) [
      | inl over ↦
          subst (λ r. IsConsistent dec ops linked r.1) (sym (get_expired now c k g e there over))
            (remove-IsConsistent dec ops linked c k h)
      | inr live ↦
          subst (λ r. IsConsistent dec ops linked r.1) (sym (get_live now c k g e there live))
            (increment_freq-IsConsistent dec ops linked c k h)
    ]
  ]

  shrink-IsConsistent :
      (rounds : ℕ) (c c' : LfuCache K V M)
      → IsConsistent dec ops linked c
      → shrink dec ops rounds c ≡ some c'
      → IsConsistent dec ops linked c'
  unfolding shrink
  shrink-IsConsistent zero c c' h e = elim (Bool-cases (is_over dec ops c)) [
    | inl over ↦ absurd (ground arith)
    | inr fits ↦ subst (IsConsistent dec ops linked) (some_same c c' (ground arith)) h
  ]
  shrink-IsConsistent (suc rounds) c c' h e = elim (Bool-cases (is_over dec ops c)) [
    | inl over ↦
        shrink-IsConsistent rounds (evict dec ops c).1 c' (evict-IsConsistent dec ops linked c h)
          (ground arith)
    | inr fits ↦ subst (IsConsistent dec ops linked) (some_same c c' (ground arith)) h
  ]

  pub empty-IsConsistent :
      (cap least : ℕ)
      → IsConsistent {V = V} dec ops linked
          (record { cap = cap; min_freq = least; key_to_entry = []; freq_to_keys = [] })
  unfolding member lookup
  empty-IsConsistent cap least = record {
    agrees = λ k f. refl;
    bounds = λ k f e there. absurd (ground arith);
  }

  step-IsConsistent :
      (rounds now : ℕ) (op : Op K V) (c c' : LfuCache K V M)
      → IsConsistent dec ops linked c
      → step dec ops rounds now op c ≡ some c'
      → IsConsistent dec ops linked c'
  unfolding put put_with_ttl clear resize
  step-IsConsistent rounds now (op_get k) c c' h e =
      subst (IsConsistent dec ops linked) (some_same _ c' e) (get-IsConsistent now c k h)
  step-IsConsistent rounds now (op_put k v) c c' h e =
      subst (IsConsistent dec ops linked) (some_same _ c' e)
        (insert_entry-IsConsistent c k (fresh v) h)
  step-IsConsistent rounds now (op_put_with_ttl k v ttl) c c' h e =
      subst (IsConsistent dec ops linked) (some_same _ c' e)
        (insert_entry-IsConsistent c k (with_ttl now v ttl) h)
  step-IsConsistent rounds now (op_remove k) c c' h e =
      subst (IsConsistent dec ops linked) (some_same _ c' e)
        (remove-IsConsistent dec ops linked c k h)
  step-IsConsistent rounds now op_clear c c' h e =
      subst (IsConsistent dec ops linked) (some_same _ c' e) (empty-IsConsistent c.cap 0)
  step-IsConsistent rounds now (op_resize n) c c' h e =
      shrink-IsConsistent rounds (record c { cap = n }) c'
        (record { agrees = h.agrees; bounds = h.bounds }) e

  -- From a consistent cache, such as a new one, every sequence of calls passes through consistent
  -- states only: each key is in the bucket of its frequency and in no other, and no entry has a
  -- frequency below `min_freq`.
  pub states-IsConsistent :
      (rounds : ℕ) (calls : List (ℕ × Op K V)) (c : LfuCache K V M)
      → IsConsistent dec ops linked c
      → All (IsConsistent dec ops linked) (states dec ops rounds calls c)
  unfolding states
  states-IsConsistent rounds [] c h = tt
  states-IsConsistent rounds ((now, op) ∷ rest) c h =
      elim (Option-cases (step dec ops rounds now op c)) [
        | inl stuck ↦
            subst
              (λ o.
                All (IsConsistent dec ops linked) (followed dec ops o (states dec ops rounds rest)))
              (sym stuck) tt
        | inr (c', e) ↦
            let next = step-IsConsistent rounds now op c c' h e in
            subst
              (λ o.
                All (IsConsistent dec ops linked) (followed dec ops o (states dec ops rounds rest)))
              (sym e) (next, states-IsConsistent rounds rest c' next)
      ]
