-- ===== src/Cache/Stats/Counting.antt =====
-- A `StatsCache` acts as its inner cache, and counts the reads.
use oxistore.Common.{
  ℕ, ◌+◌, ◌%◌, ◌^◌, ◌<◌, ◌≡◌, refl, ap, ◌∙◌, Option, none, is_some, List, [], ◌∷◌, if◌then◌else◌,
  arith,
}
use oxistore.Common.Bytes.{Bytes}
use oxistore.Cache.Trait.{Cache, default_values}
use oxistore.Cache.Runs as Runs
use oxistore.Cache.Runs.{Op, op_get, op_put, op_put_with_ttl, op_remove, op_clear, op_resize}
use oxistore.Cache.Stats.{record_hit, record_miss, StatsCache, get, as_cache}

module _ {C : Type 0} (cache : Cache Bytes Bytes C) where
  -- The answers of a sequence of calls, `none` for the calls that return nothing.
  abbrev pub reply : ℕ → Op Bytes Bytes → C → Option Bytes
  reply now (op_get k) c = (cache.get now k c).0
  reply now (op_put k v) c = (cache.put now k v c).0
  reply now (op_put_with_ttl k v ttl) c = (cache.put_with_ttl now k v ttl c).0
  reply now (op_remove k) c = (cache.remove k c).0
  reply now op_clear c = none
  reply now (op_resize n) c = none

  unfoldable pub replies : List (ℕ × Op Bytes Bytes) → C → List (Option Bytes)
  replies [] c = []
  replies ((now, op) ∷ rest) c = reply now op c ∷ replies rest (Runs.step cache now op c)

  -- How many reads of a sequence are answered with a value, and how many with none.
  unfoldable pub count_hits : List (ℕ × Op Bytes Bytes) → C → ℕ
  count_hits [] c = 0
  count_hits ((now, op_get k) ∷ rest) c =
      (if is_some (cache.get now k c).0 then 1 else 0) + count_hits rest (cache.get now k c).1
  count_hits ((now, op) ∷ rest) c = count_hits rest (Runs.step cache now op c)

  unfoldable pub count_misses : List (ℕ × Op Bytes Bytes) → C → ℕ
  count_misses [] c = 0
  count_misses ((now, op_get k) ∷ rest) c =
      (if is_some (cache.get now k c).0 then 0 else 1) + count_misses rest (cache.get now k c).1
  count_misses ((now, op) ∷ rest) c = count_misses rest (Runs.step cache now op c)

module _ {C : Type 0} (cache : Cache Bytes Bytes C) where
  step-inner :
      (now : ℕ) (op : Op Bytes Bytes) (c : StatsCache C)
      → (Runs.step (as_cache cache) now op c).inner ≡ Runs.step cache now op c.inner
  unfolding as_cache get
  step-inner now (op_get k) c = refl
  step-inner now (op_put k v) c = refl
  step-inner now (op_put_with_ttl k v ttl) c = refl
  step-inner now (op_remove k) c = refl
  step-inner now op_clear c = refl
  step-inner now (op_resize n) c = refl

  reply-inner :
      (now : ℕ) (op : Op Bytes Bytes) (c : StatsCache C)
      → reply (as_cache cache) now op c ≡ reply cache now op c.inner
  unfolding as_cache get
  reply-inner now (op_get k) c = refl
  reply-inner now (op_put k v) c = refl
  reply-inner now (op_put_with_ttl k v ttl) c = refl
  reply-inner now (op_remove k) c = refl
  reply-inner now op_clear c = refl
  reply-inner now (op_resize n) c = refl

  replies-inner :
      (calls : List (ℕ × Op Bytes Bytes)) (c : StatsCache C)
      → replies (as_cache cache) calls c ≡ replies cache calls c.inner
  unfolding replies
  replies-inner [] c = refl
  replies-inner ((now, op) ∷ rest) c =
      rw
        (
          reply-inner now op c,
          replies-inner rest (Runs.step (as_cache cache) now op c),
          step-inner now op c,
        )
        refl

  hits-get :
      (now : ℕ) (k : Bytes) (c : StatsCache C)
      → c.stats.hits < 2 ^ 64
      → (get cache now k c).1.stats.hits
        ≡ (c.stats.hits + (if is_some (cache.get now k c.inner).0 then 1 else 0)) % 2 ^ 64
  unfolding get record_hit record_miss
  hits-get now k c h = ground arith

  hits-run :
      (calls : List (ℕ × Op Bytes Bytes)) (c : StatsCache C)
      → c.stats.hits < 2 ^ 64
      → (Runs.run (as_cache cache) calls c).stats.hits
        ≡ (c.stats.hits + count_hits cache calls c.inner) % 2 ^ 64
  unfolding Runs.run count_hits as_cache get
  hits-run [] c h = omega arith
  hits-run ((now, op_get k) ∷ rest) c h =
      let more : ℕ = if is_some (cache.get now k c.inner).0 then 1 else 0 in
      let first : (get cache now k c).1.stats.hits ≡ (c.stats.hits + more) % 2 ^ 64 =
        hits-get now k c h in
      hits-run rest (get cache now k c).1 (omega arith) ∙ omega arith
  hits-run ((now, op_put k v) ∷ rest) c h =
      hits-run rest (Runs.step (as_cache cache) now (op_put k v) c) h
  hits-run ((now, op_put_with_ttl k v ttl) ∷ rest) c h =
      hits-run rest (Runs.step (as_cache cache) now (op_put_with_ttl k v ttl) c) h
  hits-run ((now, op_remove k) ∷ rest) c h =
      hits-run rest (Runs.step (as_cache cache) now (op_remove k) c) h
  hits-run ((now, op_clear) ∷ rest) c h =
      hits-run rest (Runs.step (as_cache cache) now op_clear c) h
  hits-run ((now, op_resize n) ∷ rest) c h =
      hits-run rest (Runs.step (as_cache cache) now (op_resize n) c) h

  misses-get :
      (now : ℕ) (k : Bytes) (c : StatsCache C)
      → c.stats.misses < 2 ^ 64
      → (get cache now k c).1.stats.misses
        ≡ (c.stats.misses + (if is_some (cache.get now k c.inner).0 then 0 else 1)) % 2 ^ 64
  unfolding get record_hit record_miss
  misses-get now k c h = ground arith

  misses-run :
      (calls : List (ℕ × Op Bytes Bytes)) (c : StatsCache C)
      → c.stats.misses < 2 ^ 64
      → (Runs.run (as_cache cache) calls c).stats.misses
        ≡ (c.stats.misses + count_misses cache calls c.inner) % 2 ^ 64
  unfolding Runs.run count_misses as_cache get
  misses-run [] c h = omega arith
  misses-run ((now, op_get k) ∷ rest) c h =
      let more : ℕ = if is_some (cache.get now k c.inner).0 then 0 else 1 in
      let first : (get cache now k c).1.stats.misses ≡ (c.stats.misses + more) % 2 ^ 64 =
        misses-get now k c h in
      misses-run rest (get cache now k c).1 (omega arith) ∙ omega arith
  misses-run ((now, op_put k v) ∷ rest) c h =
      misses-run rest (Runs.step (as_cache cache) now (op_put k v) c) h
  misses-run ((now, op_put_with_ttl k v ttl) ∷ rest) c h =
      misses-run rest (Runs.step (as_cache cache) now (op_put_with_ttl k v ttl) c) h
  misses-run ((now, op_remove k) ∷ rest) c h =
      misses-run rest (Runs.step (as_cache cache) now (op_remove k) c) h
  misses-run ((now, op_clear) ∷ rest) c h =
      misses-run rest (Runs.step (as_cache cache) now op_clear c) h
  misses-run ((now, op_resize n) ∷ rest) c h =
      misses-run rest (Runs.step (as_cache cache) now (op_resize n) c) h

  run-inner :
      (calls : List (ℕ × Op Bytes Bytes)) (c : StatsCache C)
      → (Runs.run (as_cache cache) calls c).inner ≡ Runs.run cache calls c.inner
  unfolding Runs.run
  run-inner [] c = refl
  run-inner ((now, op) ∷ rest) c =
      run-inner rest (Runs.step (as_cache cache) now op c)
      ∙ ap (Runs.run cache rest) (step-inner now op c)

  values-none : (now : ℕ) (c : StatsCache C) → (as_cache cache).values now c ≡ []
  unfolding as_cache default_values
  values-none now c = refl

  -- For every sequence of calls of `get`, `put`, `put_with_ttl`, `remove`, `clear` and `resize`, a
  -- `StatsCache` around any cache returns what that cache returns and leaves it in the same state;
  -- its counters, which wrap at 2^64, grow by the number of `get`s that are answered with a value and
  -- with none. `values` then gives an empty list at any time, whatever the inner cache holds.
  pub run-StatsCache :
      (calls : List (ℕ × Op Bytes Bytes)) (c : StatsCache C) (later : ℕ)
      → c.stats.hits < 2 ^ 64
      → c.stats.misses < 2 ^ 64
      → (replies (as_cache cache) calls c ≡ replies cache calls c.inner)
        × ((Runs.run (as_cache cache) calls c).inner ≡ Runs.run cache calls c.inner)
        × ((Runs.run (as_cache cache) calls c).stats.hits
            ≡ (c.stats.hits + count_hits cache calls c.inner) % 2 ^ 64)
        × ((Runs.run (as_cache cache) calls c).stats.misses
            ≡ (c.stats.misses + count_misses cache calls c.inner) % 2 ^ 64)
        × ((as_cache cache).values later (Runs.run (as_cache cache) calls c) ≡ [])
  run-StatsCache calls c later h h' = (
    replies-inner calls c,
    run-inner calls c,
    hits-run calls c h,
    misses-run calls c h',
    values-none later (Runs.run (as_cache cache) calls c),
  )
