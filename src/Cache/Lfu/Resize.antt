-- ===== src/Cache/Lfu/Resize.antt =====
-- When the loop of `LfuCache::resize` does not end.
use oxistore.Common.{ℕ, zero, suc, ◌<◌, ◌≡◌, ◌∙◌, ap, none, length, arith, ℕ_discrete}
use oxistore.Common.Assoc.{lookup}
use oxistore.Cache.LinkedMap.{LinkedHashMap, IsLinked}
use oxistore.Cache.Lfu.{LfuCache, evict, shrink, resize}
use oxistore.Cache.Lfu.Eviction.{evict_nothing}

module _ {K V M : Type 0} (dec : Discrete K) (ops : LinkedHashMap K (Unit {0}) M)
    (linked : IsLinked dec ops) where
  shrink_diverges :
      (rounds : ℕ) (c : LfuCache K V M)
      → lookup ℕ_discrete c.min_freq c.freq_to_keys ≡ none
      → 0 < c.cap
      → c.cap < length c.key_to_entry
      → shrink dec ops rounds c ≡ none
  unfolding shrink
  shrink_diverges zero c gone positive small = ground arith
  shrink_diverges (suc rounds) c gone positive small =
      let rest : shrink dec ops rounds (evict dec ops c).1 ≡ none =
        ap (λ r. shrink dec ops rounds r.1) (evict_nothing dec ops linked c gone)
        ∙ shrink_diverges rounds c gone positive small in
      ground (arith, rest)

  -- A `resize` to a smaller positive capacity does not end, however many rounds its loop is given,
  -- when no bucket has the frequency `min_freq`.
  pub resize_diverges :
      (rounds new_cap : ℕ) (c : LfuCache K V M)
      → lookup ℕ_discrete c.min_freq c.freq_to_keys ≡ none
      → 0 < new_cap
      → new_cap < length c.key_to_entry
      → resize dec ops rounds new_cap c ≡ none
  unfolding resize
  resize_diverges rounds new_cap c gone positive small =
      shrink_diverges rounds (record c { cap = new_cap }) gone positive small
