-- ===== src/Cache/Runs.antt =====
-- Sequences of calls of a `Cache`, each at its own time.
use oxistore.Common.{ℕ, List, [], ◌∷◌}
use oxistore.Cache.Trait.{Cache}

pub data Op (K V : Type 0) : Type 0 where
  op_get : K → Op K V
  op_put : K → V → Op K V
  op_put_with_ttl : K → V → ℕ → Op K V
  op_remove : K → Op K V
  op_clear : Op K V
  op_resize : ℕ → Op K V

module _ {K V C : Type 0} (cache : Cache K V C) where
  -- The state that a call leaves.
  abbrev pub step : ℕ → Op K V → C → C
  step now (op_get k) c = (cache.get now k c).1
  step now (op_put k v) c = (cache.put now k v c).1
  step now (op_put_with_ttl k v ttl) c = (cache.put_with_ttl now k v ttl c).1
  step now (op_remove k) c = (cache.remove k c).1
  step now op_clear c = cache.clear c
  step now (op_resize n) c = cache.resize n c

  unfoldable pub run : List (ℕ × Op K V) → C → C
  run [] c = c
  run ((now, op) ∷ rest) c = run rest (step now op c)

  pub run_induction :
      (P : C → Type 0)
      → ((now : ℕ) (op : Op K V) (c : C) → P c → P (step now op c))
      → (calls : List (ℕ × Op K V)) (c : C) → P c
      → P (run calls c)
  unfolding run
  run_induction P keep [] c h = h
  run_induction P keep ((now, op) ∷ rest) c h =
      run_induction P keep rest (step now op c) (keep now op c h)
