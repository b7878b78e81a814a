-- ===== src/Tests/LfuExamples.antt =====
-- `LfuCache` over list maps, with numbers for keys and values.
use oxistore.Common.{ℕ, ◌≤◌, ◌≡◌, refl, Option, none, some, List, [], ◌∷◌, arith, ℕ_discrete, All}
use oxistore.Common.Assoc.{lookup, without}
use oxistore.Cache.Entry.{CacheEntry}
use oxistore.Cache.LinkedMap.{LinkedHashMap, IsLinked}
use oxistore.Cache.Runs.{Op, op_get, op_put, op_put_with_ttl, op_remove, op_resize}
use oxistore.Cache.Lfu as Lfu
use oxistore.Cache.Lfu.{
  LfuCache, new, put, get, evict, resize, insert_entry, insert_new, increment_freq, replace_entry,
  put_in, take_out, store_bucket, empties, shrink, drop_entry,
}
use oxistore.Cache.Lfu.Consistency.{IsConsistent}
use oxistore.Cache.Lfu.Eviction.{evict_least}
use oxistore.Cache.Lfu.Calls.{states, empty-IsConsistent, states-IsConsistent}
use oxistore.Cache.Lfu.Resize.{resize_diverges}
use oxistore.Tests.ListMap.{ListMap, list_map, list_map-IsLinked}

abbrev Keys : Type 0
Keys = ListMap ℕ_discrete (Unit {0})

abbrev sets : LinkedHashMap ℕ (Unit {0}) Keys
sets = list_map ℕ_discrete

linked : IsLinked ℕ_discrete sets
linked = list_map-IsLinked ℕ_discrete

abbrev empty : LfuCache ℕ ℕ Keys
empty = record { cap = 3; min_freq = 0; key_to_entry = []; freq_to_keys = [] }

abbrev calls : List (ℕ × Op ℕ ℕ)
calls =
    (0, op_put 1 10)
    ∷ (1, op_put 2 20)
    ∷ (2, op_put_with_ttl 3 30 9)
    ∷ (3, op_get 2)
    ∷ (4, op_get 3)
    ∷ (5, op_put 4 40)
    ∷ (6, op_remove 2)
    ∷ (7, op_resize 1)
    ∷ []

states-IsConsistent_example :
    All (IsConsistent ℕ_discrete sets linked) (states ℕ_discrete sets 5 calls empty)
states-IsConsistent_example =
    states-IsConsistent ℕ_discrete sets linked 5 calls empty
      (empty-IsConsistent ℕ_discrete sets linked 3 0)

-- key 1 read never, and keys 2 and 3 once
abbrev three : LfuCache ℕ ℕ Keys
three =
    (get ℕ_discrete sets 3 3
      (get ℕ_discrete sets 3 2
        (put ℕ_discrete sets 3 30
          (put ℕ_discrete sets 2 20 (put ℕ_discrete sets 1 10 empty).1).1).1).1).1

abbrev the_keys : Option Keys → Keys
the_keys none = sets.empty
the_keys (some b) = b

abbrev front : Keys
front = the_keys (lookup ℕ_discrete 1 three.freq_to_keys)

abbrev three_calls : List (ℕ × Op ℕ ℕ)
three_calls =
    (3, op_put 1 10) ∷ (3, op_put 2 20) ∷ (3, op_put 3 30) ∷ (3, op_get 2) ∷ (3, op_get 3) ∷ []

three-IsConsistent : IsConsistent ℕ_discrete sets linked three
unfolding states
three-IsConsistent =
    (states-IsConsistent ℕ_discrete sets linked 5 three_calls empty
      (empty-IsConsistent ℕ_discrete sets linked 3 0)).1.1.1.1.0

evict_least_example :
    (f : ℕ) × (e : CacheEntry ℕ) × (lookup ℕ_discrete 1 three.key_to_entry ≡ some (f, e))
    × ((evict ℕ_discrete sets three).0 ≡ some e.value)
    × ((evict ℕ_discrete sets three).1.key_to_entry ≡ without ℕ_discrete 1 three.key_to_entry)
    × ((q g : ℕ) (x : CacheEntry ℕ) → lookup ℕ_discrete q three.key_to_entry ≡ some (g, x) → f ≤ g)
unfolding put get insert_entry insert_new increment_freq put_in take_out store_bucket empties lookup
    without ℕ_discrete
evict_least_example =
    evict_least ℕ_discrete sets linked three front (sets.pop_front front).1 1 tt three-IsConsistent
      refl refl

resize_diverges_example : resize ℕ_discrete sets 100 1 (Lfu.remove ℕ_discrete sets 1 three).1 ≡ none
unfolding put get insert_entry insert_new increment_freq put_in take_out store_bucket empties lookup
    without ℕ_discrete Lfu.remove
resize_diverges_example =
    resize_diverges ℕ_discrete sets linked 100 1 (Lfu.remove ℕ_discrete sets 1 three).1 refl
      (omega arith) (ground arith)
