-- ===== src/Tests/LruExamples.antt =====
-- `LruCache` over list maps, with numbers for keys and values.
use oxistore.Common.{
  ℕ, ◌≡◌, refl, none, some, List, [], ◌∷◌, ◌++◌, tail, arith, ℕ_discrete, length, drop, ◌-◌,
  is_some, ltb, leb, if◌then◌else◌, ◌&&◌,
}
use oxistore.Common.Assoc.{lookup, without}
use oxistore.Cache.Entry.{CacheEntry, fresh}
use oxistore.Cache.LinkedMap.{LinkedHashMap, IsLinked}
use oxistore.Cache.Lru.{as_cache, LruCache, new, put, get, peek, resize, insert_entry}
use oxistore.Cache.Lru.Steps.{resize-exact}
use oxistore.Cache.Lru.Reads.{peek-put_self}
use oxistore.Cache.Lru.Bounds.{IsBounded, run-IsBounded, put_evicts}
use oxistore.Cache.Runs.{Op, op_get, op_put, op_put_with_ttl, op_resize, run}
use oxistore.Tests.ListMap.{ListMap, list_map, list_map-IsLinked}

abbrev Map : Type 0
Map = ListMap ℕ_discrete (CacheEntry ℕ)

abbrev maps : LinkedHashMap ℕ (CacheEntry ℕ) Map
maps = list_map ℕ_discrete

linked : IsLinked ℕ_discrete maps
linked = list_map-IsLinked ℕ_discrete

-- capacity 2: keys 1 and 2, with 2 the most recent
abbrev two : LruCache Map
two = (put maps 2 20 (put maps 1 10 (new maps 2)).1).1

evicts_the_oldest : (put maps 3 30 (get maps 0 1 two).1).0 ≡ some 20
unfolding put get new insert_entry lookup without ℕ_discrete
evicts_the_oldest = refl

peek-put_self_example : peek maps 7 3 (put maps 3 30 two).1 ≡ some 30
peek-put_self_example = peek-put_self ℕ_discrete maps linked 7 3 30 two

resize-exact_example :
    (maps.iter (resize maps 1 two).map ≡ drop (length (maps.iter two.map) - 1) (maps.iter two.map))
    × ((resize maps 1 two).cap ≡ 1)
resize-exact_example = resize-exact ℕ_discrete maps linked 1 two (omega arith)

abbrev calls : List (ℕ × Op ℕ ℕ)
calls =
    (0, op_put 3 30)
    ∷ (1, op_put_with_ttl 4 40 5)
    ∷ (9, op_get 4)
    ∷ (9, op_resize 1)
    ∷ (9, op_put 5 50)
    ∷ []

empty-IsBounded : IsBounded maps (new maps 2)
unfolding new
empty-IsBounded p = omega arith

run-IsBounded_example : IsBounded maps (run (as_cache maps) calls (new maps 2))
run-IsBounded_example = run-IsBounded ℕ_discrete maps linked calls (new maps 2) empty-IsBounded

put_evicts_example :
    ((put maps 3 30 two).0 ≡ (
      if is_some (lookup ℕ_discrete 3 (maps.iter two.map))
      then none
      else if ltb 0 two.cap && leb two.cap (length (maps.iter two.map))
      then (elim (maps.iter two.map) [ [] ↦ none | kv ∷ l ↦ some kv.1.value ])
      else none))
    × (maps.iter (put maps 3 30 two).1.map
        ≡ (if is_some (lookup ℕ_discrete 3 (maps.iter two.map))
            then without ℕ_discrete 3 (maps.iter two.map)
            else if ltb 0 two.cap && leb two.cap (length (maps.iter two.map))
            then tail (maps.iter two.map)
            else maps.iter two.map)
          ++ (3, fresh 30) ∷ [])
put_evicts_example = put_evicts ℕ_discrete maps linked 3 30 two

abbrev unbounded : LruCache Map
unbounded = (put maps 1 10 (new maps 0)).1
