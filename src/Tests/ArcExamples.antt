-- ===== src/Tests/ArcExamples.antt =====
-- `ArcCache` over list maps, with numbers for keys and values.
use oxistore.Common.{ℕ, ◌≡◌, refl, some, List, [], ◌∷◌, arith, ℕ_discrete, ◌+◌, ◌<◌, max, min, inl}
use oxistore.Common.Assoc.{lookup, without}
use oxistore.Cache.Entry.{CacheEntry, fresh}
use oxistore.Cache.LinkedMap.{LinkedHashMap, IsLinked}
use oxistore.Cache.Arc.{
  ArcCache, new, put, get, peek, resize, insert_entry, insert_miss, insert_ghost, make_room,
  replace, evict_t1, evict_t2, remember, trim_directory, as_cache, live_len,
}
use oxistore.Cache.Arc.Sizes.{IsWithin, insert_entry-IsWithin, put-Overflows, resize-IsWithin}
use oxistore.Cache.Arc.Target.{HasTarget, run-HasTarget}
use oxistore.Cache.Arc.Reads.{arc_peek-put_self}
use oxistore.Cache.Runs.{Op, op_get, op_put, op_put_with_ttl, op_remove, op_resize, run}
use oxistore.Tests.ListMap.{ListMap, list_map, list_map-IsLinked}

abbrev Map : Type 0
Map = ListMap ℕ_discrete (CacheEntry ℕ)

abbrev Ghosts : Type 0
Ghosts = ListMap ℕ_discrete (Unit {0})

abbrev maps : LinkedHashMap ℕ (CacheEntry ℕ) Map
maps = list_map ℕ_discrete

abbrev ghosts : LinkedHashMap ℕ (Unit {0}) Ghosts
ghosts = list_map ℕ_discrete

linked : IsLinked ℕ_discrete maps
linked = list_map-IsLinked ℕ_discrete

linked_ghosts : IsLinked ℕ_discrete ghosts
linked_ghosts = list_map-IsLinked ℕ_discrete

-- capacity 1: key 2 is seen twice, key 1 is a ghost
abbrev reached : ArcCache Map Ghosts
reached =
    (get maps ghosts 0 2 (put maps ghosts 2 20 (put maps ghosts 1 10 (new maps ghosts 1)).1).1).1

put-Overflows_example :
    (live_len maps ghosts (put maps ghosts 3 30 reached).1 ≡ live_len maps ghosts reached + 1)
    × (reached.cap < live_len maps ghosts (put maps ghosts 3 30 reached).1)
unfolding new put get insert_entry insert_miss insert_ghost make_room replace evict_t1 evict_t2
    remember trim_directory lookup without ℕ_discrete
put-Overflows_example =
    put-Overflows ℕ_discrete maps ghosts linked linked_ghosts 3 30 reached (refl, refl, omega arith)
      (omega arith) refl refl refl refl

-- capacity 2: keys 1 and 2 are live, each seen once
abbrev two : ArcCache Map Ghosts
two = (put maps ghosts 2 20 (put maps ghosts 1 10 (new maps ghosts 2)).1).1

insert_entry-IsWithin_example :
    IsWithin ℕ_discrete maps ghosts linked linked_ghosts
      (insert_entry maps ghosts 3 (fresh 30) two).1
unfolding new put insert_entry insert_miss make_room lookup without ℕ_discrete
insert_entry-IsWithin_example =
    insert_entry-IsWithin ℕ_discrete maps ghosts linked linked_ghosts 3 (fresh 30) two (omega arith)
      (omega arith) (inl (omega arith))

resize-IsWithin_example :
    IsWithin ℕ_discrete maps ghosts linked linked_ghosts (resize maps ghosts 1 two)
    × ((resize maps ghosts 1 two).cap ≡ max 1 1)
    × ((resize maps ghosts 1 two).p ≡ min two.p (max 1 1))
resize-IsWithin_example = resize-IsWithin ℕ_discrete maps ghosts linked linked_ghosts 1 two

abbrev calls : List (ℕ × Op ℕ ℕ)
calls =
    (0, op_put 3 30)
    ∷ (1, op_put_with_ttl 4 40 5)
    ∷ (9, op_get 1)
    ∷ (9, op_resize 1)
    ∷ (9, op_remove 4)
    ∷ []

run-HasTarget_example : HasTarget (run (as_cache maps ghosts) calls (new maps ghosts 2))
run-HasTarget_example = run-HasTarget ℕ_discrete maps ghosts linked linked_ghosts 2 calls

arc_peek-put_self_example : peek maps ghosts 7 1 (put maps ghosts 1 30 two).1 ≡ some 30
arc_peek-put_self_example = arc_peek-put_self ℕ_discrete maps ghosts linked linked_ghosts 7 1 30 two
