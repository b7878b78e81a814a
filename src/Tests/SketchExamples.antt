-- ===== src/Tests/SketchExamples.antt =====
-- A `CountMinSketch` and a `Doorkeeper` for four items.
use oxistore.Common.{refl, Bool, true, ℕ, ◌+◌, ◌≤◌, ◌≡◌, min, some, List, [], ◌∷◌, arith}
use oxistore.Common.Bytes.{Bytes}
use oxistore.Cache.Sketch.Doorkeeper.{Doorkeeper, put}
use oxistore.Cache.Sketch.Doorkeeper as Doorkeeper
use oxistore.Cache.Sketch.Doorkeeper.Memory.{IsDoorkeeper, put_all, put-put_all}
use oxistore.Cache.Sketch.{power_from, CountMinSketch, new, estimate}
use oxistore.Cache.Sketch.Undercount.{
  increment_all, occurrences, estimate-increment_all, new-IsSketch,
}

abbrev a : Bytes
a = 97 ∷ []

abbrev b : Bytes
b = 98 ∷ []

abbrev keys : List Bytes
keys = a ∷ b ∷ a ∷ a ∷ []

estimate-increment_all_example :
    (e : ℕ) × (s' : CountMinSketch) × (e' : ℕ) × (estimate a (new 4) ≡ some e)
    × (increment_all keys (new 4) ≡ some s')
    × (estimate a s' ≡ some e')
    × (min 15 (e + occurrences a keys) ≤ e')
unfolding new
estimate-increment_all_example =
    estimate-increment_all keys a (new 4) (new-IsSketch 4 (omega arith)) (omega arith)

new_four-IsDoorkeeper : IsDoorkeeper (Doorkeeper.new 4)
unfolding Doorkeeper.new power_from
new_four-IsDoorkeeper = record { num_bits_pos = omega arith; words = refl }

put-put_all_example :
    (r : Bool) × (d1 : Doorkeeper) × (d2 : Doorkeeper) × (put a (Doorkeeper.new 4) ≡ some (r, d1))
    × (put_all keys d1 ≡ some d2)
    × (put a d2 ≡ some (true, d2))
put-put_all_example = put-put_all a keys (Doorkeeper.new 4) new_four-IsDoorkeeper
