-- ===== src/Core/Calls/Refinement.antt =====
-- A relation between a store and a function that every call keeps carries over to runs.
use oxistore.Common.{ℕ, ◌≤◌, ◌≡◌, refl, List, [], ◌∷◌, ok, All}
use oxistore.Core.Calls.{Call, Reply, Values, run, Ascending, answer, effect, replay}

-- A call that is allowed answers as the function does, and keeps the relation, which holds at the time
-- of the call.
abbrev pub SimulatesWhere :
    {W : Type 0} → (Call → Type 0) → (ℕ → W → Values → Type 0) → (ℕ → Call → W → Reply × W) → Type 0
SimulatesWhere {W} Allowed Rel step =
    (t now : ℕ) (call : Call) (w : W) (f : Values)
    → t ≤ now
    → Allowed call
    → Rel t w f
    → ((step now call w).0 ≡ ok (answer call f)) × Rel now (step now call w).1 (effect call f)

abbrev pub Simulates :
    {W : Type 0} → (ℕ → W → Values → Type 0) → (ℕ → Call → W → Reply × W) → Type 0
Simulates {W} Rel step =
    (t now : ℕ) (call : Call) (w : W) (f : Values)
    → t ≤ now
    → Rel t w f
    → ((step now call w).0 ≡ ok (answer call f)) × Rel now (step now call w).1 (effect call f)

pub run-replay_where :
    {W : Type 0} (Allowed : Call → Type 0) (Rel : ℕ → W → Values → Type 0)
    (step : ℕ → Call → W → Reply × W)
    → SimulatesWhere Allowed Rel step
    → (calls : List (ℕ × Call)) (t : ℕ) (w : W) (f : Values) → Ascending t calls
    → All (λ c. Allowed c.1) calls
    → Rel t w f
    → (run step calls w).0 ≡ replay calls f
unfolding run
run-replay_where Allowed Rel step sim [] t w f a all h = refl
run-replay_where Allowed Rel step sim ((now, call) ∷ calls) t w f a all h =
    let (same, next) = sim t now call w f a.0 all.0 h in
    rw
      (
        same,
        run-replay_where Allowed Rel step sim calls now (step now call w).1 (effect call f) a.1
            all.1 next,
      )
      refl

each_allowed : (calls : List (ℕ × Call)) → All (λ c. Unit {0}) calls
each_allowed [] = tt
each_allowed (c ∷ calls) = (tt, each_allowed calls)

pub run-replay :
    {W : Type 0} (Rel : ℕ → W → Values → Type 0) (step : ℕ → Call → W → Reply × W)
    → Simulates Rel step
    → (calls : List (ℕ × Call)) (t : ℕ) (w : W) (f : Values) → Ascending t calls
    → Rel t w f
    → (run step calls w).0 ≡ replay calls f
run-replay Rel step sim calls t w f a h =
    run-replay_where (λ c. Unit {0}) Rel step (λ t now call w f later u. sim t now call w f later)
      calls t w f a (each_allowed calls) h
