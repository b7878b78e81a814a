-- ===== src/Cache/Lfu/Consistency.antt =====
-- The two maps of an `LfuCache` agree, and `min_freq` bounds the frequencies.
pub mod Steps
use oxistore.Common.{
  ℕ, ◌+◌, ◌≤◌, ◌≡◌, ◌≢◌, refl, sym, subst, ◌∙◌, ap, Bool, true, false, ◌&&◌, Option, none, some,
  List, [], ◌∷◌, ◌==◌, if◌then◌else◌, arith, ℕ_discrete, if_pos, if_neg, inl, inr, ◌⊎◌,
  Option-cases, length,
}
use oxistore.Common.Assoc.{lookup, without, lookup-without_self, lookup-without_ne}
use oxistore.Cache.Entry.{CacheEntry}
use oxistore.Cache.LinkedMap.{LinkedHashMap, IsLinked}
use oxistore.Cache.Lfu.{LfuCache, set, take_out, empties, put_in}
use oxistore.Cache.Lfu.Buckets.{member}
use oxistore.Cache.Lfu.Membership.{Others}

-- Whether an entry has the frequency.
abbrev pub freq_is : {V : Type 0} → ℕ → Option (ℕ × CacheEntry V) → Bool
freq_is f none = false
freq_is f (some (g, e)) = g == f

module _ {K V : Type 0} (dec : Discrete K) where
  pub lookup-set_self : (k : K) (v : V) (l : List (K × V)) → lookup dec k (set dec k v l) ≡ some v
  unfolding lookup
  lookup-set_self k v l = if_pos (dec k k) refl _ _

  pub lookup-set_ne :
      (k q : K) (v : V) (l : List (K × V)) → k ≢ q → lookup dec q (set dec k v l) ≡ lookup dec q l
  unfolding lookup
  lookup-set_ne k q v l ne = if_neg (dec k q) ne _ _ ∙ lookup-without_ne dec k q l ne

freq_unique :
    {V : Type 0} (o : Option (ℕ × CacheEntry V)) (f g : ℕ) (x y : CacheEntry V)
    → o ≡ some (f, x)
    → o ≡ some (g, y)
    → f ≡ g
freq_unique o f g x y e e' = ground arith

module _ {K V M : Type 0} (dec : Discrete K) (ops : LinkedHashMap K (Unit {0}) M)
    (linked : IsLinked dec ops) where
  -- Each key is in the bucket of its frequency and in no other, frequencies are positive, and the
  -- lowest is at least `min_freq`.
  pub record IsConsistent (c : LfuCache K V M) : Type 0 where
    pub agrees :
        (k : K) (f : ℕ) → member ops f k c.freq_to_keys ≡ freq_is f (lookup dec k c.key_to_entry)
    pub bounds :
        (k : K) (f : ℕ) (e : CacheEntry V)
        → lookup dec k c.key_to_entry ≡ some (f, e)
        → (1 ≤ f) × (c.min_freq ≤ f)

  agrees_placed :
      (k : K) (g : ℕ) (e : CacheEntry V) (bs bs' : List (ℕ × M))
      (es : List (K × (ℕ × CacheEntry V)))
      → ((q : K) (f : ℕ) → member ops f q bs ≡ freq_is f (lookup dec q es))
      → ((f : ℕ) → member ops f k bs' ≡ (g == f))
      → Others ops k bs bs'
      → (q : K) (f : ℕ) → member ops f q bs' ≡ freq_is f (lookup dec q (set dec k (g, e) es))
  agrees_placed k g e bs bs' es agrees placed others q f = elim (dec k q) [
    | yes p ↦
        subst (λ x. member ops f x bs' ≡ freq_is f (lookup dec x (set dec k (g, e) es))) p
          (placed f ∙ sym (ap (freq_is f) (lookup-set_self dec k (g, e) es)))
    | no ne ↦ others q f ne ∙ agrees q f ∙ sym (ap (freq_is f) (lookup-set_ne dec k q (g, e) es ne))
  ]

  agrees_dropped :
      (k : K) (bs bs' : List (ℕ × M)) (es : List (K × (ℕ × CacheEntry V)))
      → ((q : K) (f : ℕ) → member ops f q bs ≡ freq_is f (lookup dec q es))
      → ((f : ℕ) → member ops f k bs' ≡ false)
      → Others ops k bs bs'
      → (q : K) (f : ℕ) → member ops f q bs' ≡ freq_is f (lookup dec q (without dec k es))
  agrees_dropped k bs bs' es agrees dropped others q f = elim (dec k q) [
    | yes p ↦
        subst (λ x. member ops f x bs' ≡ freq_is f (lookup dec x (without dec k es))) p
          (dropped f ∙ sym (ap (freq_is f) (lookup-without_self dec k es)))
    | no ne ↦ others q f ne ∙ agrees q f ∙ sym (ap (freq_is f) (lookup-without_ne dec k q es ne))
  ]

  -- A key leaves both maps.
  pub dropped-IsConsistent :
      (c : LfuCache K V M) (k : K) (bs : List (ℕ × M))
      → IsConsistent c
      → ((f : ℕ) → member ops f k bs ≡ false)
      → Others ops k c.freq_to_keys bs
      → IsConsistent (record c { key_to_entry = without dec k c.key_to_entry; freq_to_keys = bs })
  dropped-IsConsistent c k bs h dropped others = record {
    agrees = agrees_dropped k c.freq_to_keys bs c.key_to_entry h.agrees dropped others;
    bounds = λ q f e there. elim (dec k q) [
      | yes p ↦
          let gone : lookup dec q (without dec k c.key_to_entry) ≡ none =
            subst (λ x. lookup dec x (without dec k c.key_to_entry) ≡ none) p
              (lookup-without_self dec k c.key_to_entry) in
          absurd (ground (arith, gone))
      | no ne ↦ h.bounds q f e (sym (lookup-without_ne dec k q c.key_to_entry ne) ∙ there)
    ];
  }

  -- A key enters both maps with a frequency, and `min_freq` is below it and the other frequencies.
  pub placed-IsConsistent :
      (c : LfuCache K V M) (k : K) (g least : ℕ) (e : CacheEntry V) (bs : List (ℕ × M))
      → IsConsistent c
      → ((f : ℕ) → member ops f k bs ≡ (g == f))
      → Others ops k c.freq_to_keys bs
      → 1 ≤ g
      → least ≤ g
      → ((q : K) (f : ℕ) (x : CacheEntry V)
          → k ≢ q
          → lookup dec q c.key_to_entry ≡ some (f, x)
          → least ≤ f)
      → IsConsistent (record c {
        key_to_entry = set dec k (g, e) c.key_to_entry;
        freq_to_keys = bs;
        min_freq = least;
      })
  placed-IsConsistent c k g least e bs h placed others positive low rest = record {
    agrees = agrees_placed k g e c.freq_to_keys bs c.key_to_entry h.agrees placed others;
    bounds = λ q f x there. elim (dec k q) [
      | yes p ↦
          let here : lookup dec q (set dec k (g, e) c.key_to_entry) ≡ some (g, e) =
            subst (λ y. lookup dec y (set dec k (g, e) c.key_to_entry) ≡ some (g, e)) p
              (lookup-set_self dec k (g, e) c.key_to_entry) in
          let same : g ≡ f = freq_unique _ g f e x here there in (omega arith, omega arith)
      | no ne ↦
          let old = sym (lookup-set_ne dec k q (g, e) c.key_to_entry ne) ∙ there in
          ((h.bounds q f x old).0, rest q f x ne old)
    ];
  }
