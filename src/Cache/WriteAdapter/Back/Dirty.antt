-- ===== src/Cache/WriteAdapter/Back/Dirty.antt =====
-- The set of dirty keys.
use oxistore.Common.{◌≡◌, ◌≢◌, refl, true, false, List, [], ◌∷◌, arith}
use oxistore.Common.Bytes.{Bytes}
use oxistore.Cache.WriteAdapter.Back.{is_dirty, mark, unmark}

is_dirty-cons_self : (k : Bytes) (l : List Bytes) → is_dirty k (k ∷ l) ≡ true
unfolding is_dirty
is_dirty-cons_self k l = ground arith

is_dirty-cons_ne : (k q : Bytes) (l : List Bytes) → k ≢ q → is_dirty q (k ∷ l) ≡ is_dirty q l
unfolding is_dirty
is_dirty-cons_ne k q l h = ground arith

pub is_dirty-mark_self : (k : Bytes) (l : List Bytes) → is_dirty k (mark k l) ≡ true
unfolding mark
is_dirty-mark_self k l = ground (arith, is_dirty-cons_self k l)

pub is_dirty-mark_ne : (k q : Bytes) (l : List Bytes) → k ≢ q → is_dirty q (mark k l) ≡ is_dirty q l
unfolding mark
is_dirty-mark_ne k q l h = ground (arith, is_dirty-cons_ne k q l)

pub is_dirty-unmark_self : (k : Bytes) (l : List Bytes) → is_dirty k (unmark k l) ≡ false
unfolding is_dirty unmark
is_dirty-unmark_self k [] = refl
is_dirty-unmark_self k (j ∷ l) = ground (arith, is_dirty-unmark_self k l)

pub is_dirty-unmark_ne :
    (k q : Bytes) (l : List Bytes) → k ≢ q → is_dirty q (unmark k l) ≡ is_dirty q l
unfolding is_dirty unmark
is_dirty-unmark_ne k q [] h = refl
is_dirty-unmark_ne k q (j ∷ l) h = ground (arith, is_dirty-unmark_ne k q l)

pub is_dirty_head :
    (j q : Bytes) (l : List Bytes) → j ≢ q → is_dirty q (j ∷ l) ≡ true → is_dirty q l ≡ true
unfolding is_dirty
is_dirty_head j q l h e = ground arith

pub is_dirty-nil : (q : Bytes) → is_dirty q [] ≡ false
unfolding is_dirty
is_dirty-nil q = refl
