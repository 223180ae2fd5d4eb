-- ===== src/Args/Index.antt =====
-- Where an argument stands in a list: whether at all, first, and last.
use u_config.Base.{
  ℕ, suc, ◌≤◌, Bool, true, false, not, ◌||◌, [], ◌∷◌, ◌++◌, Bytes, List, ◌≡◌, arith, if◌then◌else◌,
  length, ◌==◌,
}
use u_config.S8.{s8equals}
use u_config.S8.Laws.{s8equals_refl}

unfoldable pub mem : Bytes → List Bytes → Bool
mem a [] = false
mem a (b ∷ bs) = s8equals b a || mem a bs

unfoldable pub first_index : Bytes → List Bytes → ℕ
first_index a [] = 0
first_index a (b ∷ bs) = if s8equals b a then 0 else suc (first_index a bs)

unfoldable pub last_index : Bytes → List Bytes → ℕ
unfolding mem
last_index a [] = 0
last_index a (b ∷ bs) = if mem a bs then suc (last_index a bs) else 0

pub mem-concat : (a b : Bytes) (l : List Bytes) → mem a (l ++ (b ∷ [])) ≡ (mem a l || s8equals b a)
unfolding mem
mem-concat a b [] = ground arith
mem-concat a b (c ∷ l) = ground (arith, mem-concat a b l)

pub first_index-concat :
    (a b : Bytes) (l : List Bytes)
    → first_index a (l ++ (b ∷ []))
      ≡ (if mem a l then first_index a l else if s8equals b a then length l else suc (length l))
unfolding mem first_index
first_index-concat a b [] = ground arith
first_index-concat a b (c ∷ l) = ground (arith, first_index-concat a b l)

pub last_index-concat :
    (a b : Bytes) (l : List Bytes)
    → last_index a (l ++ (b ∷ [])) ≡ (if s8equals b a then length l else last_index a l)
unfolding mem last_index
last_index-concat a b [] = ground arith
last_index-concat a b (c ∷ l) = ground (arith, last_index-concat a b l, mem-concat a b l)

pub mem-middle : (a : Bytes) (l m : List Bytes) → mem a (l ++ (a ∷ m)) ≡ true
unfolding mem
mem-middle a [] m = ground (arith, s8equals_refl a)
mem-middle a (c ∷ l) m = ground (arith, mem-middle a l m)

first_index-le : (a : Bytes) (l m : List Bytes) → first_index a (l ++ (a ∷ m)) ≤ length l
unfolding first_index
first_index-le a [] m = ground (arith, s8equals_refl a)
first_index-le a (c ∷ l) m = ground (arith, first_index-le a l m)

-- An occurrence is the first one exactly where none stands before it.
pub first_index-middle :
    (a : Bytes) (l m : List Bytes) → (first_index a (l ++ (a ∷ m)) == length l) ≡ not (mem a l)
unfolding mem first_index
first_index-middle a [] m = ground (arith, s8equals_refl a)
first_index-middle a (c ∷ l) m = ground (arith, first_index-middle a l m)

-- An occurrence is the last one exactly where none stands behind it.
pub last_index-middle :
    (a : Bytes) (l m : List Bytes) → (last_index a (l ++ (a ∷ m)) == length l) ≡ not (mem a m)
unfolding mem last_index
last_index-middle a [] m = ground arith
last_index-middle a (c ∷ l) m = ground (arith, last_index-middle a l m, mem-middle a l m)
