-- ===== src/Trie.antt =====
-- The hash tries of src/u-config.c. `insert`, `locate` and `findargpos` are one algorithm over three
-- node types: the name at hand is compared, and the two top bits of the hash choose a child.
pub mod Laws
use Prim.Native.Nat.{bit_xor}
use u_config.Base.{
  ℕ, ◌*◌, ◌/◌, ◌%◌, ◌^◌, Bool, true, false, [], ◌∷◌, Bytes, ◌==◌, if◌then◌else◌, Option, none, some,
}
use u_config.S8.{s8equals}

abbrev pub u32_mod : ℕ
u32_mod = 2 ^ 32

unfoldable pub hash_step : ℕ → ℕ → ℕ
hash_step h c = bit_xor h c * 0x01000193 % u32_mod

unfoldable pub hash_from : ℕ → Bytes → ℕ
unfolding hash_step
hash_from h [] = h
hash_from h (c ∷ s) = hash_from (hash_step h c) s

unfoldable pub s8hash : Bytes → ℕ
unfolding hash_from
s8hash s = hash_from 0x811c9dc5 s

-- `h <<= 2`
unfoldable pub shift : ℕ → ℕ
shift h = h * 4 % u32_mod

-- `h>>30`, which is below 4 for a 32-bit `h`
pub data Quadrant : Type 0 where
  q0 q1 q2 q3 : Quadrant

unfoldable pub quadrant : ℕ → Quadrant
quadrant h =
    let i = h / 2 ^ 30 in if i == 0 then q0 else if i == 1 then q1 else if i == 2 then q2 else q3

-- A node has its name, its other fields and four children; `leaf` is the null pointer.
pub data Trie {ℓ} (V : Type ℓ) : Type ℓ where
  leaf : Trie V
  node : Bytes → V → Trie V → Trie V → Trie V → Trie V → Trie V

module _ {ℓ} {V : Type ℓ} where
  -- The search with no arena: what the pointer that it returns points to, or null.
  unfoldable pub find_at : ℕ → Bytes → Trie V → Option V
  find_at h name leaf = none
  find_at h name (node n v a b c d) =
      let below : Option V = elim (quadrant h) [
        | q0 ↦ find_at (shift h) name a
        | q1 ↦ find_at (shift h) name b
        | q2 ↦ find_at (shift h) name c
        | q3 ↦ find_at (shift h) name d
      ] in
      if s8equals n name then some v else below

  -- The search with an arena: a node with the fields `zeroed` is made where the search ends.
  unfoldable pub insert_at : ℕ → Bytes → V → Trie V → Trie V
  insert_at h name zeroed leaf = node name zeroed leaf leaf leaf leaf
  insert_at h name zeroed (node n v a b c d) =
      let below : Trie V = elim (quadrant h) [
        | q0 ↦ node n v (insert_at (shift h) name zeroed a) b c d
        | q1 ↦ node n v a (insert_at (shift h) name zeroed b) c d
        | q2 ↦ node n v a b (insert_at (shift h) name zeroed c) d
        | q3 ↦ node n v a b c (insert_at (shift h) name zeroed d)
      ] in
      if s8equals n name then node n v a b c d else below

  -- A write through the pointer that the search returns.
  unfoldable pub assign_at : ℕ → Bytes → V → Trie V → Trie V
  assign_at h name w leaf = leaf
  assign_at h name w (node n v a b c d) =
      let below : Trie V = elim (quadrant h) [
        | q0 ↦ node n v (assign_at (shift h) name w a) b c d
        | q1 ↦ node n v a (assign_at (shift h) name w b) c d
        | q2 ↦ node n v a b (assign_at (shift h) name w c) d
        | q3 ↦ node n v a b c (assign_at (shift h) name w d)
      ] in
      if s8equals n name then node n w a b c d else below

  unfoldable pub find : Bytes → Trie V → Option V
  unfolding find_at s8hash quadrant shift s8equals
  find name t = find_at (s8hash name) name t

  unfoldable pub insert : Bytes → V → Trie V → Trie V
  unfolding insert_at s8hash quadrant shift s8equals
  insert name zeroed t = insert_at (s8hash name) name zeroed t

  unfoldable pub assign : Bytes → V → Trie V → Trie V
  unfolding assign_at s8hash quadrant shift s8equals
  assign name w t = assign_at (s8hash name) name w t
