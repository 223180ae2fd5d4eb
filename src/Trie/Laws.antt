-- ===== src/Trie/Laws.antt =====
-- A trie is a map from names: what is found after an insertion and after a write. None of this rests
-- on the hash function.
use u_config.Base.{
  ℕ, ◌<◌, false, [], ◌∷◌, Bytes, ◌≡◌, refl, ◌≢◌, if◌then◌else◌, Option, none, some, arith,
  Bool-cases, inl, inr,
}
use u_config.S8.{s8equals}
use u_config.S8.Laws.{s8equals_iff, s8equals_refl}
use u_config.Trie.{
  hash_from, hash_step, s8hash, u32_mod, shift, Trie, leaf, node, find_at, insert_at, assign_at,
  find, insert, assign,
}

abbrev pub or_zeroed {ℓ} : {V : Type ℓ} → Option V → V → V
or_zeroed none z = z
or_zeroed (some v) z = v

abbrev pub overwrite {ℓ} : {V : Type ℓ} → Option V → V → Option V
overwrite none w = none
overwrite (some v) w = some w

module _ {ℓ} {V : Type ℓ} where
  find_at-insert_at_self :
      (h : ℕ) (name : Bytes) (z : V) (t : Trie V)
      → find_at h name (insert_at h name z t) ≡ some (or_zeroed (find_at h name t) z)
  unfolding find_at insert_at
  find_at-insert_at_self h name z leaf = rw (s8equals_refl name)
  find_at-insert_at_self h name z (node n v a b c d) = ground (
    arith,
    find_at-insert_at_self (shift h) name z a,
    find_at-insert_at_self (shift h) name z b,
    find_at-insert_at_self (shift h) name z c,
    find_at-insert_at_self (shift h) name z d,
  )

  find_at-insert_at_other :
      (h k : ℕ) (name other : Bytes) (z : V) (t : Trie V)
      → s8equals name other ≡ false
      → find_at k other (insert_at h name z t) ≡ find_at k other t
  unfolding find_at insert_at
  find_at-insert_at_other h k name other z leaf e = ground arith
  find_at-insert_at_other h k name other z (node n v a b c d) e = ground (
    arith,
    find_at-insert_at_other (shift h) (shift k) name other z a e,
    find_at-insert_at_other (shift h) (shift k) name other z b e,
    find_at-insert_at_other (shift h) (shift k) name other z c e,
    find_at-insert_at_other (shift h) (shift k) name other z d e,
  )

  find_at-assign_at_self :
      (h : ℕ) (name : Bytes) (w : V) (t : Trie V)
      → find_at h name (assign_at h name w t) ≡ overwrite (find_at h name t) w
  unfolding find_at assign_at
  find_at-assign_at_self h name w leaf = refl
  find_at-assign_at_self h name w (node n v a b c d) = ground (
    arith,
    find_at-assign_at_self (shift h) name w a,
    find_at-assign_at_self (shift h) name w b,
    find_at-assign_at_self (shift h) name w c,
    find_at-assign_at_self (shift h) name w d,
  )

  find_at-assign_at_other :
      (h k : ℕ) (name other : Bytes) (w : V) (t : Trie V)
      → name ≢ other
      → find_at k other (assign_at h name w t) ≡ find_at k other t
  unfolding find_at assign_at
  find_at-assign_at_other h k name other w leaf e = refl
  find_at-assign_at_other h k name other w (node n v a b c d) e = ground (
    arith,
    s8equals_iff n name,
    s8equals_iff n other,
    find_at-assign_at_other (shift h) (shift k) name other w a e,
    find_at-assign_at_other (shift h) (shift k) name other w b e,
    find_at-assign_at_other (shift h) (shift k) name other w c e,
    find_at-assign_at_other (shift h) (shift k) name other w d e,
  )

  -- After an insertion the name is bound, to what it was bound to or to a zeroed value, and no other
  -- name is touched.
  pub find-insert :
      (name other : Bytes) (z : V) (t : Trie V)
      → find other (insert name z t)
        ≡ (if s8equals name other then some (or_zeroed (find name t) z) else find other t)
  unfolding find insert
  find-insert name other z t = elim (Bool-cases (s8equals name other)) [
    | inl e ↦
        rw e (rw (← (s8equals_iff name other).0 e) (find_at-insert_at_self (s8hash name) name z t))
    | inr n ↦ rw n (find_at-insert_at_other (s8hash name) (s8hash other) name other z t n)
  ]

  -- A write changes the value of a name that is bound, and nothing else.
  pub find-assign :
      (name other : Bytes) (w : V) (t : Trie V)
      → find other (assign name w t)
        ≡ (if s8equals name other then overwrite (find name t) w else find other t)
  unfolding find assign
  find-assign name other w t = elim (Bool-cases (s8equals name other)) [
    | inl e ↦
        rw e (rw (← (s8equals_iff name other).0 e) (find_at-assign_at_self (s8hash name) name w t))
    | inr n ↦ rw n (
        find_at-assign_at_other (s8hash name) (s8hash other) name other w t
          (λ e. ground (arith, s8equals_iff name other)))
  ]

  pub find-leaf : (name : Bytes) → find {V = V} name leaf ≡ none
  unfolding find find_at
  find-leaf name = refl

hash_from-lt : (s : Bytes) (h : ℕ) → h < u32_mod → hash_from h s < u32_mod
unfolding hash_from hash_step
hash_from-lt [] h l = l
hash_from-lt (c ∷ s) h l = hash_from-lt s (hash_step h c) (omega arith)

-- A hash is a 32-bit number, so that its two top bits are one of the four children.
pub s8hash-lt : (s : Bytes) → s8hash s < u32_mod
unfolding s8hash
s8hash-lt s = hash_from-lt s 0x811c9dc5 (omega arith)
