-- ===== src/Arena/Bounds.antt =====
-- What `alloc` hands out.
use native.Mathlib.Nat.{le-div_iff_mul-le, mul_comm}
use u_config.Base.{
  ℕ, zero, suc, ◌+◌, ◌-◌, ◌*◌, ◌/◌, ◌%◌, ◌^◌, ◌≤◌, ◌<◌, true, false, ◌||◌, ltb, leb, ◌==◌, Result,
  ok, fail, out_of_fuel, ◌≡◌, refl, ap, ◌∙◌, ◌⊎◌, inl, inr, arith, Bool-cases,
}
use u_config.Output.{oom}
use u_config.Arena.{Arena, Memory, write_byte, fillbytes, alignment, exceeds, Allocated, alloc}

-- The bytes in the block are set, those around it are not changed.
pub record Fills (dst len c : ℕ) (m filled : Memory) : Type 0 where
  pub inside : (x : ℕ) → dst ≤ x → x < dst + len → filled x ≡ c
  pub outside : (x : ℕ) → (x < dst) ⊎ (dst + len ≤ x) → filled x ≡ m x

fillbytes-outside :
    (len dst c : ℕ) (m : Memory) (x : ℕ)
    → (x < dst) ⊎ (dst + len ≤ x)
    → fillbytes len dst c m x ≡ m x
unfolding fillbytes write_byte
fillbytes-outside zero dst c m x h = refl
fillbytes-outside (suc len) dst c m x (inl l) =
    fillbytes-outside len (dst + 1) c (write_byte m dst c) x (inl (omega arith)) ∙ ground arith
fillbytes-outside (suc len) dst c m x (inr l) =
    fillbytes-outside len (dst + 1) c (write_byte m dst c) x (inr (omega arith)) ∙ ground arith

fillbytes-inside :
    (len dst c : ℕ) (m : Memory) (x : ℕ) → dst ≤ x → x < dst + len → fillbytes len dst c m x ≡ c
unfolding fillbytes write_byte
fillbytes-inside zero dst c m x l h = ground arith
fillbytes-inside (suc len) dst c m x l h = elim (Bool-cases (x == dst)) [
  | inl e ↦
      fillbytes-outside len (dst + 1) c (write_byte m dst c) x (inl (ground arith)) ∙ ground arith
  | inr n ↦ fillbytes-inside len (dst + 1) c (write_byte m dst c) x (ground arith) (omega arith)
]

fillbytes-Fills : (len dst c : ℕ) (m : Memory) → Fills dst len c m (fillbytes len dst c m)
fillbytes-Fills len dst c m = record {
  inside = fillbytes-inside len dst c m;
  outside = fillbytes-outside len dst c m;
}

product_mod : (a b p q s t : ℕ) → a ≡ 8 * p + s → b ≡ 8 * q + t → (k : ℕ) × (a * b ≡ 8 * k + s * t)
product_mod a b p q s t e f =
    let first : (8 * p + s) * b ≡ 8 * (p * b) + s * b = ground arith in
    let second : s * (8 * q + t) ≡ 8 * (s * q) + s * t = ground arith in
    (
      p * b + s * q,
      ap (λ x. x * b) e
          ∙ first
          ∙ (let third : s * b ≡ 8 * (s * q) + s * t = ap (λ x. s * x) f ∙ second in
              omega (arith, third)),
    )

bits :
    (n k p : ℕ)
    → n ≡ 8 * k + p
    → ((2 ^ 32 - p % 2 ^ 32) % 2 ^ 32 % 8 < 8) × ((n + (2 ^ 32 - p % 2 ^ 32) % 2 ^ 32 % 8) % 8 ≡ 0)
bits n k p e = (omega arith, omega (arith, e))

-- The product in 32 bits has the same last three bits, so that the size of a block is a multiple of 8.
alignment-fits :
    (size count : ℕ) → (alignment size count < 8) × ((size * count + alignment size count) % 8 ≡ 0)
unfolding alignment
alignment-fits size count =
    let s = size % 2 ^ 32 in
    let t = count % 2 ^ 32 in
    let (k, e) =
      product_mod size count (2 ^ 29 * (size / 2 ^ 32)) (2 ^ 29 * (count / 2 ^ 32)) s t
        (omega arith) (omega arith) in
    bits (size * count) k (s * t) e

-- `pad` is what rounds the size up to a multiple of 8.
abbrev pub Rounds : ℕ → ℕ → Type 0
Rounds n pad = (pad < 8) × ((n + pad) % 8 ≡ 0)

-- The test of `alloc` compares the space with what is taken, also where the space is less than the
-- alignment.
exceeds-compare :
    (space align size count : ℕ)
    → 0 < size
    → Rounds (size * count) align
    → (exceeds space align size count ≡ true) × (space < size * count + align)
      ⊎ (exceeds space align size count ≡ false) × (size * count + align ≤ space)
unfolding exceeds
exceeds-compare space align size count p (l, r) = elim (Bool-cases (leb align space)) [
  | inl e ↦
      let (into, back) = le-div_iff_mul-le {k = size} {x = count} {y = space - align} p in
      let swap = mul_comm count size in
      elim (Bool-cases (ltb ((space - align) / size) count)) [
        | inl over ↦ elim (Bool-cases (leb (size * count + align) space)) [
          | inl room ↦
              let fits : count ≤ (space - align) / size = back (ground (arith, swap)) in
              ground arith
          | inr more ↦ inl (rw e over, ground arith)
        ]
        | inr fits ↦ let room = into (ground arith) in inr (rw e fits, ground (arith, swap))
      ]
  | inr n ↦ elim (Bool-cases (ltb 0 count || leb size (align - space))) [
    | inl e ↦ inl (rw n e, ground arith)
    | inr e ↦
        let none_asked : count ≡ 0 = ground arith in
        let no_size : size * count ≡ 0 =
          ap (λ k. size * k) none_asked
          ∙ mul_comm size 0
          ∙ (let z : 0 * size ≡ 0 = omega arith in z) in
        ground arith
  ]
]

-- A block of an arena, rounded up and taken from the arena's end: the bytes that were asked for are 0, and
-- those that it is rounded up by are left as they were.
pub record IsBlock (a : Arena) (size count : ℕ) (m : Memory) (r : Allocated) : Type 0 where
  pub pad : ℕ
  pub rounds : Rounds (size * count) pad
  pub at_end : r.block + (size * count + pad) ≡ a.end
  pub from : a.beg ≤ r.block
  pub rest : r.arena ≡ record a { end = r.block }
  pub zeros : Fills r.block (size * count) 0 m r.memory

abbrev pub Allocates : Arena → ℕ → ℕ → Memory → Result Allocated → Type 0
Allocates a size count m (ok r) = IsBlock a size count m r
Allocates a size count m (fail e) =
    (e ≡ oom) × ((pad : ℕ) × Rounds (size * count) pad × (a.end - a.beg < size * count + pad))
Allocates a size count m out_of_fuel = 0 < 0

-- For any size above 0 and any count, `alloc` either takes a block from the end of the arena, of the
-- product rounded up to a multiple of 8 bytes, within the arena, with as many of its first bytes 0 as the
-- product and no other byte changed; or the arena has less space than that, and it fails with the message.
-- The 32-bit product that the alignment is computed from may wrap around.
pub alloc-Allocates :
    (a : Arena) (size count : ℕ) (m : Memory)
    → a.beg ≤ a.end
    → 0 < size
    → Allocates a size count m (alloc a size count m)
unfolding alloc
alloc-Allocates a size count m l p =
    let align = alignment size count in
    let rounds = alignment-fits size count in
    elim (exceeds-compare (a.end - a.beg) align size count p rounds) [
      | inl (e, over) ↦ rw e (refl, (align, rounds, over))
      | inr (e, fits) ↦ rw e (record {
        pad = align;
        rounds = rounds;
        at_end = omega (arith, fits, l);
        from = omega (arith, fits, l);
        rest = refl;
        zeros = fillbytes-Fills (size * count) (a.end - (size * count + align)) 0 m;
      })
    ]
