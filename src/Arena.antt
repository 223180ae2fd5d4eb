-- ===== src/Arena.antt =====
-- The arena of src/u-config.c: `fillbytes`, `alloc`, and the part of memory that they write. Addresses
-- are natural numbers, and memory is a function of them.
pub mod Bounds
pub mod Copy
use u_config.Base.{
  ℕ, zero, suc, ◌+◌, ◌-◌, ◌*◌, ◌/◌, ◌%◌, ◌^◌, Bool, true, false, ◌||◌, ltb, leb, ◌==◌,
  if◌then◌else◌, Result, ok, fail, out_of_fuel,
}
use u_config.Output.{oom}

pub record Arena : Type 0 where
  pub beg : ℕ
  pub end : ℕ

abbrev pub Memory : Type 0
Memory = ℕ → ℕ

unfoldable pub write_byte : Memory → ℕ → ℕ → Memory
write_byte m a c = λ x. if x == a then c else m x

-- `fillbytes len dst c m`
unfoldable pub fillbytes : ℕ → ℕ → ℕ → Memory → Memory
unfolding write_byte
fillbytes zero dst c m = m
fillbytes (suc len) dst c m = fillbytes len (dst + 1) c (write_byte m dst c)

-- `-((u32)size * (u32)count) & 7`
unfoldable pub alignment : ℕ → ℕ → ℕ
alignment size count = (2 ^ 32 - size % 2 ^ 32 * (count % 2 ^ 32) % 2 ^ 32) % 2 ^ 32 % 8

-- `count > available/size`, where what is available is below 0 if the space is less than the alignment,
-- and a quotient is rounded towards 0.
unfoldable pub exceeds : ℕ → ℕ → ℕ → ℕ → Bool
exceeds space align size count =
    if leb align space
    then ltb ((space - align) / size) count
    else ltb 0 count || leb size (align - space)

pub record Allocated : Type 0 where
  pub block : ℕ
  pub arena : Arena
  pub memory : Memory

unfoldable pub alloc : Arena → ℕ → ℕ → Memory → Result Allocated
unfolding alignment exceeds fillbytes oom
alloc a size count m =
    let align = alignment size count in
    let total = size * count in
    let end = a.end - (total + align) in
    if exceeds (a.end - a.beg) align size count
    then fail oom
    else ok
        (record { block = end; arena = record a { end = end }; memory = fillbytes total end 0 m })
