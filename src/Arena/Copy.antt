-- ===== src/Arena/Copy.antt =====
-- Strings in memory: `u8copy`, `news8`, `s8copy` and the buffers of `newmembuf` in src/u-config.c, and the
-- routines of src/memory.c.
pub mod Texts
pub mod Duplicate
pub mod Buffer
use u_config.Base.{
  ℕ, zero, suc, ◌+◌, ◌-◌, ◌%◌, [], ◌∷◌, Bytes, ltb, ◌==◌, if◌then◌else◌, Result, ok, fail,
  out_of_fuel, ◌>>=◌,
}
use u_config.Output.{oom}
use u_config.Arena.{Arena, Memory, write_byte, fillbytes, Allocated, alloc}

-- `u8copy len dst src m`
unfoldable pub u8copy : ℕ → ℕ → ℕ → Memory → Memory
unfolding write_byte
u8copy zero dst src m = m
u8copy (suc n) dst src m = u8copy n (dst + 1) (src + 1) (write_byte m dst (m src))

-- `memcpy n dst src m`
unfoldable pub memcpy : ℕ → ℕ → ℕ → Memory → Memory
unfolding write_byte
memcpy zero d s m = m
memcpy (suc n) d s m = memcpy n (d + 1) (s + 1) (write_byte m d (m s))

-- `memset n dst c m`
unfoldable pub memset : ℕ → ℕ → ℕ → Memory → Memory
unfolding write_byte
memset zero d c m = m
memset (suc n) d c m = memset n (d + 1) c (write_byte m d (c % 256))

-- `s8` as it is in memory.
pub record Slice : Type 0 where
  pub s : ℕ
  pub len : ℕ

pub record Copied : Type 0 where
  pub rest : Slice
  pub memory : Memory

-- The length of `dst` is at least that of `src`.
unfoldable pub s8copy : Slice → Slice → Memory → Copied
unfolding u8copy
s8copy dst src m = record {
  rest = record { s = dst.s + src.len; len = dst.len - src.len };
  memory = u8copy src.len dst.s src.s m;
}

pub record Placed : Type 0 where
  pub slice : Slice
  pub arena : Arena
  pub memory : Memory

unfoldable pub news8 : Arena → ℕ → Memory → Result Placed
unfolding alloc
news8 a len m = do
  r ← alloc a 1 len m
  ok (record { slice = record { s = r.block; len = len }; arena = r.arena; memory = r.memory })

-- `s8 copy = news8(a, name.len); s8copy(copy, name);`
unfoldable pub duplicate : Arena → Slice → Memory → Result Placed
unfolding news8 s8copy
duplicate a name m = do
  copy ← news8 a name.len m
  ok (record copy { memory = (s8copy copy.slice name copy.memory).memory })

-- A buffer in the space that an arena has left.
pub record Membuf : Type 0 where
  pub buf : ℕ
  pub cap : ℕ
  pub len : ℕ
  pub perm : Arena

unfoldable pub newmembuf : Arena → Membuf
newmembuf perm = record { buf = perm.beg; cap = perm.end - perm.beg; len = 0; perm = perm }

pub record Printed : Type 0 where
  pub to : Membuf
  pub memory : Memory

-- `if (b->len == b->cap) flush(b);`, where the descriptor is 0.
unfoldable pub not_full : Printed → Result Printed
unfolding oom
not_full p = if p.to.len == p.to.cap then fail oom else ok p

unfoldable pub prints8_loop : ℕ → ℕ → Membuf → Slice → Memory → Result Printed
unfolding u8copy not_full
prints8_loop f zero b s m = ok (record { to = b; memory = m })
prints8_loop zero (suc left) b s m = out_of_fuel
prints8_loop (suc f) (suc left) b s m =
    let avail = b.cap - b.len in
    let count = if ltb avail (suc left) then avail else suc left in
    let off = s.len - suc left in
    do
      p ← not_full (record {
        to = record b { len = b.len + count };
        memory = u8copy count (b.buf + b.len) (s.s + off) m;
      })
      prints8_loop f (suc left - count) p.to s p.memory

-- The bytes that are left of the string are counted, which is `s.len-off`.
unfoldable pub prints8 : Membuf → Slice → Memory → Result Printed
unfolding prints8_loop
prints8 b s m = prints8_loop s.len s.len b s m

unfoldable pub gets8 : Membuf → Slice
gets8 b = record { s = b.buf; len = b.len }

pub record Finalized : Type 0 where
  pub slice : Slice
  pub arena : Arena

unfoldable pub finalize : Membuf → Finalized
unfolding gets8
finalize b = record { slice = gets8 b; arena = record b.perm { beg = b.perm.beg + b.len } }
