-- ===== src/Output.antt =====
-- The output buffers of src/u-config.c: `u8buf`, `flush` and `prints8`.
pub mod Chunks
pub mod Laws
use u_config.Base.{
  ℕ, zero, suc, ◌+◌, ◌-◌, Bool, true, false, [], ◌∷◌, ◌++◌, Bytes, List, ltb, ◌==◌, if◌then◌else◌,
  codes, length, take, drop, Result, ok, fail, out_of_fuel, ◌>>=◌,
}

-- `fd`: -1, 0 or a descriptor.
pub data Sink : Type 0 where
  null_out memory file : Sink

-- `buf` holds the bytes up to `len`; `written` is what went to `os_write` for the descriptor, one
-- string for each call.
pub record U8buf : Type 0 where
  pub buf : Bytes
  pub cap : ℕ
  pub fd : Sink
  pub written : List Bytes

unfoldable pub newfdbuf : ℕ → U8buf
newfdbuf cap = record { buf = []; cap = cap; fd = file; written = [] }

unfoldable pub newnullout : U8buf
newnullout = record { buf = []; cap = 0; fd = null_out; written = [] }

-- The capacity is what the arena has left.
unfoldable pub newmembuf : ℕ → U8buf
newmembuf cap = record { buf = []; cap = cap; fd = memory; written = [] }

unfoldable pub oom : Bytes
oom = codes "pkg-config: out of memory\n"

-- `if (b->len) os_write(...)`
unfoldable pub os_write : List Bytes → Bytes → List Bytes
os_write written [] = written
os_write written (c ∷ buf) = written ++ ((c ∷ buf) ∷ [])

unfoldable pub flush_to : Sink → U8buf → Result U8buf
unfolding os_write oom
flush_to null_out b = ok (record b { buf = [] })
flush_to memory b = fail oom
flush_to file b = ok (record b { buf = []; written = os_write b.written b.buf })

unfoldable pub flush : U8buf → Result U8buf
unfolding flush_to
flush b = flush_to b.fd b

unfoldable pub filled : U8buf → Result U8buf
unfolding flush
filled b = if length b.buf == b.cap then flush b else ok b

-- `for (iz off = 0; off < s.len;)`
unfoldable pub prints8_loop : ℕ → U8buf → Bytes → Result U8buf
unfolding filled
prints8_loop f b [] = ok b
prints8_loop zero b (c ∷ s) = out_of_fuel
prints8_loop (suc f) b (c ∷ s) =
    let avail = b.cap - length b.buf in
    let left = suc (length s) in
    let count = if ltb avail left then avail else left in
    do
      b' ← filled (record b { buf = b.buf ++ take count (c ∷ s) })
      prints8_loop f b' (drop count (c ∷ s))

unfoldable pub prints8_to : Sink → U8buf → Bytes → Result U8buf
unfolding prints8_loop
prints8_to null_out b s = ok b
prints8_to memory b s = prints8_loop (length s) b s
prints8_to file b s = prints8_loop (length s) b s

unfoldable pub prints8 : U8buf → Bytes → Result U8buf
unfolding prints8_to
prints8 b s = prints8_to b.fd b s

unfoldable pub printu8 : U8buf → ℕ → Result U8buf
unfolding prints8
printu8 b c = prints8 b (c ∷ [])
