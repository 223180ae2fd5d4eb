-- ===== src/Platform.antt =====
-- The POSIX and Linux platform layers, main_posix.c and src/linux_noarch.c: `os_write`,
-- `os_mapfile` and `os_listing`, which the two files write alike. The kernel is a parameter.
-- Platform/Environment holds how each of them makes the configuration.
pub mod Write
pub mod Map
pub mod Environment
pub mod Variables
pub mod Little
pub mod Directory
pub mod Start
use u_config.Base.{
  ℕ, zero, suc, ◌+◌, ◌-◌, Bool, true, false, ◌&&◌, [], ◌∷◌, ◌++◌, Bytes, List, ltb, leb, ◌==◌,
  if◌then◌else◌, codes, length, take, drop, Option, none, some,
}
use u_config.S8.{s8equals, taketail}
use u_config.Load.{Filemap, found, not_found, read_error}

-- What the calls of `write` took of a string: all of it, or what they took before one that failed.
pub data Wrote : Type 0 where
  sent : Bytes → Wrote
  failed : Bytes → Wrote
  out_of_fuel : Wrote

-- `write n len` is what the call with the number `n` returns when it is given `len` bytes: the bytes
-- that it took, `none` for a number below 0.
module _ (write : ℕ → ℕ → Option ℕ) where
  unfoldable pub os_write_loop : ℕ → ℕ → Bytes → Bytes → Wrote
  os_write_loop f n taken [] = sent taken
  os_write_loop zero n taken (c ∷ s) = out_of_fuel
  os_write_loop (suc f) n taken (c ∷ s) = elim (write n (suc (length s))) [
    | none ↦ failed taken
    | some r ↦ os_write_loop f (n + 1) (taken ++ take r (c ∷ s)) (drop r (c ∷ s))
  ]

  -- A call that takes a byte at least leaves fewer rounds than there are bytes.
  unfoldable pub os_write : Bytes → Wrote
  unfolding os_write_loop
  os_write s = os_write_loop (length s) 0 [] s

-- `read n len left` is what the call with the number `n` returns when it is asked for `len` bytes of a
-- file with `left` bytes left: the bytes that it gave, 0 at the end and where it failed.
module _ (read : ℕ → ℕ → ℕ → ℕ) where
  unfoldable pub read_loop : ℕ → ℕ → ℕ → Bytes → Bytes → Bytes
  read_loop zero n cap got file = got
  read_loop (suc f) n cap got file =
      let len = read n (cap - length got) (length file) in
      let more = read_loop f (n + 1) cap (got ++ take len file) (drop len file) in
      if ltb (length got) cap then (if ltb len 1 then got else more) else got

  -- `if (r.data.len == cap)`
  unfoldable pub mapped : ℕ → Bytes → Filemap
  mapped cap got = if length got == cap then read_error else found got

  -- `none` is a file that cannot be opened. A round gives a byte at least, or it is the last.
  unfoldable pub os_mapfile : ℕ → Option Bytes → Filemap
  unfolding mapped read_loop
  os_mapfile cap none = not_found
  os_mapfile cap (some file) = mapped cap (read_loop (suc cap) 0 cap [] file)

unfoldable pub endswith : Bytes → Bytes → Bool
unfolding s8equals taketail
endswith s suffix = leb (length suffix) (length s) && s8equals (taketail s (length suffix)) suffix

-- The names of a directory's entries that are listed; `none` is a directory that cannot be opened.
unfoldable pub listing_loop : List Bytes → List Bytes
unfolding endswith
listing_loop [] = []
listing_loop (name ∷ names) =
    let files = listing_loop names in if endswith name (codes ".pc") then name ∷ files else files

unfoldable pub os_listing : Option (List Bytes) → List Bytes
unfolding listing_loop
os_listing none = []
os_listing (some names) = listing_loop names
