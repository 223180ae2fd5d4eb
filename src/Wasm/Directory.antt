-- ===== src/Wasm/Directory.antt =====
-- `os_listing` of main_wasm.c, which reads the entries of a directory from a buffer.
pub mod Entries
pub mod Serves
use u_config.Base.{
  ℕ, zero, suc, ◌+◌, ◌-◌, ◌^◌, Bool, true, false, [], ◌∷◌, ◌++◌, Bytes, List, if◌then◌else◌, ltb,
  leb, length, take, drop, Option, none, some,
}
use u_config.S8.{cuttail}
use u_config.Platform.Little.{little}
use u_config.Platform.Directory.{add_package}
use u_config.Wasm.{Dirfd, Relpath, find_dirfd}

-- The files found and the last cookie; or the program reads before the buffer, where a length below 0
-- moved the offset back; or the model's fuel is spent.
pub data Scan : Type 0 where
  scanned : List Bytes → ℕ → Scan
  outside : Scan
  out_of_fuel : Scan

-- `for (iz off = 0; off < len;)`: `buf` is the memory from the start of the buffer, of which `len` bytes
-- were written by the call. The length of a name is an `i32`: from 2 ^ 31 on it is below 0, by
-- 2 ^ 32 - size, and then the name ends in nothing. An offset from 2 ^ 31 on, which overflows in
-- the source, is one behind the reply here.
unfoldable pub entries_loop : ℕ → List Bytes → ℕ → Bytes → ℕ → ℕ → Scan
unfolding little add_package
entries_loop zero files cookie buf len off =
    if leb len off then scanned files cookie else out_of_fuel
entries_loop (suc f) files cookie buf len off =
    let entry = drop off buf in
    let size = little 4 (drop 16 entry) in
    let end = off + 24 + size in
    let back = off + 24 + size - 2 ^ 32 in
    let next =
      entries_loop f (add_package files (take size (drop 24 entry))) (little 8 entry) buf len end in
    let again = entries_loop f files (little 8 entry) buf len back in
    if leb len off
    then scanned files cookie
    else if ltb size (2 ^ 31)
    then (if ltb len end then scanned files cookie else next)
    else if ltb end (2 ^ 32)
    then outside
    else if ltb len back
    then scanned files cookie
    else again

pub data Listing : Type 0 where
  listed : List Bytes → Listing
  outside : Listing
  out_of_fuel : Listing

-- The rounds of `for (;;)` behind the entries of a call.
unfoldable pub with_entries : Scan → (List Bytes → ℕ → Listing) → Listing
with_entries (scanned files cookie) next = next files cookie
with_entries Scan.outside next = Listing.outside
with_entries Scan.out_of_fuel next = Listing.out_of_fuel

-- What a call of fd_readdir wrote, `none` where it fails, and what stands in memory behind that.
unfoldable pub with_reply :
    Option Bytes → Bytes → List Bytes → ℕ → (List Bytes → ℕ → Listing) → Listing
unfolding entries_loop with_entries
with_reply none behind files cookie next = listed files
with_reply (some []) behind files cookie next = listed files
with_reply (some (c ∷ reply)) behind files cookie next =
    with_entries
      (entries_loop (suc (length reply)) files cookie ((c ∷ reply) ++ behind) (suc (length reply))
        0)
      next

-- `fd_readdir cookie` is what a call writes that starts behind the entry with the cookie, `behind cookie`
-- the memory behind it. The fuel bounds the number of calls.
module _ (fd_readdir : ℕ → Option Bytes) (behind : ℕ → Bytes) where
  unfoldable pub readdir_loop : ℕ → List Bytes → ℕ → Listing
  unfolding with_reply
  readdir_loop zero files cookie = Listing.out_of_fuel
  readdir_loop (suc f) files cookie =
      with_reply (fd_readdir cookie) (behind cookie) files cookie (readdir_loop f)

-- `path_open fd path` is the directory that is opened, by its replies.
unfoldable pub opened_listing : ℕ → (ℕ → Bytes) → Option (ℕ → Option Bytes) → Listing
unfolding readdir_loop
opened_listing fuel behind none = listed []
opened_listing fuel behind (some fd_readdir) = readdir_loop fd_readdir behind fuel [] 0

module _ (path_open : ℕ → Bytes → Option (ℕ → Option Bytes)) (behind : ℕ → Bytes) where
  unfoldable pub listing_at : ℕ → Option Relpath → Listing
  unfolding opened_listing
  listing_at fuel none = listed []
  listing_at fuel (some rel) = opened_listing fuel behind (path_open rel.fd rel.relpath)

  unfoldable pub wasm_listing : List Dirfd → ℕ → Bytes → Listing
  unfolding listing_at find_dirfd cuttail
  wasm_listing dirs fuel path = listing_at fuel (find_dirfd dirs (cuttail path 1))
