-- ===== src/Wasm/Files.antt =====
-- `os_mapfile` and `os_write` of main_wasm.c.
pub mod Whole
use u_config.Base.{
  ℕ, [], ◌∷◌, Bytes, List, ◌==◌, if◌then◌else◌, codes, true, false, length, take, Option, none,
  some,
}
use u_config.S8.{cuttail}
use u_config.Load.{Filemap, found, not_found, read_error}
use u_config.Platform.{Wrote, sent, failed}
use u_config.Wasm.{Dirfd, Relpath, find_dirfd}

-- What one call of fd_read gives of a file: `none` where it fails.
unfoldable pub read_whole : ℕ → Bytes → Option ℕ → Filemap
read_whole cap file none = read_error
read_whole cap file (some len) = if len == cap then read_error else found (take len file)

-- `path_open fd path` is the file with the path below the directory that is open with the descriptor,
-- `none` where it cannot be opened. `fd_read len left` is the number of bytes that a call gives which is
-- asked for `len` bytes of a file with `left` bytes.
module _ (path_open : ℕ → Bytes → Option Bytes) (fd_read : ℕ → ℕ → Option ℕ) where
  unfoldable pub read_opened : ℕ → Option Bytes → Filemap
  unfolding read_whole
  read_opened cap none = not_found
  read_opened cap (some file) = read_whole cap file (fd_read cap (length file))

  unfoldable pub open_at : ℕ → Option Relpath → Filemap
  unfolding read_opened
  open_at cap none = not_found
  open_at cap (some rel) = read_opened cap (path_open rel.fd rel.relpath)

  unfoldable pub os_mapfile : List Dirfd → ℕ → Bytes → Filemap
  unfolding open_at find_dirfd cuttail
  os_mapfile dirs cap path = open_at cap (find_dirfd dirs (cuttail path 1))

-- `fd_write len` is the number of bytes that the only call takes, `none` where it fails.
unfoldable pub written : Bytes → Option ℕ → Wrote
written s none = failed []
written s (some len) = sent (take len s)

unfoldable pub os_write : (ℕ → Option ℕ) → Bytes → Wrote
unfolding written
os_write fd_write s = written s (fd_write (length s))
