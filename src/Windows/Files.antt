-- ===== src/Windows/Files.antt =====
-- `os_mapfile` and `os_listing` of main_windows.c. The calls of the system are parameters.
pub mod Found
pub mod Whole
use u_config.Base.{
  ℕ, ◌+◌, ◌-◌, [], ◌∷◌, ◌++◌, Bytes, List, ltb, ◌==◌, if◌then◌else◌, codes, map, length, take,
  Option, none, some,
}
use u_config.S8.{cuttail}
use u_config.Load.{Filemap}
use u_config.Platform.{os_mapfile as posix_mapfile}
use u_config.Windows.Unicode.{Units, towide, fromwide}

unfoldable pub truncsize : ℕ → ℕ
truncsize len = if ltb 0x7fffffff len then 0x7fffffff else len

-- `read_file n len left` are the bytes that the call of ReadFile with the number `n` gives when it is
-- asked for `len` bytes of a file with `left` bytes left: 0 at the end and where it fails.
module _ (create_file : Units → Option Bytes) (read_file : ℕ → ℕ → ℕ → ℕ) where
  -- The loop is that of src/linux_noarch.c, with `truncsize` of what is left of the space.
  unfoldable pub os_mapfile : ℕ → Bytes → Filemap
  unfolding towide posix_mapfile truncsize
  os_mapfile cap path =
      posix_mapfile (λ n len left. read_file n (truncsize len) left) cap (create_file (towide path))

-- `for (; name.s[name.len]; name.len++) {}`: the units before the terminator.
unfoldable pub wide_name : Units → Units
wide_name [] = []
wide_name (u ∷ w) = let name = wide_name w in if u == 0 then [] else u ∷ name

unfoldable pub glob_of : Bytes → Bytes
unfolding cuttail
glob_of path = cuttail path 1 ++ (codes "\\*.pc" ++ (0 ∷ []))

-- `do { } while (FindNextFileW(handle, &fd));`
unfoldable pub found_files : List Units → List Bytes
unfolding wide_name fromwide
found_files [] = []
found_files (name ∷ names) = fromwide (wide_name name) ∷ found_files names

-- `find_files glob` are the buffers for the names that FindFirstFileW and the calls of FindNextFileW give,
-- none where the first fails.
unfoldable pub os_listing : (Units → List Units) → Bytes → List Bytes
unfolding found_files towide glob_of
os_listing find_files path = found_files (find_files (towide (glob_of path)))
