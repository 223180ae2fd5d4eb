-- ===== src/Wasm/Files/Whole.antt =====
-- When one call for a file is enough.
use u_config.Base.{
  ℕ, min, true, false, Bytes, List, ◌==◌, ltb, if◌then◌else◌, length, Option, none, some, ◌≡◌, refl,
  sym, ap, ◌∙◌, arith, Bool-cases, inl, inr, take-length,
}
use u_config.S8.{cuttail}
use u_config.Load.{found, read_error}
use u_config.Platform.{os_mapfile as posix_mapfile}
use u_config.Platform.Map.{Gives, os_mapfile-found}
use u_config.Wasm.{Dirfd, Relpath, find_dirfd}
use u_config.Wasm.Files.{read_whole, read_opened, open_at, os_mapfile}

-- The file that a path leads to, when it can be opened.
abbrev pub file_at : (ℕ → Bytes → Option Bytes) → Option Relpath → Option Bytes
file_at path_open none = none
file_at path_open (some rel) = path_open rel.fd rel.relpath

read_whole-min :
    (cap : ℕ) (file : Bytes)
    → read_whole cap file (some (min cap (length file)))
      ≡ (if ltb (length file) cap then found file else read_error)
unfolding read_whole
read_whole-min cap file = elim (Bool-cases (ltb (length file) cap)) [
  | inl short ↦
      let less : min cap (length file) ≡ length file = ground arith in
      let differ : (length file == cap) ≡ false = ground arith in
      rw (less, differ, short, take-length file) refl
  | inr long ↦
      let full : (min cap (length file) == cap) ≡ true = ground arith in rw (full, long) refl
]

module _ (path_open : ℕ → Bytes → Option Bytes) (fd_read : ℕ → ℕ → Option ℕ) where
  read_opened-os_mapfile :
      (read : ℕ → ℕ → ℕ → ℕ) (cap : ℕ) (file : Option Bytes)
      → Gives read
      → ((len left : ℕ) → fd_read len left ≡ some (min len left))
      → read_opened path_open fd_read cap file ≡ posix_mapfile read cap file
  unfolding read_opened posix_mapfile
  read_opened-os_mapfile read cap none h r = refl
  read_opened-os_mapfile read cap (some file) h r =
      ap (read_whole cap file) (r cap (length file))
      ∙ read_whole-min cap file
      ∙ sym (os_mapfile-found read h cap file)

  open_at-os_mapfile :
      (read : ℕ → ℕ → ℕ → ℕ) (cap : ℕ) (rel : Option Relpath)
      → Gives read
      → ((len left : ℕ) → fd_read len left ≡ some (min len left))
      → open_at path_open fd_read cap rel ≡ posix_mapfile read cap (file_at path_open rel)
  unfolding open_at posix_mapfile
  open_at-os_mapfile read cap none h r = refl
  open_at-os_mapfile read cap (some rel) h r =
      read_opened-os_mapfile read cap (path_open rel.fd rel.relpath) h r

  -- Where a call of fd_read gives all that is asked for and there, the mapped file is the one that POSIX
  -- maps in reads of any size, for the file that the path without its terminator is resolved to.
  pub os_mapfile-os_mapfile :
      (read : ℕ → ℕ → ℕ → ℕ) (dirs : List Dirfd) (cap : ℕ) (path : Bytes)
      → Gives read
      → ((len left : ℕ) → fd_read len left ≡ some (min len left))
      → os_mapfile path_open fd_read dirs cap path
        ≡ posix_mapfile read cap (file_at path_open (find_dirfd dirs (cuttail path 1)))
  unfolding os_mapfile
  os_mapfile-os_mapfile read dirs cap path h r =
      open_at-os_mapfile read cap (find_dirfd dirs (cuttail path 1)) h r
