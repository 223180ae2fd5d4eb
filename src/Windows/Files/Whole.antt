-- ===== src/Windows/Files/Whole.antt =====
-- A file is mapped on Windows as it is on POSIX.
use u_config.Base.{ℕ, ◌≤◌, ◌<◌, Bytes, Option, none, some, ◌≡◌, refl, sym, ◌∙◌, arith}
use u_config.Platform.{os_mapfile as posix_mapfile}
use u_config.Platform.Map.{Gives, os_mapfile-found}
use u_config.Windows.Unicode.{Units, towide}
use u_config.Windows.Files.{truncsize, os_mapfile}

truncsize-le : (len : ℕ) → truncsize len ≤ len
unfolding truncsize
truncsize-le len = ground arith

truncsize_some : (len : ℕ) → 0 < len → 0 < truncsize len
unfolding truncsize
truncsize_some len h = ground arith

Gives-truncsize :
    (read_file : ℕ → ℕ → ℕ → ℕ)
    → Gives read_file
    → Gives (λ n len left. read_file n (truncsize len) left)
Gives-truncsize read_file h = record {
  some_bytes = λ n len left l m. h.some_bytes n (truncsize len) left (truncsize_some len l) m;
  asked = λ n len left. omega (arith, h.asked n (truncsize len) left, truncsize-le len);
  there = λ n len left. h.there n (truncsize len) left;
}

Gives-same :
    (read read' : ℕ → ℕ → ℕ → ℕ) (cap : ℕ) (file : Option Bytes)
    → Gives read
    → Gives read'
    → posix_mapfile read cap file ≡ posix_mapfile read' cap file
unfolding posix_mapfile
Gives-same read read' cap none h h' = refl
Gives-same read read' cap (some file) h h' =
    os_mapfile-found read h cap file ∙ sym (os_mapfile-found read' h' cap file)

-- Where calls of ReadFile give a byte at least while the file has any, and never more than they are asked
-- for and than there are, the file with the name in UTF-16 is mapped on Windows as POSIX maps it in reads
-- of any size that give as much: the limit for the size of a call does not matter.
pub windows_mapfile-os_mapfile :
    (create_file : Units → Option Bytes) (read_file read : ℕ → ℕ → ℕ → ℕ) (cap : ℕ) (path : Bytes)
    → Gives read_file
    → Gives read
    → os_mapfile create_file read_file cap path ≡ posix_mapfile read cap (create_file (towide path))
unfolding os_mapfile
windows_mapfile-os_mapfile create_file read_file read cap path h h' =
    Gives-same (λ n len left. read_file n (truncsize len) left) read cap (create_file (towide path))
      (Gives-truncsize read_file h) h'
