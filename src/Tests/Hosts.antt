-- ===== src/Tests/Hosts.antt =====
-- Runs and witnesses of the start of a process, of directories and of the WebAssembly platform layer.
use u_config.Base.{
  ℕ, ◌+◌, min, if◌then◌else◌, [], ◌∷◌, ◌++◌, Bytes, List, length, take, ◌==◌, codes, Option, none,
  some, ok, map, ◌≡◌, refl, arith, inl, inr,
}
use u_config.S8.{s8equals, s8fromcstr, cuttail, taketail}
use u_config.S8.Cuts.{lacks, Lacks-lacks}
use u_config.Load.{Filemap, found, not_found}
use u_config.Windows.Unicode.{Units, towide, fromwide}
use u_config.Windows.Unicode.Texts.{text8, text16}
use u_config.Windows.Unicode.Formed.{AllScalar, AreUnits, towide-AllScalar}
use u_config.Windows.Unicode.{utf16encode}
use u_config.Windows.Files.{os_listing as windows_listing}
use u_config.Windows.Files.Found.{buffers_of, os_listing-text8}
use u_config.Platform.{endswith, os_listing, os_mapfile as posix_mapfile}
use u_config.Platform.Map.{Gives}
use u_config.Platform.Little.{little}
use u_config.Platform.Directory.{
  dents_len, dents_name, add_package, dents_loop, with_records, getdents_loop, linux_listing,
}
use u_config.Platform.Directory.Records.{
  Dirent, IsDirent, batch_bytes, all_names, linux_listing-os_listing,
}
use u_config.Platform.Environment.{Build}
use u_config.Platform.Variables.{value_of}
use u_config.Platform.Start.{posix_main, entrypoint}
use u_config.Platform.Start.Agree.{stack_of, entrypoint-posix_main}
use u_config.Wasm.{Dirfd, find_preopens, find_dirfd, dir_of}
use u_config.Wasm.Resolve.{Resolved, find_dirfd-Resolved, find_dirfd_sibling}
use u_config.Wasm.Preopens.{AreOpen, find_preopens-AreOpen}
use u_config.Wasm.Files.{os_mapfile}
use u_config.Wasm.Files.Whole.{file_at, os_mapfile-os_mapfile}
use u_config.Wasm.Directory.{readdir_loop, listed}
use u_config.Wasm.Directory.Entries.{Entry, header_of, IsEntry, entries_bytes}
use u_config.Wasm.Directory.Serves.{all_names as all_entries, readdir_loop-os_listing}

-- A directory with x.pc, a file system with that file.
abbrev directory : Bytes → List Bytes
directory path = codes "x.pc" ∷ []

abbrev file : Bytes
file = codes "Name: x\nVersion: 1\nDescription: d\nCflags: -Dx\n"

abbrev files : Bytes → Filemap
files path = if s8equals path (codes "/p/x.pc" ++ (0 ∷ [])) then found file else not_found

abbrev arguments : List Bytes
arguments = codes "pkg-config" ∷ codes "--cflags" ∷ codes "x" ∷ []

abbrev variables : List (Bytes × Bytes)
variables = (codes "HOME", codes "/root") ∷ (codes "PKG_CONFIG_LIBDIR", codes "/p") ∷ []

abbrev build : Build
build = record {
  path = none;
  libdir = some (codes "/usr/lib/pkgconfig");
  prefix = none;
  system_include_path = none;
  system_library_path = some (codes "/lib");
}

entrypoint-posix_main_example :
    entrypoint directory files 20 build (stack_of arguments variables (some (codes "aux") ∷ []))
    ≡ posix_main directory files 20 build arguments (value_of variables)
unfolding value_of lacks
entrypoint-posix_main_example =
    entrypoint-posix_main directory files 20 build arguments variables (some (codes "aux") ∷ [])
      (value_of variables) refl refl
      (
        Lacks-lacks b'=' (codes "HOME") refl,
        refl,
        (Lacks-lacks b'=' (codes "PKG_CONFIG_LIBDIR") refl, refl, tt),
      )
      (λ k. refl)

abbrev eight : Bytes
eight = 0 ∷ 0 ∷ 0 ∷ 0 ∷ 0 ∷ 0 ∷ 0 ∷ 0 ∷ []

-- A record with one byte that fills it up.
abbrev dirent : Bytes → Dirent
dirent name = record {
  numbers = eight ++ eight;
  size = (21 + length name) ∷ 0 ∷ [];
  kind = 8;
  name = name;
  fill = 0xff ∷ [];
}

dirent-IsDirent_x : IsDirent (dirent (codes "x.pc"))
unfolding little lacks
dirent-IsDirent_x = record {
  numbers = refl;
  size = refl;
  len = refl;
  name = Lacks-lacks 0 (codes "x.pc") refl;
}

dirent-IsDirent_y : IsDirent (dirent (codes "y.txt"))
unfolding little lacks
dirent-IsDirent_y = record {
  numbers = refl;
  size = refl;
  len = refl;
  name = Lacks-lacks 0 (codes "y.txt") refl;
}

-- Two records in the first call, one in the second.
abbrev batches : List (List Dirent)
batches = (dirent (codes "x.pc") ∷ dirent (codes "y.txt") ∷ []) ∷ (dirent (codes "x.pc") ∷ []) ∷ []

abbrev two_calls : ℕ → Bytes
two_calls n =
    if n == 0
    then batch_bytes (dirent (codes "x.pc") ∷ dirent (codes "y.txt") ∷ [])
    else if n == 1
    then batch_bytes (dirent (codes "x.pc") ∷ [])
    else []

two_packages : linux_listing 3 (some two_calls) ≡ ok (codes "x.pc" ∷ codes "x.pc" ∷ [])
unfolding linux_listing getdents_loop with_records dents_loop add_package dents_name dents_len
    little s8fromcstr endswith s8equals taketail
two_packages = refl

linux_listing-os_listing_example :
    linux_listing 3 (some two_calls) ≡ ok (os_listing (some (all_names batches)))
linux_listing-os_listing_example =
    linux_listing-os_listing two_calls batches 3
      (
        refl,
        omega arith,
        (dirent-IsDirent_x, (dirent-IsDirent_y, tt)),
        (refl, omega arith, (dirent-IsDirent_x, tt), refl),
      )
      (omega arith)

-- The host has opened two directories.
abbrev prestat : ℕ → Option Bytes
prestat fd =
    if fd == 3 then some (codes "/usr//") else if fd == 4 then some (codes "/opt") else none

find_preopens-AreOpen_example :
    (dirs : List Dirfd) × (find_preopens prestat 3 ≡ ok dirs)
    × AreOpen 3 (codes "/usr//" ∷ codes "/opt" ∷ []) dirs
find_preopens-AreOpen_example =
    find_preopens-AreOpen prestat (codes "/usr//" ∷ codes "/opt" ∷ []) 3 (refl, (refl, refl))
      (omega arith)

abbrev opened : List Dirfd
opened = record { path = codes "/usr/"; fd = 3 } ∷ record { path = codes "/opt/"; fd = 4 } ∷ []

find_dirfd-Resolved_example :
    Resolved opened (codes "/opt//x.pc") (find_dirfd opened (codes "/opt//x.pc"))
find_dirfd-Resolved_example = find_dirfd-Resolved opened (codes "/opt//x.pc")

find_dirfd_sibling_example :
    find_dirfd opened (dir_of (record { path = codes "/usr/"; fd = 3 }) ++ codes "local/x.pc")
    ≡ some (record { relpath = codes "local/x.pc"; fd = 3 })
find_dirfd_sibling_example =
    find_dirfd_sibling (record { path = codes "/usr/"; fd = 3 })
      (record { path = codes "/opt/"; fd = 4 } ∷ []) b'l' (codes "ocal/x.pc") refl

-- x.pc below the first directory.
abbrev path_open : ℕ → Bytes → Option Bytes
path_open fd path = if s8equals path (codes "x.pc") then some file else none

-- A kernel that gives three bytes of a call, or what there is.
abbrev three_bytes : ℕ → ℕ → ℕ → ℕ
three_bytes n len left = min 3 (min len left)

three_bytes-Gives : Gives three_bytes
three_bytes-Gives = record {
  some_bytes = λ n len left l m. omega (arith, l, m);
  asked = λ n len left. omega arith;
  there = λ n len left. omega arith;
}

os_mapfile-os_mapfile_example :
    os_mapfile path_open
      (λ len left. some (min len left))
      opened
      100
      (codes "/usr/x.pc" ++ (0 ∷ []))
    ≡ posix_mapfile three_bytes 100
        (file_at path_open (find_dirfd opened (cuttail (codes "/usr/x.pc" ++ (0 ∷ [])) 1)))
os_mapfile-os_mapfile_example =
    os_mapfile-os_mapfile path_open (λ len left. some (min len left)) three_bytes opened 100
      (codes "/usr/x.pc" ++ (0 ∷ [])) three_bytes-Gives (λ len left. refl)

abbrev entry : ℕ → Bytes → Entry
entry k name = record {
  cookie = k ∷ 0 ∷ 0 ∷ 0 ∷ 0 ∷ 0 ∷ 0 ∷ 0 ∷ [];
  inode = eight;
  size = length name ∷ 0 ∷ 0 ∷ 0 ∷ [];
  kind = 4 ∷ 0 ∷ 0 ∷ 0 ∷ [];
  name = name;
}

entry-IsEntry_x : IsEntry (entry 1 (codes "x.pc"))
unfolding little
entry-IsEntry_x = record {
  cookie = refl;
  inode = refl;
  size = refl;
  kind = refl;
  len = refl;
  bounded = omega arith;
}

entry-IsEntry_y : IsEntry (entry 2 (codes "y.pc"))
unfolding little
entry-IsEntry_y = record {
  cookie = refl;
  inode = refl;
  size = refl;
  kind = refl;
  len = refl;
  bounded = omega arith;
}

-- The first reply ends in the middle of the second name.
abbrev cut_off : Bytes
cut_off = header_of (entry 2 (codes "y.pc")) ++ take 2 (codes "y.pc")

abbrev fd_readdir : ℕ → Option Bytes
fd_readdir cookie =
    if cookie == 0
    then some (entries_bytes (entry 1 (codes "x.pc") ∷ []) ++ cut_off)
    else if cookie == 1
    then some (entries_bytes (entry 2 (codes "y.pc") ∷ []) ++ [])
    else some []

abbrev replies : List (List Entry × Bytes)
replies = (entry 1 (codes "x.pc") ∷ [], cut_off) ∷ (entry 2 (codes "y.pc") ∷ [], []) ∷ []

readdir_loop-os_listing_example :
    readdir_loop fd_readdir (λ cookie. eight) 3 [] 0
    ≡ listed (os_listing (some (all_entries replies)))
unfolding little
readdir_loop-os_listing_example =
    readdir_loop-os_listing fd_readdir (λ cookie. eight) replies 3
      (
        refl,
        omega arith,
        (entry-IsEntry_x, tt),
        inr (entry 2 (codes "y.pc"), 2, entry-IsEntry_y, omega arith, refl),
        (refl, omega arith, (entry-IsEntry_y, tt), inl refl, refl),
      )
      (omega arith)

-- A byte that begins no sequence, and a surrogate in three bytes.
abbrev broken : Bytes
broken = 0xff ∷ 0x61 ∷ 0xed ∷ 0xa0 ∷ 0x80 ∷ []

towide-AllScalar_example :
    (runes : List ℕ) × AllScalar runes
    × (towide broken ≡ text16 runes)
    × AreUnits (towide broken)
    × (fromwide (towide broken) ≡ text8 runes)
    × (towide (fromwide (towide broken)) ≡ towide broken)
towide-AllScalar_example = towide-AllScalar broken

-- A search that finds two files for one pattern, with a byte left in the buffers behind the names.
abbrev find_files : Units → List Units
find_files glob =
    if s8equals glob (codes "C:\\lib\\*.pc" ++ (0 ∷ []))
    then buffers_of (λ name. 7 ∷ []) (codes "x.pc" ∷ codes "y.pc" ∷ [])
    else []

os_listing-text8_example :
    windows_listing find_files (text8 (codes "C:\\lib") ++ (0 ∷ []))
    ≡ map text8 (codes "x.pc" ∷ codes "y.pc" ∷ [])
unfolding text16 utf16encode s8equals
os_listing-text8_example =
    os_listing-text8 find_files (λ name. 7 ∷ []) (codes "C:\\lib")
      (codes "x.pc" ∷ codes "y.pc" ∷ [])
      (
        (omega arith, (omega arith, (omega arith, (omega arith, tt)))),
        ((omega arith, (omega arith, (omega arith, (omega arith, tt)))), tt),
      )
      refl
