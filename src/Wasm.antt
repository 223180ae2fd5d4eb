-- ===== src/Wasm.antt =====
-- The WebAssembly platform layer, main_wasm.c: the directories that the host opens before the program
-- starts, and the paths below them. The calls of the host are parameters.
pub mod Paths
pub mod Resolve
pub mod Preopens
pub mod Files
pub mod Directory
pub mod Start
use u_config.Base.{
  ℕ, zero, suc, ◌+◌, Bool, true, false, ◌&&◌, [], ◌∷◌, ◌++◌, Bytes, List, ◌==◌, if◌then◌else◌,
  codes, length, Option, none, some, Result, ok, fail, out_of_fuel, ◌>>=◌,
}
use u_config.S8.{startswith, cuthead, cuttail}
use u_config.Platform.{endswith}

pub record Dirfd : Type 0 where
  pub path : Bytes
  pub fd : ℕ

-- `while (endswith_(path, suffix)) path = cuttail(path, 1);`, a round for each byte at most.
unfoldable pub strip_loop : ℕ → Bytes → Bytes → Bytes
unfolding endswith cuttail
strip_loop zero suffix path = path
strip_loop (suc f) suffix path =
    let rest = strip_loop f suffix (cuttail path 1) in if endswith path suffix then rest else path

unfoldable pub strip : Bytes → Bytes → Bytes
unfolding strip_loop
strip suffix path = strip_loop (length path) suffix path

-- A directory with the name that the host gives, with one slash at its end.
unfoldable pub preopened : Bytes → ℕ → Dirfd
unfolding strip
preopened name fd = record { path = strip (codes "//") (name ++ codes "/"); fd = fd }

-- What the two calls for a descriptor give, and the rounds behind it.
unfoldable pub with_preopen : Option Bytes → ℕ → (ℕ → Result (List Dirfd)) → Result (List Dirfd)
unfolding preopened
with_preopen none fd next = ok []
with_preopen (some name) fd next = do dirs ← next (fd + 1); ok (preopened name fd ∷ dirs)

-- `prestat fd` is the name of the directory that is open with the descriptor, `none` where one of
-- fd_prestat_get and fd_prestat_dir_name fails. The fuel bounds the number of descriptors.
module _ (prestat : ℕ → Option Bytes) where
  unfoldable pub preopens_loop : ℕ → ℕ → Result (List Dirfd)
  unfolding with_preopen
  preopens_loop zero fd = out_of_fuel
  preopens_loop (suc f) fd = with_preopen (prestat fd) fd (preopens_loop f)

  unfoldable pub find_preopens : ℕ → Result (List Dirfd)
  unfolding preopens_loop
  find_preopens fuel = preopens_loop fuel 3

-- `while (startswith(r.relpath, S("/")))`
unfoldable pub skip_slashes : Bytes → Bytes
unfolding startswith cuthead
skip_slashes [] = []
skip_slashes (c ∷ path) =
    let rest = skip_slashes path in if startswith (c ∷ path) (codes "/") then rest else c ∷ path

-- An empty path is the directory itself.
unfoldable pub or_current : Bytes → Bytes
or_current [] = codes "."
or_current (c ∷ path) = c ∷ path

pub record Relpath : Type 0 where
  pub relpath : Bytes
  pub fd : ℕ

-- The directory without its slash.
unfoldable pub dir_of : Dirfd → Bytes
unfolding strip
dir_of d = strip (codes "/") d.path

-- `none` where `ok` stays 0.
unfoldable pub find_dirfd : List Dirfd → Bytes → Option Relpath
unfolding dir_of startswith skip_slashes or_current cuthead
find_dirfd [] path = none
find_dirfd (d ∷ dirs) path =
    let rest = find_dirfd dirs path in
    if startswith path (dir_of d)
    then some (record {
      relpath = or_current (skip_slashes (cuthead path (length (dir_of d))));
      fd = d.fd;
    })
    else rest
