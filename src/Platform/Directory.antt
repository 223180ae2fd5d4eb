-- ===== src/Platform/Directory.antt =====
-- `os_listing` of src/linux_noarch.c, which reads the records of a directory from a buffer.
pub mod Added
pub mod Records
use u_config.Base.{
  ℕ, zero, suc, ◌+◌, ◌*◌, ◌^◌, Bool, true, false, [], ◌∷◌, ◌++◌, Bytes, List, if◌then◌else◌, codes,
  length, drop, Option, none, some, Result, ok, fail, out_of_fuel, ◌>>=◌,
}
use u_config.S8.{s8fromcstr}
use u_config.Platform.{endswith}
use u_config.Platform.Little.{little}

-- `dents->len`: the length of a record, a positive `short`.
unfoldable pub dents_len : Bytes → ℕ
unfolding little
dents_len dents = little 2 (drop 16 dents)

unfoldable pub dents_name : Bytes → Bytes
unfolding s8fromcstr
dents_name dents = s8fromcstr (drop 19 dents)

-- `if (endswith_(name, S(".pc")))`
unfoldable pub add_package : List Bytes → Bytes → List Bytes
unfolding endswith
add_package files name = if endswith name (codes ".pc") then files ++ (name ∷ []) else files

-- `for (iz off = 0; off < len;)`: the buffer from the offset on, up to `len`.
unfoldable pub dents_loop : ℕ → List Bytes → Bytes → Result (List Bytes)
unfolding dents_len dents_name add_package
dents_loop f files [] = ok files
dents_loop zero files (c ∷ buf) = out_of_fuel
dents_loop (suc f) files (c ∷ buf) =
    dents_loop f (add_package files (dents_name (c ∷ buf))) (drop (dents_len (c ∷ buf)) (c ∷ buf))

-- What a call wrote to the buffer, and the rounds behind it.
unfoldable pub with_records :
    Bytes → List Bytes → (List Bytes → Result (List Bytes)) → Result (List Bytes)
unfolding dents_loop
with_records [] files next = ok files
with_records (c ∷ buf) files next = dents_loop (suc (length buf)) files (c ∷ buf) >>= next

-- `getdents n` are the records that the call with the number `n` writes to the buffer, none at the end
-- of the directory or where the call fails.
module _ (getdents : ℕ → Bytes) where
  unfoldable pub getdents_loop : ℕ → ℕ → List Bytes → Result (List Bytes)
  unfolding with_records
  getdents_loop zero n files = out_of_fuel
  getdents_loop (suc f) n files = with_records (getdents n) files (getdents_loop f (suc n))

-- `none` is a directory that cannot be opened. The fuel bounds the number of calls.
unfoldable pub linux_listing : ℕ → Option (ℕ → Bytes) → Result (List Bytes)
unfolding getdents_loop
linux_listing fuel none = ok []
linux_listing fuel (some getdents) = getdents_loop getdents fuel 0 []
