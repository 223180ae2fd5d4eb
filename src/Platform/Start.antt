-- ===== src/Platform/Start.antt =====
-- The programs of main_posix.c and of Linux without a C library, from the start of the process: `main`,
-- and `entrypoint` and `os_main` of src/linux_noarch.c.
pub mod Agree
use u_config.Base.{ℕ, zero, suc, ◌+◌, [], ◌∷◌, Bytes, List, length, take, drop, Option, none, some}
use u_config.Load.{Filemap}
use u_config.Platform.Environment.{Build, posix_config, linux_config}
use u_config.Program.Exit.{Exit, uconfig}

-- The words on the stack where a process starts: the number of its arguments, and pointers to strings,
-- some of them null.
pub record Stack : Type 0 where
  pub argc : ℕ
  pub pointers : List (Option Bytes)

-- `if (argc) { argc--; argv++; }`, and the strings that are left.
unfoldable pub without_name : List Bytes → List Bytes
without_name [] = []
without_name (name ∷ args) = args

-- `for (u8 **v = envp; *v; v++)`
unfoldable pub to_null : List (Option Bytes) → List Bytes
to_null [] = []
to_null (none ∷ pointers) = []
to_null (some s ∷ pointers) = s ∷ to_null pointers

-- The strings of the first `n` pointers; none of them is null.
unfoldable pub strings : ℕ → List (Option Bytes) → List Bytes
strings zero pointers = []
strings (suc n) [] = []
strings (suc n) (none ∷ pointers) = []
strings (suc n) (some s ∷ pointers) = s ∷ strings n pointers

module _ (os_listing : Bytes → List Bytes) (os_mapfile : Bytes → Filemap) where
  unfoldable pub posix_main : ℕ → Build → List Bytes → (Bytes → Option Bytes) → Exit
  unfolding uconfig posix_config without_name
  posix_main fuel build argv getenv =
      uconfig os_listing os_mapfile fuel (posix_config getenv build) (without_name argv)

  unfoldable pub os_main : ℕ → Build → List Bytes → List (Option Bytes) → Exit
  unfolding uconfig linux_config without_name to_null
  os_main fuel build argv envp =
      uconfig os_listing os_mapfile fuel (linux_config (to_null envp) build) (without_name argv)

  -- `argv + argc + 1`
  unfoldable pub entrypoint : ℕ → Build → Stack → Exit
  unfolding os_main strings
  entrypoint fuel build stack =
      os_main fuel build (strings stack.argc stack.pointers) (drop (stack.argc + 1) stack.pointers)
