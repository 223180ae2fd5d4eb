-- ===== src/Platform/Start/Agree.antt =====
-- A process does the same on Linux without a C library as on POSIX.
use u_config.Base.{
  ℕ, suc, ◌+◌, [], ◌∷◌, ◌++◌, Bytes, List, length, drop, Option, none, some, ◌≡◌, refl, ap, ◌∙◌,
  arith,
}
use u_config.Load.{Filemap}
use u_config.Platform.Environment.{Build, posix_config, linux_config}
use u_config.Platform.Variables.{entries_of, AreVariables, Reads, linux_config-posix_config}
use u_config.Platform.Start.{Stack, without_name, to_null, strings, posix_main, os_main, entrypoint}
use u_config.Program.Exit.{uconfig}

-- Pointers to the strings.
abbrev pub all_some : List Bytes → List (Option Bytes)
all_some [] = []
all_some (s ∷ ss) = some s ∷ all_some ss

-- What the kernel is documented to put on the stack: the arguments and the entries of the environment,
-- each with a null pointer behind it, and what is not read here.
abbrev pub stack_of : List Bytes → List (Bytes × Bytes) → List (Option Bytes) → Stack
stack_of argv vs auxiliary = record {
  argc = length argv;
  pointers = all_some argv ++ (none ∷ (all_some (entries_of vs) ++ (none ∷ auxiliary)));
}

strings-all_some :
    (argv : List Bytes) (rest : List (Option Bytes))
    → strings (length argv) (all_some argv ++ rest) ≡ argv
unfolding strings
strings-all_some [] rest = refl
strings-all_some (s ∷ argv) rest = ap (◌∷◌ s) (strings-all_some argv rest)

pub to_null-all_some :
    (ss : List Bytes) (rest : List (Option Bytes)) → to_null (all_some ss ++ (none ∷ rest)) ≡ ss
unfolding to_null
to_null-all_some [] rest = refl
to_null-all_some (s ∷ ss) rest = ap (◌∷◌ s) (to_null-all_some ss rest)

drop-all_some :
    (argv : List Bytes) (rest : List (Option Bytes))
    → drop (length argv + 1) (all_some argv ++ (none ∷ rest)) ≡ rest
drop-all_some [] rest = refl
drop-all_some (s ∷ argv) rest =
    let e : suc (length argv) + 1 ≡ suc (length argv + 1) = omega arith in
    rw e (drop-all_some argv rest)

module _ (os_listing : Bytes → List Bytes) (os_mapfile : Bytes → Filemap) where
  -- Where both programs are built with the same macros, PKG_CONFIG_PATH and PKG_CONFIG_PREFIX not among
  -- them: from the stack that the kernel makes of arguments and of an environment in which no variable is
  -- set twice, the program that Linux starts ends as `main` of POSIX does with the same arguments and with
  -- a `getenv` that reads this environment, when both use the same files and directories.
  pub entrypoint-posix_main :
      (fuel : ℕ) (build : Build) (argv : List Bytes) (vs : List (Bytes × Bytes))
      (auxiliary : List (Option Bytes)) (getenv : Bytes → Option Bytes)
      → build.path ≡ none
      → build.prefix ≡ none
      → AreVariables vs
      → Reads getenv vs
      → entrypoint os_listing os_mapfile fuel build (stack_of argv vs auxiliary)
        ≡ posix_main os_listing os_mapfile fuel build argv getenv
  unfolding entrypoint os_main posix_main
  entrypoint-posix_main fuel build argv vs auxiliary getenv p q h r =
      let rest = all_some (entries_of vs) ++ (none ∷ auxiliary) in
      let args = strings-all_some argv (none ∷ rest) in
      let envp =
        ap to_null (drop-all_some argv rest) ∙ to_null-all_some (entries_of vs) auxiliary in
      ap
        (λ conf.
          uconfig os_listing os_mapfile fuel conf
            (without_name (strings (length argv) (all_some argv ++ (none ∷ rest)))))
        (ap (λ env. linux_config env build) envp
          ∙ linux_config-posix_config vs getenv build p q h r)
      ∙ ap
          (λ argv'.
            uconfig os_listing os_mapfile fuel (posix_config getenv build) (without_name argv'))
          args
