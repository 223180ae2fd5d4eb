-- ===== src/Wasm/Start.antt =====
-- `_start` of main_wasm.c: the configuration, and the run of the program.
use u_config.Base.{
  [], ◌∷◌, ◌++◌, Bytes, List, codes, true, false, ℕ, Option, none, some, ◌≡◌, ap, sym,
}
use u_config.Load.{Filemap}
use u_config.Settings.{Config}
use u_config.Platform.Environment.{
  Build, newconfig as linux_newconfig, environment_loop, linux_config,
}
use u_config.Platform.Start.{without_name, os_main}
use u_config.Platform.Start.Agree.{all_some, to_null-all_some}
use u_config.Program.Exit.{Exit, uconfig}

-- The configuration before the environment is read.
unfoldable pub newconfig : Config
newconfig = record {
  pc_path = codes "/usr/lib/pkgconfig:/usr/share/pkgconfig";
  pc_sysincpath = codes "/usr/include";
  pc_syslibpath = codes "/usr/lib";
  envpath = [];
  fixedpath = codes "/usr/lib/pkgconfig:/usr/share/pkgconfig";
  top_builddir = none;
  sys_incpath = codes "/usr/include";
  sys_libpath = codes "/usr/lib";
  print_sysinc = none;
  print_syslib = none;
  define_prefix = false;
  haslisting = true;
  delim = b':';
}

-- The loop over the environment is that of src/linux_noarch.c, with the number of the entries in place of
-- a null pointer behind them.
unfoldable pub wasm_config : List Bytes → Config
unfolding environment_loop newconfig
wasm_config envp = environment_loop envp newconfig

module _ (os_listing : Bytes → List Bytes) (os_mapfile : Bytes → Filemap) where
  unfoldable pub start : ℕ → List Bytes → List Bytes → Exit
  unfolding uconfig wasm_config without_name
  start fuel argv envp = uconfig os_listing os_mapfile fuel (wasm_config envp) (without_name argv)

-- A build of the Linux program.
abbrev pub usr_build : Build
usr_build = record {
  path = none;
  libdir = some (codes "/usr/lib/pkgconfig:/usr/share/pkgconfig");
  prefix = none;
  system_include_path = some (codes "/usr/include");
  system_library_path = some (codes "/usr/lib");
}

module _ (os_listing : Bytes → List Bytes) (os_mapfile : Bytes → Filemap) where
  -- With the same arguments, environment, files and directories, the program on WebAssembly ends as the
  -- program that Linux starts when it is built with the paths below /usr that main_wasm.c names.
  pub start-os_main :
      (fuel : ℕ) (argv envp : List Bytes) (rest : List (Option Bytes))
      → start os_listing os_mapfile fuel argv envp
        ≡ os_main os_listing os_mapfile fuel usr_build argv (all_some envp ++ (none ∷ rest))
  unfolding start os_main wasm_config linux_config newconfig linux_newconfig
  start-os_main fuel argv envp rest =
      ap
        (λ env. uconfig os_listing os_mapfile fuel (linux_config env usr_build) (without_name argv))
        (sym (to_null-all_some envp rest))
