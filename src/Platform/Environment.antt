-- ===== src/Platform/Environment.antt =====
-- The configuration that `main` of main_posix.c and `os_main` of src/linux_noarch.c make of the
-- environment: the first asks `getenv`, which is a parameter, the second reads the entries itself.
use u_config.Base.{
  ◌++◌, true, false, [], ◌∷◌, Bytes, List, if◌then◌else◌, codes, Option, none, some,
}
use u_config.S8.{s8equals, s8cut}
use u_config.Settings.{Config}

-- The macros PKG_CONFIG_PATH, PKG_CONFIG_LIBDIR, PKG_CONFIG_PREFIX, PKG_CONFIG_SYSTEM_INCLUDE_PATH and
-- PKG_CONFIG_SYSTEM_LIBRARY_PATH, where the build defines them.
pub record Build : Type 0 where
  pub path : Option Bytes
  pub libdir : Option Bytes
  pub prefix : Option Bytes
  pub system_include_path : Option Bytes
  pub system_library_path : Option Bytes

unfoldable pub default_to : Bytes → Option Bytes → Bytes
default_to d none = d
default_to d (some value) = value

-- Both files have the same defaults for the paths of the system.
unfoldable pub include_path : Build → Bytes
unfolding default_to
include_path build = default_to (codes "/usr/include") build.system_include_path

unfoldable pub library_path : Build → Bytes
unfolding default_to
library_path build = default_to (codes "/lib:/usr/lib") build.system_library_path

-- PKG_CONFIG_LIBDIR of src/linux_noarch.c.
unfoldable pub linux_libdir : Build → Bytes
unfolding default_to
linux_libdir build =
    default_to
      (codes "/usr/local/lib/pkgconfig:"
        ++ (codes "/usr/local/share/pkgconfig:"
            ++ (codes "/usr/lib/pkgconfig:" ++ codes "/usr/share/pkgconfig")))
      build.libdir

-- The parts of `pkg_config_path` of main_posix.c.
unfoldable pub path_part : Option Bytes → Bytes
path_part none = []
path_part (some path) = path ++ codes ":"

unfoldable pub prefix_part : Bytes → Bytes
prefix_part prefix =
    (prefix ++ codes "/local/lib/pkgconfig:")
    ++ ((prefix ++ codes "/local/share/pkgconfig:")
        ++ ((prefix ++ codes "/lib/pkgconfig:") ++ (prefix ++ codes "/share/pkgconfig")))

unfoldable pub pkg_config_path : Build → Bytes
unfolding default_to path_part prefix_part
pkg_config_path build =
    path_part build.path
    ++ default_to (prefix_part (default_to (codes "/usr") build.prefix)) build.libdir

-- The configuration of Linux before the environment is read.
unfoldable pub newconfig : Build → Config
unfolding include_path library_path linux_libdir
newconfig build = record {
  pc_path = linux_libdir build;
  pc_sysincpath = include_path build;
  pc_syslibpath = library_path build;
  envpath = [];
  fixedpath = linux_libdir build;
  top_builddir = none;
  sys_incpath = include_path build;
  sys_libpath = library_path build;
  print_sysinc = none;
  print_syslib = none;
  define_prefix = false;
  haslisting = true;
  delim = b':';
}

-- A null string is an empty path.
unfoldable pub posix_config : (Bytes → Option Bytes) → Build → Config
unfolding include_path library_path pkg_config_path default_to
posix_config getenv build = record {
  pc_path = pkg_config_path build;
  pc_sysincpath = include_path build;
  pc_syslibpath = library_path build;
  envpath = default_to [] (getenv (codes "PKG_CONFIG_PATH"));
  fixedpath = default_to (pkg_config_path build) (getenv (codes "PKG_CONFIG_LIBDIR"));
  top_builddir = getenv (codes "PKG_CONFIG_TOP_BUILD_DIR");
  sys_incpath = default_to (include_path build) (getenv (codes "PKG_CONFIG_SYSTEM_INCLUDE_PATH"));
  sys_libpath = default_to (library_path build) (getenv (codes "PKG_CONFIG_SYSTEM_LIBRARY_PATH"));
  print_sysinc = getenv (codes "PKG_CONFIG_ALLOW_SYSTEM_CFLAGS");
  print_syslib = getenv (codes "PKG_CONFIG_ALLOW_SYSTEM_LIBS");
  define_prefix = false;
  haslisting = true;
  delim = b':';
}

unfoldable pub set_variable : Bytes → Bytes → Config → Config
unfolding s8equals
set_variable name value conf =
    if s8equals name (codes "PKG_CONFIG_PATH")
    then record conf { envpath = value }
    else if s8equals name (codes "PKG_CONFIG_LIBDIR")
    then record conf { fixedpath = value }
    else if s8equals name (codes "PKG_CONFIG_TOP_BUILD_DIR")
    then record conf { top_builddir = some value }
    else if s8equals name (codes "PKG_CONFIG_SYSTEM_INCLUDE_PATH")
    then record conf { sys_incpath = value }
    else if s8equals name (codes "PKG_CONFIG_SYSTEM_LIBRARY_PATH")
    then record conf { sys_libpath = value }
    else if s8equals name (codes "PKG_CONFIG_ALLOW_SYSTEM_CFLAGS")
    then record conf { print_sysinc = some value }
    else if s8equals name (codes "PKG_CONFIG_ALLOW_SYSTEM_LIBS")
    then record conf { print_syslib = some value }
    else conf

unfoldable pub read_entry : Bytes → Config → Config
unfolding set_variable s8cut
read_entry entry conf = let c = s8cut entry b'=' in set_variable c.head c.tail conf

unfoldable pub environment_loop : List Bytes → Config → Config
unfolding read_entry
environment_loop [] conf = conf
environment_loop (entry ∷ envp) conf = environment_loop envp (read_entry entry conf)

unfoldable pub linux_config : List Bytes → Build → Config
unfolding newconfig environment_loop
linux_config envp build = environment_loop envp (newconfig build)
