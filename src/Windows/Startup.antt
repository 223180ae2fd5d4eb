-- ===== src/Windows/Startup.antt =====
-- `mainCRTStartup` of main_windows.c up to the call of `uconfig`. The module's file name, the command
-- line and the environment, which Windows gives, are parameters.
pub mod Directories
use u_config.Base.{
  ℕ, Bool, true, false, [], ◌∷◌, ◌++◌, Bytes, List, ◌==◌, if◌then◌else◌, map, drop, codes, Option,
  none, some,
}
use u_config.FilePaths.{dirname}
use u_config.Settings.{Config}
use u_config.Windows.Unicode.{Units, fromwide}
use u_config.Windows.Cmdline.{cmdline_to_argv8}

unfoldable pub slash_of : ℕ → ℕ
slash_of c = if c == b'\\' then b'/' else c

unfoldable pub normalize : Bytes → Bytes
unfolding slash_of
normalize path = map slash_of path

-- A null string has no byte that is changed.
unfoldable pub normalize_given : Option Bytes → Option Bytes
unfolding normalize
normalize_given none = none
normalize_given (some path) = some (normalize path)

-- `exe` is the name that GetModuleFileNameW gives.
unfoldable pub installdir : Units → Bytes
unfolding normalize dirname fromwide
installdir exe = dirname (dirname (normalize (fromwide exe)))

unfoldable pub append2 : Bytes → Bytes → Bytes
append2 pre suf = pre ++ suf

unfoldable pub makepath : Bytes → Bytes → Bytes → Bytes
makepath base lib share = base ++ (lib ++ (codes ";" ++ (base ++ share)))

-- `variable` is what GetEnvironmentVariableW gives, `none` where it reports a size of 0.
unfoldable pub fromenv : (Bytes → Option Units) → Bytes → Option Bytes
unfolding fromwide
fromenv variable name = elim (variable name) [ none ↦ none | some wvar ↦ some (fromwide wvar) ]

abbrev pub or_empty : Option Bytes → Bytes
or_empty none = []
or_empty (some path) = path

-- Where PKG_CONFIG_LIBDIR is not set, `fixedpath` is the string of `pc_path` itself, which is then
-- normalized in place.
unfoldable pub default_path : Option Bytes → Bytes → Bytes
unfolding normalize
default_path none pc_path = normalize pc_path
default_path (some libdir) pc_path = pc_path

unfoldable pub fixed_path : Option Bytes → Bytes → Bytes
unfolding normalize
fixed_path none pc_path = normalize pc_path
fixed_path (some libdir) pc_path = normalize libdir

-- `prefix` is PKG_CONFIG_PREFIX, which the build sets.
unfoldable pub windows_config : Bytes → Units → (Bytes → Option Units) → Config
unfolding installdir append2 makepath fromenv default_path fixed_path normalize normalize_given
windows_config prefix exe variable =
    let base = installdir exe in
    let pc_path =
      makepath base (prefix ++ codes "/lib/pkgconfig") (prefix ++ codes "/share/pkgconfig") in
    let libdir = fromenv variable (codes "PKG_CONFIG_LIBDIR") in
    record {
      pc_path = default_path libdir pc_path;
      pc_sysincpath = append2 base (prefix ++ codes "/include");
      pc_syslibpath = append2 base (prefix ++ codes "/lib");
      envpath = normalize (or_empty (fromenv variable (codes "PKG_CONFIG_PATH")));
      fixedpath = fixed_path libdir pc_path;
      top_builddir = normalize_given (fromenv variable (codes "PKG_CONFIG_TOP_BUILD_DIR"));
      sys_incpath = append2 base (prefix ++ codes "/include");
      sys_libpath = append2 base (prefix ++ codes "/lib");
      print_sysinc = fromenv variable (codes "PKG_CONFIG_ALLOW_SYSTEM_CFLAGS");
      print_syslib = fromenv variable (codes "PKG_CONFIG_ALLOW_SYSTEM_LIBS");
      define_prefix = true;
      haslisting = true;
      delim = b';';
    }

-- `conf->args`, without the program's name.
unfoldable pub windows_args : Units → List Bytes
unfolding cmdline_to_argv8
windows_args cmdline = drop 1 (cmdline_to_argv8 cmdline)
