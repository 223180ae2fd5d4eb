-- ===== src/Platform/Variables.antt =====
-- The two platform layers make the same configuration of the same environment.
use u_config.Base.{
  ℕ, suc, ◌+◌, ◌≡◌, refl, ap, ◌∙◌, inl, inr, true, false, [], ◌∷◌, ◌++◌, Bytes, List, if◌then◌else◌,
  ◌==◌, length, drop, Bool-cases, arith, codes, Option, none, some, take-append, length-append, not,
}
use u_config.S8.{s8equals, s8cut, prefix_len, cuthead, takehead}
use u_config.S8.Laws.{s8equals_iff}
use u_config.S8.Cuts.{Lacks}
use u_config.Settings.{Config}
use u_config.Platform.Environment.{
  Build, newconfig, default_to, linux_libdir, pkg_config_path, path_part, prefix_part, posix_config,
  set_variable, read_entry, environment_loop, linux_config,
}

-- An entry of the environment.
abbrev pub entry_of : Bytes × Bytes → Bytes
entry_of (name, value) = name ++ (b'=' ∷ value)

abbrev pub entries_of : List (Bytes × Bytes) → List Bytes
entries_of [] = []
entries_of (v ∷ vs) = entry_of v ∷ entries_of vs

-- The value of the first variable with the name.
unfoldable pub value_of : List (Bytes × Bytes) → Bytes → Option Bytes
unfolding s8equals
value_of [] k = none
value_of ((name, value) ∷ vs) k = if s8equals name k then some value else value_of vs k

-- No name stands twice, and none has a `=`.
abbrev pub AreVariables : List (Bytes × Bytes) → Type 0
AreVariables [] = Unit {0}
AreVariables ((name, value) ∷ vs) = (Lacks b'=' name) × (value_of vs name ≡ none) × AreVariables vs

-- What `getenv` is documented to return.
abbrev pub Reads : (Bytes → Option Bytes) → List (Bytes × Bytes) → Type 0
Reads getenv vs = (k : Bytes) → getenv k ≡ value_of vs k

prefix_len-name :
    (delim : ℕ) (s t : Bytes)
    → Lacks delim s
    → prefix_len (λ c. not (c == delim)) (s ++ (delim ∷ t)) ≡ length s
unfolding prefix_len
prefix_len-name delim [] t h = ground arith
prefix_len-name delim (c ∷ s) t (n, h) = rw n (ap suc (prefix_len-name delim s t h))

drop-front : (s t : Bytes) (c : ℕ) → drop (length s + 1) (s ++ (c ∷ t)) ≡ t
drop-front [] t c = refl
drop-front (x ∷ s) t c =
    let e : suc (length s) + 1 ≡ suc (length s + 1) = omega arith in rw e (drop-front s t c)

read_entry_of :
    (name value : Bytes) (conf : Config)
    → Lacks b'=' name
    → read_entry (entry_of (name, value)) conf ≡ set_variable name value conf
unfolding read_entry s8cut takehead cuthead
read_entry_of name value conf h =
    let e = prefix_len-name b'=' name value h in
    let whole : (length name == length (name ++ (b'=' ∷ value))) ≡ false =
      ground (arith, length-append name (b'=' ∷ value)) in
    rw (e, whole, take-append name (b'=' ∷ value), drop-front name value b'=') refl

or_else : Option Bytes → Option Bytes → Option Bytes
or_else none d = d
or_else (some value) d = some value

or_else-none : (v : Option Bytes) → or_else v none ≡ v
unfolding or_else
or_else-none none = refl
or_else-none (some value) = refl

-- A configuration with the variables that are set.
overlay : List (Bytes × Bytes) → Config → Config
unfolding default_to or_else
overlay vs conf = record conf {
  envpath = default_to conf.envpath (value_of vs (codes "PKG_CONFIG_PATH"));
  fixedpath = default_to conf.fixedpath (value_of vs (codes "PKG_CONFIG_LIBDIR"));
  top_builddir = or_else (value_of vs (codes "PKG_CONFIG_TOP_BUILD_DIR")) conf.top_builddir;
  sys_incpath = default_to conf.sys_incpath (value_of vs (codes "PKG_CONFIG_SYSTEM_INCLUDE_PATH"));
  sys_libpath = default_to conf.sys_libpath (value_of vs (codes "PKG_CONFIG_SYSTEM_LIBRARY_PATH"));
  print_sysinc = or_else (value_of vs (codes "PKG_CONFIG_ALLOW_SYSTEM_CFLAGS")) conf.print_sysinc;
  print_syslib = or_else (value_of vs (codes "PKG_CONFIG_ALLOW_SYSTEM_LIBS")) conf.print_syslib;
}

module _ (value : Bytes) (vs : List (Bytes × Bytes)) (conf : Config) where
  abbrev Steps : Bytes → Type 0
  Steps name =
      value_of vs name ≡ none
      → overlay vs (set_variable name value conf) ≡ overlay ((name, value) ∷ vs) conf

  step_path : Steps (codes "PKG_CONFIG_PATH")
  unfolding overlay set_variable s8equals value_of default_to or_else
  step_path h = rw h refl

  step_libdir : Steps (codes "PKG_CONFIG_LIBDIR")
  unfolding overlay set_variable s8equals value_of default_to or_else
  step_libdir h = rw h refl

  step_builddir : Steps (codes "PKG_CONFIG_TOP_BUILD_DIR")
  unfolding overlay set_variable s8equals value_of default_to or_else
  step_builddir h = rw h refl

  step_include : Steps (codes "PKG_CONFIG_SYSTEM_INCLUDE_PATH")
  unfolding overlay set_variable s8equals value_of default_to or_else
  step_include h = rw h refl

  step_library : Steps (codes "PKG_CONFIG_SYSTEM_LIBRARY_PATH")
  unfolding overlay set_variable s8equals value_of default_to or_else
  step_library h = rw h refl

  step_cflags : Steps (codes "PKG_CONFIG_ALLOW_SYSTEM_CFLAGS")
  unfolding overlay set_variable s8equals value_of default_to or_else
  step_cflags h = rw h refl

  step_libs : Steps (codes "PKG_CONFIG_ALLOW_SYSTEM_LIBS")
  unfolding overlay set_variable s8equals value_of default_to or_else
  step_libs h = rw h refl

  named : (name key : Bytes) → s8equals name key ≡ true → Steps key → Steps name
  named name key e step = let same = (s8equals_iff name key).0 e in rw same step

  -- A variable that is set is no longer looked for behind it.
  set_step : (name : Bytes) → Steps name
  unfolding overlay set_variable value_of
  set_step name h = elim (Bool-cases (s8equals name (codes "PKG_CONFIG_PATH"))) [
    | inl e ↦ named name _ e step_path h
    | inr n1 ↦ elim (Bool-cases (s8equals name (codes "PKG_CONFIG_LIBDIR"))) [
      | inl e ↦ named name _ e step_libdir h
      | inr n2 ↦ elim (Bool-cases (s8equals name (codes "PKG_CONFIG_TOP_BUILD_DIR"))) [
        | inl e ↦ named name _ e step_builddir h
        | inr n3 ↦ elim (Bool-cases (s8equals name (codes "PKG_CONFIG_SYSTEM_INCLUDE_PATH"))) [
          | inl e ↦ named name _ e step_include h
          | inr n4 ↦ elim (Bool-cases (s8equals name (codes "PKG_CONFIG_SYSTEM_LIBRARY_PATH"))) [
            | inl e ↦ named name _ e step_library h
            | inr n5 ↦ elim (Bool-cases (s8equals name (codes "PKG_CONFIG_ALLOW_SYSTEM_CFLAGS"))) [
              | inl e ↦ named name _ e step_cflags h
              | inr n6 ↦ elim (Bool-cases (s8equals name (codes "PKG_CONFIG_ALLOW_SYSTEM_LIBS"))) [
                | inl e ↦ named name _ e step_libs h
                | inr n7 ↦ rw (n1, n2, n3, n4, n5, n6, n7) refl
              ]
            ]
          ]
        ]
      ]
    ]
  ]

environment_loop-overlay :
    (vs : List (Bytes × Bytes)) (conf : Config)
    → AreVariables vs
    → environment_loop (entries_of vs) conf ≡ overlay vs conf
unfolding environment_loop
environment_loop-overlay [] conf h =
    unfold overlay in unfold value_of in unfold default_to in unfold or_else in refl
environment_loop-overlay ((name, value) ∷ vs) conf (free, fresh, h) =
    ap (environment_loop (entries_of vs)) (read_entry_of name value conf free)
    ∙ environment_loop-overlay vs (set_variable name value conf) h
    ∙ set_step value vs conf name fresh

-- Without PKG_CONFIG_PATH and PKG_CONFIG_PREFIX, the two files name the same directories.
pkg_config_path-none :
    (build : Build)
    → build.path ≡ none
    → build.prefix ≡ none
    → pkg_config_path build ≡ linux_libdir build
unfolding pkg_config_path path_part prefix_part linux_libdir
pkg_config_path-none build p q = rw (p, q) refl

-- Where the build defines neither PKG_CONFIG_PATH nor PKG_CONFIG_PREFIX, no variable is set twice and
-- `getenv` gives the value of a variable that is set and nothing for one that is not, the configuration
-- that Linux makes of the entries of the environment is the one that POSIX makes with `getenv`, whatever
-- the order of the entries is.
pub linux_config-posix_config :
    (vs : List (Bytes × Bytes)) (getenv : Bytes → Option Bytes) (build : Build)
    → build.path ≡ none
    → build.prefix ≡ none
    → AreVariables vs
    → Reads getenv vs
    → linux_config (entries_of vs) build ≡ posix_config getenv build
unfolding linux_config posix_config overlay newconfig
linux_config-posix_config vs getenv build p q h r =
    environment_loop-overlay vs (newconfig build) h
    ∙ rw
        (
          pkg_config_path-none build p q,
          r (codes "PKG_CONFIG_PATH"),
          r (codes "PKG_CONFIG_LIBDIR"),
          r (codes "PKG_CONFIG_SYSTEM_INCLUDE_PATH"),
          r (codes "PKG_CONFIG_SYSTEM_LIBRARY_PATH"),
          r (codes "PKG_CONFIG_TOP_BUILD_DIR"),
          r (codes "PKG_CONFIG_ALLOW_SYSTEM_CFLAGS"),
          r (codes "PKG_CONFIG_ALLOW_SYSTEM_LIBS"),
          or_else-none (value_of vs (codes "PKG_CONFIG_TOP_BUILD_DIR")),
          or_else-none (value_of vs (codes "PKG_CONFIG_ALLOW_SYSTEM_CFLAGS")),
          or_else-none (value_of vs (codes "PKG_CONFIG_ALLOW_SYSTEM_LIBS")),
        )
        refl
