-- ===== src/Settings.antt =====
-- The options of `uconfig` in src/u-config.c: the variables that they set, and what each sets.
pub mod Total
use u_config.Base.{
  ℕ, zero, suc, ◌^◌, ◌-◌, ◌+◌, Bool, true, false, not, ◌&&◌, ◌||◌, [], ◌∷◌, ◌++◌, Bytes, List,
  if◌then◌else◌, codes, Option, none, some, Result, ok, fail, out_of_fuel, ◌>>=◌, length,
}
use u_config.S8.{s8equals, s8cut, Cut}
use u_config.Encode.{s8pathencode}
use u_config.Trie.{leaf}
use u_config.Env.{Env, bind}
use u_config.Version.{Op, gte, eq, lte}
use u_config.Search.{Search, newsearch, append, appendpath, prependpath}
use u_config.Writer.{Filter, any, only_i, only_L, only_l, other_c, other_l}
use u_config.Options.{Options, Optresult, Argument, Next, nextoption, getargopt, parseuint}

-- `config`, but for the arena and the arguments; a string that may be null is an Option.
pub record Config : Type 0 where
  pub pc_path : Bytes
  pub pc_sysincpath : Bytes
  pub pc_syslibpath : Bytes
  pub envpath : Bytes
  pub fixedpath : Bytes
  pub top_builddir : Option Bytes
  pub sys_incpath : Bytes
  pub sys_libpath : Bytes
  pub print_sysinc : Option Bytes
  pub print_syslib : Option Bytes
  pub define_prefix : Bool
  pub haslisting : Bool
  pub delim : ℕ

pub data Listing : Type 0 where
  list_none list_all list_names : Listing

-- The variables of `uconfig`, with those of the processor; `args` are the positional arguments.
pub record Settings : Type 0 where
  pub filterc : Filter
  pub filterl : Filter
  pub msvc : Bool
  pub libs : Bool
  pub cflags : Bool
  pub err_to_stdout : Bool
  pub silent : Bool
  pub static_ : Bool
  pub argdelim : ℕ
  pub modversion : Bool
  pub override_op : Option Op
  pub override_version : Bytes
  pub print_sysinc : Bool
  pub print_syslib : Bool
  pub variable : Option Bytes
  pub listing : Listing
  pub define_prefix : Bool
  pub recursive : Bool
  pub ignore_versions : Bool
  pub maxdepth : ℕ
  pub search : Search
  pub global : Env
  pub args : List Bytes

abbrev given : Option Bytes → Bool
given none = false
given (some s) = true

unfoldable pub builddir : Option Bytes → Bytes
unfolding s8pathencode
builddir none = codes "$(top_builddir)"
builddir (some s) = s8pathencode s

unfoldable pub global_variables : Config → Env
unfolding bind builddir
global_variables conf = bind (codes "pc_top_builddir") (builddir conf.top_builddir) (
    bind (codes "pc_sysrootdir") (codes "/") (
      bind (codes "pc_system_libdirs") conf.pc_syslibpath (
        bind (codes "pc_system_includedirs") conf.pc_sysincpath
          (bind (codes "pc_path") conf.pc_path leaf))))

unfoldable pub start : Config → Settings
unfolding global_variables appendpath newsearch
start conf = record {
  filterc = any;
  filterl = any;
  msvc = false;
  libs = false;
  cflags = false;
  err_to_stdout = false;
  silent = false;
  static_ = false;
  argdelim = b' ';
  modversion = false;
  override_op = none;
  override_version = [];
  print_sysinc = given conf.print_sysinc;
  print_syslib = given conf.print_syslib;
  variable = none;
  listing = list_none;
  define_prefix = conf.define_prefix;
  recursive = true;
  ignore_versions = false;
  maxdepth = 2 ^ 31 - 1;
  search = appendpath (appendpath (newsearch conf.delim) conf.envpath) conf.fixedpath;
  global = global_variables conf;
  args = [];
}

-- The options that only set variables, each name with what it sets; no name stands twice.
unfoldable pub switches : List (Bytes × (Settings → Settings))
switches =
    (codes "-modversion", λ s. record s { modversion = true; recursive = false })
    ∷ (codes "-define-prefix", λ s. record s { define_prefix = true })
    ∷ (codes "-dont-define-prefix", λ s. record s { define_prefix = false })
    ∷ (codes "-cflags", λ s. record s { cflags = true; filterc = any })
    ∷ (codes "-libs", λ s. record s { libs = true; filterl = any })
    ∷ (codes "-static", λ s. record s { static_ = true })
    ∷ (codes "-libs-only-L", λ s. record s { libs = true; filterl = only_L })
    ∷ (codes "-libs-only-l", λ s. record s { libs = true; filterl = only_l })
    ∷ (codes "-libs-only-other", λ s. record s { libs = true; filterl = other_l })
    ∷ (codes "-cflags-only-I", λ s. record s { cflags = true; filterc = only_i })
    ∷ (codes "-cflags-only-other", λ s. record s { cflags = true; filterc = other_c })
    ∷ (codes "-msvc-syntax", λ s. record s { msvc = true })
    ∷ (codes "-newlines", λ s. record s { argdelim = b'\n' })
    ∷ (codes "-exists", λ s. record s { silent = true })
    ∷ (codes "-silence-errors", λ s. record s { silent = true })
    ∷ (codes "-errors-to-stdout", λ s. record s { err_to_stdout = true })
    ∷ (codes "-print-errors", λ s. s)
    ∷ (codes "-short-errors", λ s. s)
    ∷ (codes "-uninstalled", λ s. s)
    ∷ (codes "-keep-system-cflags", λ s. record s { print_sysinc = true })
    ∷ (codes "-keep-system-libs", λ s. record s { print_syslib = true })
    ∷ (codes "-validate", λ s. record s { silent = true; recursive = false })
    ∷ []

-- What an option comes to: the loop goes on, or `uconfig` returns after the given output, or it writes
-- through a null pointer.
pub data Applied : Type 0 where
  continued : Options → Settings → Applied
  printed_usage : Applied
  printed_version : Applied
  returned : Applied
  null_write : Applied

unfoldable pub overridden : Op → Settings → Bytes → Settings
overridden op s value = record s {
  override_op = some op;
  override_version = value;
  silent = true;
  recursive = false;
  ignore_versions = true;
}

unfoldable pub defined : Settings → Options → Bytes → Cut → Result Applied
unfolding bind
defined s p value c =
    if c.ok
    then ok (continued p (record s { global = bind c.head c.tail s.global }))
    else fail (
        codes "pkg-config: "
        ++ (codes "value missing in --define-variable for '" ++ (value ++ codes "'\n")))

unfoldable pub searched : Settings → Options → Option Search → Applied
searched s p none = null_write
searched s p (some search) = continued p (record s { search = search })

-- The options that take a value; no name stands twice.
unfoldable pub valued : List (Bytes × (Settings → Options → Bytes → Result Applied))
unfolding overridden defined searched s8cut prependpath parseuint
valued =
    (codes "-variable", λ s p v. ok (continued p (record s { variable = some v })))
    ∷ (codes "-with-path", λ s p v. ok (searched s p (prependpath s.search v)))
    ∷ (
      codes "-maximum-traverse-depth",
      λ s p v. ok (continued p (record s { maxdepth = parseuint v 1000 })),
    )
    ∷ (codes "-define-variable", λ s p v. defined s p v (s8cut v b'='))
    ∷ (codes "-atleast-pkgconfig-version", λ s p v. ok returned)
    ∷ (codes "-atleast-version", λ s p v. ok (continued p (overridden gte s v)))
    ∷ (codes "-exact-version", λ s p v. ok (continued p (overridden eq s v)))
    ∷ (codes "-max-version", λ s p v. ok (continued p (overridden lte s v)))
    ∷ []

unfoldable pub named {ℓ} : {A : Type ℓ} → List (Bytes × A) → Bytes → Option A
unfolding s8equals
named [] name = none
named ((n, a) ∷ options) name = if s8equals name n then some a else named options name

unfoldable pub take_value : Options → Bytes → Option Bytes → Result Argument
unfolding getargopt
take_value p name (some v) = ok (record { value = v; options = p })
take_value p name none = getargopt p name

unfoldable pub unimplemented : Bytes → Bytes
unimplemented option =
    codes "pkg-config: " ++ (codes "-" ++ (option ++ codes " is unimplemented\n"))

unfoldable pub unknown : Bytes → Bytes
unknown option = codes "pkg-config: " ++ (codes "unknown option -" ++ (option ++ codes "\n"))

unfoldable pub listed : Bool → Listing → Settings → Options → Bytes → Result Applied
unfolding unimplemented
listed haslisting listing s p option =
    if haslisting
    then ok (continued p (record s { listing = listing }))
    else fail (unimplemented option)

-- The options that end the loop or depend on the platform.
unfoldable pub special : Bool → Settings → Options → Bytes → Result Applied
unfolding s8equals listed unknown
special haslisting s p option =
    if s8equals option (codes "h") || s8equals option (codes "-help")
    then ok printed_usage
    else if s8equals option (codes "-version")
    then ok printed_version
    else if s8equals option (codes "-list-all")
    then listed haslisting list_all s p option
    else if s8equals option (codes "-list-package-names")
    then listed haslisting list_names s p option
    else fail (unknown option)

-- What is found among the options with a value, and among the switches.
unfoldable pub valued_option :
    Bool
    → Settings
    → Options
    → Bytes
    → Option Bytes
    → Option (Settings → Options → Bytes → Result Applied)
    → Result Applied
unfolding take_value special
valued_option haslisting s p option value none = special haslisting s p option
valued_option haslisting s p option value (some set) = do
  a ← take_value p option value
  set s a.options a.value

unfoldable pub switch_option :
    Bool → Settings → Options → Bytes → Option Bytes → Option (Settings → Settings) → Result Applied
unfolding named valued valued_option
switch_option haslisting s p option value (some set) = ok (continued p (set s))
switch_option haslisting s p option value none =
    valued_option haslisting s p option value (named valued option)

unfoldable pub apply_option : Bool → Settings → Options → Bytes → Option Bytes → Result Applied
unfolding named switches switch_option
apply_option haslisting s p option value =
    switch_option haslisting s p option value (named switches option)

-- One result of `nextoption`.
unfoldable pub apply : Bool → Settings → Options → Optresult → Result Applied
unfolding apply_option append
apply haslisting s p r =
    if r.isoption
    then apply_option haslisting s p r.arg r.value
    else ok (continued p (record s { args = append s.args r.arg }))

-- `for (options opts = newoptions(origargs, conf->nargs);;)`
unfoldable pub options_loop : ℕ → Bool → Settings → Options → Result Applied
unfolding nextoption apply
options_loop zero haslisting s p = out_of_fuel
options_loop (suc f) haslisting s p =
    let n = nextoption p in
    elim n.result [
      | none ↦ ok (continued n.options s)
      | some r ↦ do
        applied ← apply haslisting s n.options r
        elim applied [ continued p' s' ↦ options_loop f haslisting s' p' | other ↦ ok other ]
    ]
