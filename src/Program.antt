-- ===== src/Program.antt =====
-- `uconfig` of src/u-config.c behind its options: the packages are loaded and checked, and what was
-- asked for is printed. A phase gives the text that it prints, and how it ends.
pub mod Usage
pub mod Listing
pub mod Checks
pub mod Fields
pub mod Rounds
pub mod Gathered
pub mod Total
pub mod Exit
use u_config.Base.{
  ℕ, zero, suc, ◌+◌, ◌*◌, ◌/◌, Bool, true, false, not, ◌&&◌, ◌||◌, [], ◌∷◌, ◌++◌, Bytes, List,
  length, take, ◌==◌, if◌then◌else◌, codes, map, Option, none, some, Result, ok, fail, out_of_fuel,
  ◌>>=◌,
}
use u_config.Env.{Env, lookup}
use u_config.Version.{Op}
use u_config.Expand
use u_config.Expand.{Expansion, done, stopped}
use u_config.Expand.Machine.{expand}
use u_config.Spec.{Pkgspec, parsespecs}
use u_config.Search.{Search}
use u_config.Args.{Args}
use u_config.Writer.{
  Filter, FieldWriter, newfieldwriter, insertsyspath, appendfield, Written, writeargs,
}
use u_config.Load.{Filemap, Pkg, text_of}
use u_config.Process.{Pkgs, Processor, pkg_at, satisfies, failed_version, process}
use u_config.Settings.{Config, Settings}

-- One phase behind another, where the first ended well.
abbrev pub next : Expansion → Expansion → Expansion
next (done a) (done b) = done (a ++ b)
next (done a) (stopped b e) = stopped (a ++ b) e
next (done a) Expand.out_of_fuel = Expand.out_of_fuel
next (stopped a e) k = stopped a e
next Expand.out_of_fuel k = Expand.out_of_fuel

-- A phase that prints nothing, and what is done with its result.
abbrev pub with_result {ℓ} : {A : Type ℓ} → Result A → (A → Expansion) → Expansion
with_result (ok a) k = k a
with_result (fail e) k = stopped [] e
with_result out_of_fuel k = Expand.out_of_fuel

-- The packages in the order of the list.
unfoldable pub packages : Pkgs → List Pkg
unfolding pkg_at
packages t = map (pkg_at t) t.head

abbrev pub processor_of : Settings → Processor
processor_of s = record {
  dirs = s.search.list;
  global = s.global;
  maxdepth = s.maxdepth;
  define_prefix = s.define_prefix;
  recursive = s.recursive;
  ignore_versions = s.ignore_versions;
}

unfoldable pub no_packages : Bytes
no_packages = codes "pkg-config: " ++ codes "requires at least one package name\n"

-- `--{atleast,exact,max}-version`
unfoldable pub check_override : Option Op → Bytes → List Pkg → Expansion
unfolding satisfies failed_version
check_override none want pkgs = done []
check_override (some op) want [] = done []
check_override (some op) want (p ∷ pkgs) =
    let rest = check_override (some op) want pkgs in
    if satisfies op (text_of p.fields.version) want
    then rest
    else stopped [] (failed_version p op want)

unfoldable pub print_modversion : List Pkg → Bytes
print_modversion [] = []
print_modversion (p ∷ pkgs) =
    let rest = print_modversion pkgs in
    if p.flags.direct then text_of p.fields.version ++ (codes "\n" ++ rest) else rest

-- The value of a variable in one package, with a newline, where it has one.
unfoldable pub print_value : Env → Pkg → Option Bytes → Expansion
unfolding expand
print_value global p none = done []
print_value global p (some value) = next (expand global p.env p.path value) (done (codes "\n"))

unfoldable pub print_variable : Env → Bytes → List Pkg → Expansion
unfolding print_value lookup
print_variable global variable [] = done []
print_variable global variable (p ∷ pkgs) =
    let rest = print_variable global variable pkgs in
    if p.flags.direct then next (print_value global p (lookup global p.env variable)) rest else rest

unfoldable pub appendcflags : Bool → FieldWriter → List Pkg → Result FieldWriter
unfolding appendfield
appendcflags static_ w [] = ok w
appendcflags static_ w (p ∷ pkgs) = do
  w' ← appendfield w p.realname (text_of p.fields.cflags)
  w'' ← if static_ then appendfield w' p.realname (text_of p.fields.cflags_private) else ok w'
  appendcflags static_ w'' pkgs

unfoldable pub appendlibs_of : Bool → FieldWriter → Pkg → Result FieldWriter
unfolding appendfield
appendlibs_of static_ w p =
    if static_
    then (do
      w' ← appendfield w p.realname (text_of p.fields.libs)
      appendfield w' p.realname (text_of p.fields.libs_private))
    else if p.flags.public
    then appendfield w p.realname (text_of p.fields.libs)
    else ok w

unfoldable pub appendlibs : Bool → FieldWriter → List Pkg → Result FieldWriter
unfolding appendlibs_of
appendlibs static_ w [] = ok w
appendlibs static_ w (p ∷ pkgs) = do w' ← appendlibs_of static_ w p; appendlibs static_ w' pkgs

-- `newfieldwriter` and the settings of the writer.
unfoldable pub fieldwriter : Filter → Settings → FieldWriter
unfolding newfieldwriter
fieldwriter f s = record (newfieldwriter f) { delim = s.argdelim; msvc = s.msvc }

unfoldable pub system_paths : Bool → FieldWriter → Bytes → ℕ → ℕ → FieldWriter
unfolding insertsyspath
system_paths print w path delim flag = if print then w else insertsyspath w path delim flag

unfoldable pub cflags_written : Config → Settings → List Pkg → Result Written
unfolding fieldwriter system_paths appendcflags writeargs
cflags_written conf s pkgs =
    if s.cflags
    then (do
      w ←
          appendcflags s.static_
            (system_paths s.print_sysinc (fieldwriter s.filterc s) conf.sys_incpath conf.delim b'I')
            pkgs
      ok (writeargs w 0))
    else ok (record { out = []; argcount = 0 })

unfoldable pub libs_written : Config → Settings → List Pkg → ℕ → Result Written
unfolding fieldwriter system_paths appendlibs writeargs
libs_written conf s pkgs argcount =
    if s.libs
    then (do
      w ←
          appendlibs s.static_
            (system_paths s.print_syslib (fieldwriter s.filterl s) conf.sys_libpath conf.delim b'L')
            pkgs
      ok (writeargs w argcount))
    else ok (record { out = []; argcount = argcount })

unfoldable pub print_arguments : Config → Settings → List Pkg → Expansion
unfolding cflags_written libs_written
print_arguments conf s pkgs = with_result (cflags_written conf s pkgs) λ c. next (done c.out) (
    with_result (libs_written conf s pkgs c.argcount)
      λ l. next (done l.out) (if s.cflags || s.libs then done (codes "\n") else done []))

unfoldable pub print_version : Settings → List Pkg → Expansion
unfolding print_modversion
print_version s pkgs = if s.modversion then done (print_modversion pkgs) else done []

unfoldable pub print_asked : Settings → Option Bytes → List Pkg → Expansion
unfolding print_variable
print_asked s none pkgs = done []
print_asked s (some variable) pkgs = print_variable s.global variable pkgs

-- What is printed of the packages.
unfoldable pub print_packages : Config → Settings → List Pkg → Expansion
unfolding check_override print_version print_asked print_arguments
print_packages conf s pkgs = next (check_override s.override_op s.override_version pkgs) (
    next (print_version s pkgs)
      (next (print_asked s s.variable pkgs) (print_arguments conf s pkgs)))

unfoldable pub checked_packages : Config → Settings → Pkgs → Expansion
unfolding packages print_packages no_packages
checked_packages conf s t =
    if t.count == 0 then stopped [] no_packages else print_packages conf s (packages t)

module _ (os_mapfile : Bytes → Filemap) where
  -- On a number of rounds for `process`.
  unfoldable pub run_packages : ℕ → Config → Settings → Expansion
  unfolding checked_packages parsespecs process
  run_packages fuel conf s = with_result (parsespecs s.args none) λ specs.
      with_result (process os_mapfile (processor_of s) fuel specs) λ t. checked_packages conf s t
