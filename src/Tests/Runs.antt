-- ===== src/Tests/Runs.antt =====
-- Runs of the whole program on a small set of files.
use u_config.Base.{
  ℕ, ◌+◌, ◌≤◌, true, false, [], ◌∷◌, ◌++◌, Bytes, List, ◌≡◌, ◌≢◌, refl, codes, none, some,
  if◌then◌else◌, length, Result, ok, fail, out_of_fuel, ◌==◌,
}
use u_config.S8.{
  s8equals, startswith, cuttail, taketail, takehead, cuthead, s8cut, nexttoken, digits, whitespace,
  tokenspace,
}
use u_config.Trie.{find, insert, assign as assign_node}
use u_config.Env.{lookup, bind}
use u_config.Encode.{s8pathencode, pathdecode}
use u_config.FilePaths.{dirname, basename, buildpath, realnameispath, pathtorealname}
use u_config.Version.{gte, compareversions, validcompare, parseop, opname}
use u_config.Search.{appendpath, newsearch}
use u_config.Spec.{Pkgspec, parsespecs}
use u_config.Package.{parse, parsepackage, fieldbyid, set_field}
use u_config.Expand.{expand_loop, scan, name_len, after_name, name_at}
use u_config.Expand.Machine.{expand}
use u_config.Load.{
  Flags, Filemap, found, not_found, readpackage, read_file, builtin, search_loop, locate_file,
  parsed_or_fail, complete, missing_field, located, findpackage, setprefix, printed, expand_fields,
  expandmerge,
}
use u_config.Process.{
  Pkgs, Round, no_pkgs, pushed, stack_cap, locate, pkg_at, store, prepend, satisfies, check_version,
  is_loaded, revisit, load, enter, first_visit, visit, process_step, process_loop, process,
}
use u_config.Args.{byte_is, appendarg, excludearg, inposition}
use u_config.Writer.{insertsyspath, appendfield, writeargs}
use u_config.Settings.{Config, Settings, start, options_loop}
use u_config.Program.{processor_of, run_packages, packages, print_packages, checked_packages}
use u_config.Program.Exit.{Exit, exited, unfinished, deliver, uconfig}
use u_config.Program.Exit.Printed.{printing, printed as printed_for, uconfig_output}
use u_config.Program.Gathered.{output, print_arguments-output}
use u_config.Program.{with_result, print_arguments, cflags_written, libs_written}
use u_config.Expand.{done}
use u_config.Package.{no_fields}
use u_config.Load.{Pkg}
use u_config.Dequote.{dequote}
use u_config.Trie.{leaf}
use u_config.Program.Exit.Total.{uconfig_ends}
use u_config.Program.Exit.Quiet.{checked, uconfig_exists}
use u_config.Program.Checks.{AreChecked, run_packages-AreChecked}
use u_config.Process.Order.{traversal}
use u_config.Process.Machine.{process-traversal}
use u_config.Process.Listed.{IsListed}
use u_config.Process.Once.{process-IsListed}
use u_config.Process.Depth.{Reach, length-Reach_stack}

abbrev files : Bytes → Filemap
files path =
    if s8equals path (codes "/p/x.pc" ++ (0 ∷ []))
    then found (
        codes
          "dir=/usr\nName: x\nVersion: 1.2\nDescription: d\nRequires: y >= 1\nCflags: -I${dir}/i\n")
    else if s8equals path (codes "/p/y.pc" ++ (0 ∷ []))
    then found (codes "Name: y\nVersion: 1\nDescription: d\nCflags: -Dy\nLibs: -ly\n")
    else not_found

abbrev directory : Bytes → List Bytes
directory path = codes "x.pc" ∷ []

abbrev host : Config
host = record {
  pc_path = codes "/p";
  pc_sysincpath = codes "/i";
  pc_syslibpath = codes "/l";
  envpath = [];
  fixedpath = codes "/p";
  top_builddir = none;
  sys_incpath = codes "/i";
  sys_libpath = codes "/l";
  print_sysinc = none;
  print_syslib = none;
  define_prefix = false;
  haslisting = true;
  delim = b':';
}

-- All that a run computes with.
ran : List Bytes → Exit
unfolding uconfig s8equals startswith cuttail taketail takehead cuthead s8cut nexttoken digits
    whitespace tokenspace find insert assign_node lookup bind s8pathencode pathdecode dirname
    basename buildpath realnameispath pathtorealname compareversions validcompare parseop opname
    appendpath newsearch parsespecs parse parsepackage fieldbyid set_field expand_loop scan name_len
    after_name name_at expand readpackage read_file builtin search_loop locate_file parsed_or_fail
    complete missing_field located findpackage setprefix printed expand_fields expandmerge locate
    pkg_at store prepend satisfies check_version is_loaded revisit load enter first_visit visit
    process_step process_loop process appendarg excludearg inposition insertsyspath appendfield
    writeargs start options_loop run_packages packages print_packages checked_packages
ran args = uconfig directory files 20 host args

abbrev x_spec : Pkgspec
x_spec = record { name = codes "x"; op = none; version = none }

abbrev both : Flags
both = record { direct = true; public = true }

cflags_of_x : ran (codes "--cflags" ∷ codes "x" ∷ []) ≡ exited (codes "-I/usr/i -Dy\n") [] 0
unfolding ran
cflags_of_x = refl

version_too_low :
    ran (codes "y > 1" ∷ []) ≡ exited [] (codes "pkg-config: requested 'y' > '1' but got '1'\n") 1
unfolding ran
version_too_low = refl

both_listed : ran (codes "--list-package-names" ∷ []) ≡ exited (codes "x\n") [] 0
unfolding ran
both_listed = refl

process-traversal_example :
    (r : ℕ) × ((f : ℕ)
      → process files (processor_of (start host)) (r + f) (x_spec ∷ [])
        ≡ traversal files (processor_of (start host)) (x_spec ∷ []))
process-traversal_example = process-traversal files (processor_of (start host)) (x_spec ∷ [])

abbrev round_or : Round → Result Round → Round
round_or d (ok r) = r
round_or d (fail e) = d
round_or d out_of_fuel = d

-- The state behind the first round, with three entries on the stack.
abbrev behind_x : Round
behind_x =
    round_or (record { pkgs = no_pkgs; stack = [] })
      (process_step files (processor_of (start host)) no_pkgs (pushed (x_spec ∷ []) 0 both) [])

three_entries : length behind_x.stack ≡ 3
unfolding ran
three_entries = refl

length-Reach_stack_example : length behind_x.stack ≤ stack_cap
unfolding ran
length-Reach_stack_example = length-Reach_stack files (processor_of (start host)) (x_spec ∷ []) (
    Reach.round {t = no_pkgs} {t' = behind_x.pkgs} {s = pushed (x_spec ∷ []) 0 both} {stack = []}
      {stack' = behind_x.stack} Reach.start refl)

uconfig_ends_example :
    (e : Exit) × (r : ℕ) × (e ≢ unfinished)
    × ((f : ℕ) → uconfig directory files (r + f) host (codes "--libs" ∷ codes "x" ∷ []) ≡ e)
uconfig_ends_example = uconfig_ends directory files host (codes "--libs" ∷ codes "x" ∷ [])

uconfig_exists_example :
    uconfig directory files 20 host (codes "--exists" ∷ codes "z" ∷ []) ≡ exited [] [] 1
unfolding ran checked byte_is
uconfig_exists_example = uconfig_exists directory files 20 host (codes "z" ∷ []) (refl, tt)

abbrev at_least_one : Settings
at_least_one = record (start host) {
  override_op = some gte;
  override_version = codes "1";
  recursive = false;
  ignore_versions = true;
  args = codes "x" ∷ [];
}

run_packages-AreChecked_example :
    (specs : List Pkgspec) × (t : Pkgs) × (parsespecs at_least_one.args none ≡ ok specs)
    × (process files (processor_of at_least_one) 20 specs ≡ ok t)
    × ((t.count == 0) ≡ false)
    × AreChecked (some gte) (codes "1") (packages t)
unfolding ran
run_packages-AreChecked_example = run_packages-AreChecked files 20 host at_least_one [] refl

abbrev pkgs_or : Pkgs → Result Pkgs → Pkgs
pkgs_or d (ok t) = t
pkgs_or d (fail e) = d
pkgs_or d out_of_fuel = d

abbrev all_of_x : Pkgs
all_of_x = pkgs_or no_pkgs (process files (processor_of (start host)) 20 (x_spec ∷ []))

process-IsListed_example : IsListed all_of_x all_of_x.head
unfolding ran
process-IsListed_example =
    process-IsListed files (processor_of (start host)) 20 (x_spec ∷ []) all_of_x refl

uconfig_output_example :
    uconfig directory files 20 host (codes "--cflags" ∷ codes "--libs" ∷ codes "x" ∷ [])
    ≡ deliver false false (
        with_result (parsespecs (codes "x" ∷ []) none) λ specs.
          with_result
            (process files (processor_of (printing host (codes "x" ∷ []))) 20 specs)
            λ t. printed_for host (codes "x" ∷ []) t)
unfolding byte_is
uconfig_output_example = uconfig_output directory files 20 host (codes "x" ∷ []) (refl, tt)

-- A package with a directory of the system, and a library that is given twice.
abbrev z_package : Pkg
z_package = record {
  path = codes "/p/z.pc";
  realname = codes "z";
  contents = some [];
  env = leaf;
  specs_requires = [];
  specs_requires_private = [];
  flags = record { direct = true; public = true };
  fields = record no_fields {
    cflags = some (codes "-I/i -Dz -I/z");
    libs = some (codes "-lm -lz -lm");
    libs_private = some (codes "-lq");
  };
}

print_arguments-output_example :
    print_arguments host (printing host []) (z_package ∷ [])
    ≡ output host (printing host []) (z_package ∷ [])
print_arguments-output_example = print_arguments-output host (printing host []) (z_package ∷ [])

kept_only :
    print_arguments host (printing host []) (z_package ∷ []) ≡ done (codes "-Dz -I/z -lz -lm\n")
unfolding print_arguments cflags_written libs_written start find insert assign_node s8equals
    startswith s8cut appendarg excludearg inposition insertsyspath appendfield writeargs
    s8pathencode dequote byte_is takehead cuthead
kept_only = refl
