-- ===== src/Tests/Packages.antt =====
-- Specifications, package files and loading.
use mathlib.Core.List.{reverse}
use u_config.Base.{
  true, false, [], ◌∷◌, Bytes, List, ◌≡◌, refl, codes, none, some, Result, ok, fail, out_of_fuel,
  map, if◌then◌else◌,
}
use u_config.S8.{s8equals, tokenspace, cuttail, taketail, whitespace}
use u_config.Trie.{leaf}
use u_config.FilePaths.{buildpath, realnameispath}
use u_config.Version.{gte, parseop}
use u_config.Spec.{Pkgspec, parsespecs}
use u_config.Spec.RoundTrip.{
  Request, plain, versioned, to_spec, IsFormed, print_requests, parsespecs-print,
}
use u_config.Package
use u_config.Package.{
  Parsed, FieldId, Fields, parsepackage, parse, ParseResult, parse_ok, dupvariable, no_package,
}
use u_config.Package.{strip_loop, stripescapes}
use u_config.Search.{newsearch, appendpath, appendpath_loop}
use u_config.Writer.{any, newfieldwriter, insertsyspath, insertsyspath_loop}
use u_config.Program.Rounds.{stripescapes_rounds}
use u_config.Package.Pieces.{is_text, plain as plain_byte, hash, broken, meant}
use u_config.Package.Values.{is_blank, Layout, IsLayout, IsOneLine}
use u_config.Package.Lines.{is_key}
use u_config.Package.RoundTrip.{
  Entry, assign, declare, remark, print_entries, meaning, parsepackage-print_entries,
}
use u_config.Load.{
  Filemap, found, not_found, Pkg, Flags, findpackage, search_loop, builtin, locate_file,
  readpackage, read_file, parsed_or_fail, complete, missing_field, located,
}
use u_config.Process.{Pkgs, Processor, Visit, no_pkgs, locate, store, pushed, indirect}
use u_config.Load.Find.{IsComplete, findpackage-IsComplete}

abbrev requests : List Request
requests = plain (codes "a") ∷ versioned (codes "b") gte (codes "1.2") ∷ []

requests-IsFormed : IsFormed requests
unfolding tokenspace parseop
requests-IsFormed = (
  (((refl, tt), λ e. cc), refl),
  ((((refl, tt), λ e. cc), refl), ((refl, (refl, (refl, tt))), λ e. cc), tt),
)

parsespecs-print_example :
    parsespecs (print_requests requests ∷ []) none ≡ ok (reverse (map to_spec requests))
parsespecs-print_example = parsespecs-print requests none requests-IsFormed

abbrev given_twice : Bytes
given_twice = codes "x=1 # one\nx=2\n"

duplicate_variable : parsepackage given_twice ≡ dupvariable (codes "x")
unfolding parse
duplicate_variable = refl

-- `x= a\#b \`, newline, `c # one`, where the value goes on in the second line.
abbrev broken_value : Layout
broken_value = record {
  lead = codes " ";
  pieces =
      plain_byte b'a' ∷ hash ∷ plain_byte b'b' ∷ plain_byte b' ' ∷ broken ∷ plain_byte b'c' ∷ [];
  blanks = codes " ";
  comment = some (codes " one");
}

abbrev short_value : Layout
short_value = record { lead = []; pieces = plain_byte b'n' ∷ []; blanks = []; comment = none }

abbrev entries : List Entry
entries =
    remark (codes " a file")
    ∷ assign (codes "x") broken_value
    ∷ declare FieldId.name short_value
    ∷ []

what_is_meant : meant broken_value.pieces ≡ codes "a#b c"
what_is_meant = refl

broken_value-IsLayout : IsLayout broken_value
unfolding is_text is_blank whitespace
broken_value-IsLayout = record {
  lead = (refl, tt);
  pieces = (refl, (refl, (refl, (refl, tt))));
  begins = refl;
  ends = refl;
  blanks = (refl, tt);
  comment = (refl, (refl, (refl, (refl, tt))));
}

short_value-IsLayout : IsLayout short_value
unfolding is_text is_blank whitespace
short_value-IsLayout = record {
  lead = tt;
  pieces = (refl, tt);
  begins = refl;
  ends = refl;
  blanks = tt;
  comment = tt;
}

remark-IsOneLine : IsOneLine (codes " a file")
remark-IsOneLine = (refl, (refl, (refl, (refl, (refl, (refl, (refl, tt)))))))

parsepackage-print_entries_example :
    parsepackage (print_entries entries) ≡ meaning no_package entries
unfolding is_key whitespace
parsepackage-print_entries_example =
    parsepackage-print_entries entries
      (remark-IsOneLine, (((refl, tt), λ e. cc), broken_value-IsLayout, (short_value-IsLayout, tt)))

abbrev nowhere : Bytes → Filemap
nowhere path = not_found

abbrev loaded_or : Pkg → Result Pkg → Pkg
loaded_or d (ok p) = p
loaded_or d (fail e) = d
loaded_or d out_of_fuel = d

abbrev no_pkg : Pkg
no_pkg = record {
  path = [];
  realname = [];
  contents = none;
  env = leaf;
  specs_requires = [];
  specs_requires_private = [];
  flags = record { direct = false; public = false };
  fields = Package.no_fields;
}

-- The package that needs no file.
abbrev itself : Pkg
itself = loaded_or no_pkg (findpackage nowhere (codes "/d" ∷ []) (codes "pkg-config"))

findpackage-IsComplete_example : IsComplete itself
unfolding findpackage locate_file search_loop readpackage read_file builtin realnameispath s8equals
    cuttail taketail parsed_or_fail parse complete missing_field located
findpackage-IsComplete_example =
    findpackage-IsComplete nowhere (codes "/d" ∷ []) (codes "pkg-config") itself refl

abbrev one_file : Bytes → Filemap
one_file path =
    if s8equals path (buildpath (codes "/e") (codes "x"))
    then found (codes "Name: x\n")
    else not_found

abbrev processor : Processor
processor = record {
  dirs = codes "/d" ∷ [];
  global = leaf;
  maxdepth = 1000;
  define_prefix = true;
  recursive = true;
  ignore_versions = false;
}

abbrev all_flags : Flags
all_flags = record { direct = true; public = true }

abbrev itself_spec : Pkgspec
itself_spec = record { name = codes "a"; op = none; version = none }

-- The package was loaded as a private dependency.
abbrev seen : Pkgs
seen =
    store (locate no_pkgs (codes "a")) (record no_pkg { realname = codes "a"; contents = some [] })

abbrev pushed_once : Visit
pushed_once = record {
  pkgs = store seen (record no_pkg { realname = codes "a"; contents = some []; flags = all_flags });
  newpkg = none;
  entries = pushed [] 1 (indirect all_flags) ∷ [];
}

stripescapes_rounds_example :
    (stripescapes (codes "a\\#b") ≡ strip_loop 6 (codes "a\\#b"))
    × (appendpath (newsearch b':') (codes "/a::/b")
        ≡ appendpath_loop 8 (newsearch b':') (codes "/a::/b"))
    × ((insertsyspath (newfieldwriter any) (codes "/a::/b") b':' b'I').args
        ≡ insertsyspath_loop 8 (newfieldwriter any).args (codes "/a::/b") b':' b'I')
stripescapes_rounds_example =
    stripescapes_rounds 2 (codes "a\\#b") (codes "/a::/b") (newsearch b':') (newfieldwriter any)
      b':' b'I'
