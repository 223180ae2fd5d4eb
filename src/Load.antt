-- ===== src/Load.antt =====
-- Loading one package in src/u-config.c: `readpackage`, `findpackage`, `setprefix`, `expandmerge`.
-- The platform's `os_mapfile` is a parameter.
pub mod Find
use u_config.Base.{
  ℕ, Bool, true, false, not, [], ◌∷◌, ◌++◌, Bytes, List, if◌then◌else◌, codes, Option, none, some,
  Result, ok, fail, out_of_fuel, ◌>>=◌,
}
use u_config.S8.{s8equals, cuttail}
use u_config.Encode.{s8pathencode}
use u_config.FilePaths.{dirname, basename, buildpath, realnameispath, pathtorealname}
use u_config.Env.{Env, bind}
use u_config.Expand
use u_config.Expand.{Expansion, done, stopped}
use u_config.Expand.Machine.{expand}
use u_config.Spec.{Pkgspec, parsespecs}
use u_config.Package
use u_config.Package.{
  Fields, FieldId, Parsed, ParseResult, parse_ok, dupfield, dupvariable, fieldbyid, set_field,
  parsepackage, no_fields,
}

pub data Filemap : Type 0 where
  found : Bytes → Filemap
  not_found : Filemap
  read_error : Filemap

pub record Flags : Type 0 where
  pub direct : Bool
  pub public : Bool

abbrev pub no_flags : Flags
no_flags = record { direct = false; public = false }

-- The struct `pkg`, but for its place in the hash trie and in the list of the load order.
pub record Pkg : Type 0 where
  pub path : Bytes
  pub realname : Bytes
  pub contents : Option Bytes
  pub env : Env
  pub specs_requires : List Pkgspec
  pub specs_requires_private : List Pkgspec
  pub flags : Flags
  pub fields : Fields

abbrev pub text_of : Option Bytes → Bytes
text_of none = []
text_of (some s) = s

abbrev pub message : Bytes → Bytes → Bytes → Bytes → Bytes
message what tok where_ path =
    codes "pkg-config: " ++ (what ++ (tok ++ (where_ ++ (path ++ codes "'\n"))))

unfoldable pub builtin : Bytes
builtin = codes "Name: u-config\nVersion: 0.34.0\nDescription:\n"

unfoldable pub read_file : Bytes → Bytes → Filemap → Result (Option Bytes)
read_file path realname (found contents) = ok (some contents)
read_file path realname not_found = ok none
read_file path realname read_error =
    fail (message (codes "could not read package '") realname (codes "' from '") path)

unfoldable pub could_not_find : Bytes → Bytes
could_not_find realname =
    codes "pkg-config: " ++ (codes "could not find package '" ++ (realname ++ codes "'\n"))

-- The file that was found: its path without the terminator, the realname and the contents.
pub record Source : Type 0 where
  pub path : Bytes
  pub realname : Bytes
  pub contents : Bytes

module _ (os_mapfile : Bytes → Filemap) where
  unfoldable pub readpackage : Bytes → Bytes → Result (Option Bytes)
  readpackage path realname =
      if s8equals realname (codes "pkg-config")
      then ok (some builtin)
      else read_file path realname (os_mapfile path)

  -- `for (n = dirs->list.head; n && !contents.s; n = n->next)`
  unfoldable pub search_loop : List Bytes → Bytes → Result Source
  search_loop [] realname = fail (could_not_find realname)
  search_loop (dir ∷ dirs) realname = do
    let path = buildpath dir realname
    let rest = search_loop dirs realname
    contents ← readpackage path realname
    elim contents [
      | none ↦ rest
      | some text ↦ ok (record { path = cuttail path 1; realname = realname; contents = text })
    ]

  -- The realname as a path first, where it is one.
  unfoldable pub locate_file : List Bytes → Bytes → Result Source
  locate_file dirs realname =
      if realnameispath realname
      then (do
        contents ← readpackage (realname ++ (0 ∷ [])) realname
        elim contents [
          | none ↦ search_loop dirs realname
          | some text ↦
              ok (record { path = realname; realname = pathtorealname realname; contents = text })
        ])
      else search_loop dirs realname

-- The parse error of a file, or the package.
unfoldable pub parsed_or_fail : Bytes → ParseResult → Result Parsed
parsed_or_fail path (parse_ok p) = ok p
parsed_or_fail path (dupvariable key) =
    fail (message (codes "duplicate variable '") key (codes "' in '") path)
parsed_or_fail path (dupfield key) =
    fail (message (codes "duplicate field '") key (codes "' in '") path)
parsed_or_fail path ParseResult.out_of_fuel = out_of_fuel

abbrev pub absent : Option Bytes → Bool
absent none = true
absent (some v) = false

unfoldable pub missing_field : Fields → Option Bytes
missing_field p =
    if absent p.name
    then some (codes "Name")
    else if absent p.version
    then some (codes "Version")
    else if absent p.description
    then some (codes "Description")
    else none

unfoldable pub complete : Pkg → Option Bytes → Result Pkg
complete p none = ok p
complete p (some field) = fail (message (codes "missing field '") field (codes "' in '") p.path)

-- `r.pkg` with its path, its realname and the variable `pcfiledir`.
unfoldable pub located : Source → Parsed → Pkg
located s r = record {
  path = s.path;
  realname = s.realname;
  contents = some s.contents;
  env = bind (codes "pcfiledir") (s8pathencode (dirname s.path)) r.env;
  specs_requires = [];
  specs_requires_private = [];
  flags = no_flags;
  fields = r.fields;
}

unfoldable pub findpackage : (Bytes → Filemap) → List Bytes → Bytes → Result Pkg
findpackage os_mapfile dirs realname = do
  s ← locate_file os_mapfile dirs realname
  r ← parsed_or_fail s.path (parsepackage s.contents)
  let p = located s r
  complete p (missing_field p.fields)

unfoldable pub setprefix : Pkg → Pkg
setprefix p =
    let parent = dirname p.path in
    let prefix = s8pathencode (dirname (dirname parent)) in
    if s8equals (codes "pkgconfig") (basename parent)
    then record p { env = bind (codes "prefix") prefix p.env }
    else p

-- The text that a memory buffer holds at the end.
unfoldable pub printed : Expansion → Result Bytes
printed (done out) = ok out
printed (stopped out err) = fail err
printed Expand.out_of_fuel = out_of_fuel

abbrev pub field_ids : List FieldId
field_ids =
    FieldId.name ∷ FieldId.description ∷ FieldId.url ∷ FieldId.version ∷ FieldId.requires
    ∷ FieldId.requires_private ∷ FieldId.conflicts ∷ FieldId.libs ∷ FieldId.libs_private
    ∷ FieldId.cflags ∷ FieldId.cflags_private ∷ []

-- `for (i = 0; i < PKG_NFIELDS; i++)`
unfoldable pub expand_fields : Env → Pkg → List FieldId → Fields → Result Fields
expand_fields global update [] base = ok base
expand_fields global update (id ∷ ids) base = do
  text ← printed (expand global update.env update.path (text_of (fieldbyid update.fields id)))
  expand_fields global update ids (set_field base id (some text))

unfoldable pub expandmerge : Env → Pkg → Pkg → Result Pkg
expandmerge global base update = do
  fields ← expand_fields global update field_ids base.fields
  requires ← parsespecs (text_of fields.requires ∷ []) (some base.realname)
  private ← parsespecs (text_of fields.requires_private ∷ []) (some base.realname)
  ok (record {
    path = update.path;
    realname = base.realname;
    contents = update.contents;
    env = update.env;
    specs_requires = requires;
    specs_requires_private = private;
    flags = update.flags;
    fields = fields;
  })
