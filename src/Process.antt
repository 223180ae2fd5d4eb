-- ===== src/Process.antt =====
-- `process` of src/u-config.c: the packages of the specifications are loaded, and what they require,
-- with a stack of the lists that are worked on.
pub mod Depth
pub mod Order
pub mod Machine
pub mod Total
pub mod Listed
pub mod Loaded
pub mod Stored
pub mod Once
use u_config.Base.{
  ℕ, zero, suc, ◌+◌, ◌-◌, ◌^◌, Bool, true, false, not, ◌&&◌, ◌||◌, [], ◌∷◌, ◌++◌, Bytes, List, ltb,
  leb, if◌then◌else◌, codes, length, Option, none, some, Result, ok, fail, out_of_fuel, ◌>>=◌,
}
use u_config.Version.{Op, opname, validcompare, compareversions}
use u_config.FilePaths.{pathtorealname}
use u_config.Trie.{Trie, leaf, find, insert, assign}
use u_config.Env.{Env}
use u_config.Spec.{Pkgspec}
use u_config.Package.{Fields, no_fields}
use u_config.Load.{Filemap, Flags, no_flags, Pkg, text_of, findpackage, setprefix, expandmerge}

-- `pkgs`: the trie, the list of the load order by the realnames, its head first, and the count.
pub record Pkgs : Type 0 where
  pub pkgs : Trie Pkg
  pub head : List Bytes
  pub count : ℕ

abbrev pub no_pkgs : Pkgs
no_pkgs = record { pkgs = leaf; head = []; count = 0 }

-- The zeroed space of a new package.
abbrev pub newpkg : Bytes → Pkg
newpkg realname = record {
  path = [];
  realname = realname;
  contents = none;
  env = leaf;
  specs_requires = [];
  specs_requires_private = [];
  flags = no_flags;
  fields = no_fields;
}

abbrev pub or_new : Option Pkg → Bytes → Pkg
or_new none realname = newpkg realname
or_new (some p) realname = p

abbrev counted : Option Pkg → ℕ → ℕ
counted none count = count + 1
counted (some p) count = count

-- `locate`: the set with the package in it.
unfoldable pub locate : Pkgs → Bytes → Pkgs
locate t realname = record t {
  pkgs = insert realname (newpkg realname) t.pkgs;
  count = counted (find realname t.pkgs) t.count;
}

unfoldable pub pkg_at : Pkgs → Bytes → Pkg
pkg_at t realname = or_new (find realname t.pkgs) realname

-- A write through the pointer to a package.
unfoldable pub store : Pkgs → Pkg → Pkgs
store t p = record t { pkgs = assign p.realname p t.pkgs }

unfoldable pub prepend : Pkgs → Bytes → Pkgs
prepend t realname = record t { head = realname ∷ t.head }

pub record Processor : Type 0 where
  pub dirs : List Bytes
  pub global : Env
  pub maxdepth : ℕ
  pub define_prefix : Bool
  pub recursive : Bool
  pub ignore_versions : Bool

pub record Procstate : Type 0 where
  pub specs : List Pkgspec
  pub newpkg : Option Bytes
  pub depth : ℕ
  pub flags : Flags

-- `countof(proc->stack)`
abbrev pub stack_cap : ℕ
stack_cap = 256

unfoldable pub exceeded_depth : Bytes → Bytes
exceeded_depth tok =
    codes "pkg-config: " ++ (codes "exceeded max recursion depth on '" ++ (tok ++ codes "'\n"))

unfoldable pub failed_version : Pkg → Op → Bytes → Bytes
failed_version p op want =
    codes "pkg-config: "
    ++ (codes "requested '"
        ++ (p.realname
            ++ (codes "' "
                ++ (opname op
                    ++ (codes " '"
                        ++ (want
                            ++ (codes "' but got '"
                                ++ (text_of p.fields.version ++ codes "'\n"))))))))

-- `Version.Order.compareversions-lex` shows that the comparison always has a result.
unfoldable pub satisfies : Op → Bytes → Bytes → Bool
satisfies op version want = elim (compareversions version want) [
  | none ↦ false
  | some result ↦ validcompare op result
]

unfoldable pub check_version : Bool → Pkg → Pkgspec → Result Pkg
check_version ignored p spec = elim spec.op [
  | none ↦ ok p
  | some op ↦
      if ignored || satisfies op (text_of p.fields.version) (text_of spec.version)
      then ok p
      else fail (failed_version p op (text_of spec.version))
]

-- `flags & ~pkg_DIRECT`
abbrev pub indirect : Flags → Flags
indirect flags = record flags { direct = false }

-- `p->flags |= flags`
abbrev pub with_flags : Pkg → Flags → Pkg
with_flags p flags = record p {
  flags = record {
    direct = p.flags.direct || flags.direct;
    public = p.flags.public || flags.public;
  };
}

abbrev pub pushed : List Pkgspec → ℕ → Flags → Procstate
pushed specs depth flags = record { specs = specs; newpkg = none; depth = depth; flags = flags }

-- What one specification does: the new set, the name of a package that was loaded, and the entries
-- pushed, the top first.
pub record Visit : Type 0 where
  pub pkgs : Pkgs
  pub newpkg : Option Bytes
  pub entries : List Procstate

abbrev pub prepend_new : Pkgs → Option Bytes → Pkgs
prepend_new t none = t
prepend_new t (some realname) = prepend t realname

-- The set and the stack, the top first, behind a round.
pub record Round : Type 0 where
  pub pkgs : Pkgs
  pub stack : List Procstate

unfoldable pub is_loaded : Pkg → Bool
is_loaded p = elim p.contents [ none ↦ false | some text ↦ true ]

module _ (os_mapfile : Bytes → Filemap) (proc : Processor) where
  abbrev pub descends : ℕ → Bool
  descends depth = proc.recursive && ltb depth proc.maxdepth

  -- The package was loaded before; `top` is the index of the entry at work.
  unfoldable pub revisit : Pkgs → Pkg → ℕ → ℕ → Flags → Result Visit
  revisit t p top depth flags =
      let p' = with_flags p flags in
      let t' = store t p' in
      if flags.public && not p.flags.public && descends depth
      then (if leb (stack_cap - 1) top
          then fail (exceeded_depth (text_of p.fields.name))
          else ok (record {
            pkgs = t';
            newpkg = none;
            entries = pushed p.specs_requires depth (indirect flags) ∷ [];
          }))
      else ok (record { pkgs = t'; newpkg = none; entries = [] })

  -- Find, expand and check a package that was not loaded yet.
  unfoldable pub load : Pkg → Pkgspec → Result Pkg
  load p spec = do
    found ← findpackage os_mapfile proc.dirs spec.name
    let update = if proc.define_prefix then setprefix found else found
    merged ← expandmerge proc.global p update
    check_version proc.ignore_versions merged spec

  -- A package that was loaded is entered in the set, and what it requires is pushed.
  unfoldable pub enter : Pkgs → Pkg → ℕ → ℕ → Flags → Result Visit
  enter t p top depth flags =
      let t' = store t (with_flags p flags) in
      if descends depth
      then (if leb (stack_cap - 2) top
          then fail (exceeded_depth (text_of p.fields.name))
          else ok (record {
            pkgs = t';
            newpkg = some p.realname;
            entries =
                pushed p.specs_requires_private depth no_flags
                ∷ pushed p.specs_requires depth (indirect flags)
                ∷ [];
          }))
      else ok (record { pkgs = t'; newpkg = some p.realname; entries = [] })

  unfoldable pub first_visit : Pkgs → Pkg → Pkgspec → ℕ → ℕ → Flags → Result Visit
  first_visit t p spec top depth flags = do loaded ← load p spec; enter t loaded top depth flags

  unfoldable pub visit : Pkgs → Pkgspec → ℕ → ℕ → Flags → Result Visit
  visit pkgs spec top depth flags =
      let realname = pathtorealname spec.name in
      let t = locate pkgs realname in
      let p = pkg_at t realname in
      if is_loaded p then revisit t p top depth flags else first_visit t p spec top depth flags

  -- One round: the entry at the top of the stack, and those below it.
  unfoldable pub process_step : Pkgs → Procstate → List Procstate → Result Round
  process_step t s stack =
      let t' = prepend_new t s.newpkg in
      elim s.specs [
        | [] ↦ ok (record { pkgs = t'; stack = stack })
        | spec ∷ specs ↦ do
          v ← visit t' spec (length stack) (s.depth + 1) s.flags
          ok (record {
            pkgs = v.pkgs;
            stack = v.entries ++ (record s { specs = specs; newpkg = v.newpkg } ∷ stack);
          })
      ]

  -- `while (top >= 0)`
  unfoldable pub process_loop : ℕ → Pkgs → List Procstate → Result Pkgs
  process_loop f t [] = ok t
  process_loop zero t (s ∷ stack) = out_of_fuel
  process_loop (suc f) t (s ∷ stack) = do r ← process_step t s stack; process_loop f r.pkgs r.stack

  unfoldable pub process : ℕ → List Pkgspec → Result Pkgs
  process fuel specs =
      process_loop fuel no_pkgs (pushed specs 0 (record { direct = true; public = true }) ∷ [])
