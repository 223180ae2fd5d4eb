-- ===== src/Process/Total.antt =====
-- The traversal of `process` always has a result: no part of it runs out of fuel.
use u_config.Base.{
  ℕ, zero, suc, ◌+◌, ◌-◌, ◌≤◌, ◌<◌, Bool, [], ◌∷◌, ◌++◌, Bytes, List, length, ◌≡◌, ◌≢◌, refl, arith,
  out_of_fuel, >>=-ne-out_of_fuel, Option, none, some, Bool-cases, inl, inr,
}
use u_config.Env.{Env}
use u_config.Spec.{Pkgspec}
use u_config.Spec.Laws.{parsespecs-ne-out_of_fuel}
use u_config.Expand
use u_config.Expand.{Expansion, done, stopped}
use u_config.Expand.Total.{expand-ne-out_of_fuel}
use u_config.Package.{ParseResult, parse_ok, dupfield, dupvariable, parsepackage, Fields, FieldId}
use u_config.Package.Total.{parsepackage-ne-out_of_fuel}
use u_config.Load.{
  Filemap, found, not_found, read_error, Flags, Pkg, read_file, readpackage, search_loop,
  locate_file, parsed_or_fail, complete, findpackage, printed, expand_fields, field_ids,
  expandmerge,
}
use u_config.FilePaths.{pathtorealname}
use u_config.Process.{
  Pkgs, is_loaded, pkg_at, locate, no_pkgs, Processor, Procstate, check_version, visit, revisit,
  load, enter, first_visit, prepend_new, stack_cap,
}
use u_config.Process.Depth.{length-visit_entries}
use u_config.Process.Order.{specs_with, entries_at, traversal}

read_file-ne-out_of_fuel :
    (path realname : Bytes) (m : Filemap) → read_file path realname m ≢ out_of_fuel
unfolding read_file
read_file-ne-out_of_fuel path realname (found contents) = λ e. cc
read_file-ne-out_of_fuel path realname not_found = λ e. cc
read_file-ne-out_of_fuel path realname read_error = λ e. cc

parsed_or_fail-ne-out_of_fuel :
    (path : Bytes) (r : ParseResult)
    → r ≢ ParseResult.out_of_fuel
    → parsed_or_fail path r ≢ out_of_fuel
unfolding parsed_or_fail
parsed_or_fail-ne-out_of_fuel path (parse_ok p) h = λ e. cc
parsed_or_fail-ne-out_of_fuel path (dupvariable key) h = λ e. cc
parsed_or_fail-ne-out_of_fuel path (dupfield key) h = λ e. cc
parsed_or_fail-ne-out_of_fuel path ParseResult.out_of_fuel h = λ e. h refl

complete-ne-out_of_fuel : (p : Pkg) (o : Option Bytes) → complete p o ≢ out_of_fuel
unfolding complete
complete-ne-out_of_fuel p none = λ e. cc
complete-ne-out_of_fuel p (some field) = λ e. cc

module _ (os_mapfile : Bytes → Filemap) where
  readpackage-ne-out_of_fuel :
      (path realname : Bytes) → readpackage os_mapfile path realname ≢ out_of_fuel
  unfolding readpackage
  readpackage-ne-out_of_fuel path realname =
      ground (arith, read_file-ne-out_of_fuel path realname (os_mapfile path))

  search_loop-ne-out_of_fuel :
      (dirs : List Bytes) (realname : Bytes) → search_loop os_mapfile dirs realname ≢ out_of_fuel
  unfolding search_loop
  search_loop-ne-out_of_fuel [] realname = λ e. cc
  search_loop-ne-out_of_fuel (dir ∷ dirs) realname =
      let rest = search_loop-ne-out_of_fuel dirs realname in
      >>=-ne-out_of_fuel _ _ (readpackage-ne-out_of_fuel _ realname)
        λ contents e. ground (arith, rest)

  locate_file-ne-out_of_fuel :
      (dirs : List Bytes) (realname : Bytes) → locate_file os_mapfile dirs realname ≢ out_of_fuel
  unfolding locate_file
  locate_file-ne-out_of_fuel dirs realname =
      let rest = search_loop-ne-out_of_fuel dirs realname in
      ground (arith, rest, readpackage-ne-out_of_fuel (realname ++ (0 ∷ [])) realname)

  findpackage-ne-out_of_fuel :
      (dirs : List Bytes) (realname : Bytes) → findpackage os_mapfile dirs realname ≢ out_of_fuel
  unfolding findpackage
  findpackage-ne-out_of_fuel dirs realname =
      >>=-ne-out_of_fuel _ _ (locate_file-ne-out_of_fuel dirs realname) λ s e.
        >>=-ne-out_of_fuel _ _
          (parsed_or_fail-ne-out_of_fuel s.path (parsepackage s.contents)
            (parsepackage-ne-out_of_fuel s.contents))
          λ r e'. complete-ne-out_of_fuel _ _

printed-ne-out_of_fuel : (m : Expansion) → m ≢ Expand.out_of_fuel → printed m ≢ out_of_fuel
unfolding printed
printed-ne-out_of_fuel (done a) h = λ e. cc
printed-ne-out_of_fuel (stopped a x) h = λ e. cc
printed-ne-out_of_fuel Expand.out_of_fuel h = λ e. h refl

expand_fields-ne-out_of_fuel :
    (global : Env) (update : Pkg) (ids : List FieldId) (base : Fields)
    → expand_fields global update ids base ≢ out_of_fuel
unfolding expand_fields
expand_fields-ne-out_of_fuel global update [] base = λ e. cc
expand_fields-ne-out_of_fuel global update (id ∷ ids) base =
    >>=-ne-out_of_fuel _ _
      (printed-ne-out_of_fuel _ (expand-ne-out_of_fuel global update.env update.path _))
      λ text e. expand_fields-ne-out_of_fuel global update ids _

expandmerge-ne-out_of_fuel :
    (global : Env) (base update : Pkg) → expandmerge global base update ≢ out_of_fuel
unfolding expandmerge
expandmerge-ne-out_of_fuel global base update =
    >>=-ne-out_of_fuel _ _ (expand_fields-ne-out_of_fuel global update field_ids base.fields)
      λ fields e.
        >>=-ne-out_of_fuel _ _ (parsespecs-ne-out_of_fuel _ _) λ requires e'.
          >>=-ne-out_of_fuel _ _ (parsespecs-ne-out_of_fuel _ _) λ private e''. λ q. cc

check_version-ne-out_of_fuel :
    (ignored : Bool) (p : Pkg) (spec : Pkgspec) → check_version ignored p spec ≢ out_of_fuel
unfolding check_version
check_version-ne-out_of_fuel ignored p spec = ground arith

module _ (os_mapfile : Bytes → Filemap) (proc : Processor) where
  load-ne-out_of_fuel : (p : Pkg) (spec : Pkgspec) → load os_mapfile proc p spec ≢ out_of_fuel
  unfolding load
  load-ne-out_of_fuel p spec =
      >>=-ne-out_of_fuel _ _ (findpackage-ne-out_of_fuel os_mapfile proc.dirs spec.name) λ f e.
        >>=-ne-out_of_fuel _ _ (expandmerge-ne-out_of_fuel proc.global p _)
          λ merged e'. check_version-ne-out_of_fuel proc.ignore_versions merged spec

  visit-ne-out_of_fuel :
      (t : Pkgs) (spec : Pkgspec) (top depth : ℕ) (flags : Flags)
      → visit os_mapfile proc t spec top depth flags ≢ out_of_fuel
  unfolding visit
  visit-ne-out_of_fuel t spec top depth flags =
      elim (Bool-cases
        (is_loaded (pkg_at (locate t (pathtorealname spec.name)) (pathtorealname spec.name)))) [
          | inl e ↦ rw e (unfold revisit in ground arith)
          | inr n ↦ rw n (
              unfold first_visit in
              >>=-ne-out_of_fuel _ _ (load-ne-out_of_fuel _ spec)
                λ p e. (unfold enter in ground arith))
        ]

  abbrev EntriesEnd : ℕ → Type 0
  EntriesEnd n =
      (t : Pkgs) (entries : List Procstate) (base h : ℕ)
      → h ≡ length entries + base
      → h ≤ stack_cap
      → stack_cap < base + 1 + n
      → entries_at os_mapfile proc n t entries h ≢ out_of_fuel

  pushed_end :
      (n : ℕ)
      → EntriesEnd n
      → (t : Pkgs) (entries : List Procstate) (base : ℕ) → length entries + base ≤ stack_cap
      → stack_cap < base + 1 + n
      → entries_at os_mapfile proc n t entries (length entries + base) ≢ out_of_fuel
  unfolding entries_at
  pushed_end n ih t [] base l g = λ e. cc
  pushed_end n ih t (s ∷ entries) base l g = ih t (s ∷ entries) base _ refl l g

  specs_with-ne-out_of_fuel :
      (n : ℕ)
      → EntriesEnd n
      → (top : ℕ) (t : Pkgs) (specs : List Pkgspec) (depth : ℕ) (flags : Flags) → top < stack_cap
      → stack_cap < top + 1 + suc n
      → specs_with os_mapfile proc (entries_at os_mapfile proc n) top t specs depth flags
        ≢ out_of_fuel
  unfolding specs_with
  specs_with-ne-out_of_fuel n ih top t [] depth flags l g = λ e. cc
  specs_with-ne-out_of_fuel n ih top t (spec ∷ specs) depth flags l g =
      >>=-ne-out_of_fuel _ _ (visit-ne-out_of_fuel t spec top (depth + 1) flags) λ v e.
        let fits = length-visit_entries os_mapfile proc t spec top (depth + 1) flags v l e in
        >>=-ne-out_of_fuel _ _
          (pushed_end n ih v.pkgs v.entries (suc top) (omega arith) (omega arith))
          λ t' e'.
            specs_with-ne-out_of_fuel n ih top (prepend_new t' v.newpkg) specs depth flags l g

  entries_at-ne-out_of_fuel : (n : ℕ) → EntriesEnd n
  unfolding entries_at
  entries_at-ne-out_of_fuel n t [] base h p l g = λ e. cc
  entries_at-ne-out_of_fuel zero t (s ∷ entries) base h p l g = λ e. omega arith
  entries_at-ne-out_of_fuel (suc n) t (s ∷ entries) base h p l g =
      >>=-ne-out_of_fuel _ _
        (specs_with-ne-out_of_fuel n (entries_at-ne-out_of_fuel n) (h - 1) (prepend_new t s.newpkg)
          s.specs s.depth s.flags (omega arith) (omega arith))
        λ t' e.
          entries_at-ne-out_of_fuel (suc n) t' entries base (h - 1) (omega arith) (omega arith) g

  -- Whatever the specifications, the files and the limits: the traversal ends with the packages or
  -- with an error.
  pub traversal-ne-out_of_fuel :
      (specs : List Pkgspec) → traversal os_mapfile proc specs ≢ out_of_fuel
  unfolding traversal
  traversal-ne-out_of_fuel specs =
      specs_with-ne-out_of_fuel 255 (entries_at-ne-out_of_fuel 255) 0 no_pkgs specs 0 _
        (omega arith) (omega arith)
