-- ===== src/Process/Loaded.antt =====
-- What a visit leaves of the set, and what it loads.
use u_config.Base.{
  ℕ, Bool, Bytes, ◌≡◌, refl, sym, ap, ◌∙◌, arith, Option, none, some, ok, >>=-eq-ok, Option-cases,
  inl, inr, List, [], ◌∷◌, true, false, if◌then◌else◌,
}
use u_config.Env.{Env}
use u_config.Package.{parsepackage}
use u_config.Spec.{Pkgspec, parsespecs}
use u_config.Load.{
  Filemap, Flags, Pkg, findpackage, located, complete, missing_field, setprefix, expandmerge,
  expand_fields, field_ids, text_of, locate_file, parsed_or_fail,
}
use u_config.Process.{
  Pkgs, Processor, Visit, is_loaded, store, with_flags, check_version, revisit, enter, load,
}
use u_config.Process.Listed.{pending}

pub enter-result :
    (os_mapfile : Bytes → Filemap) (proc : Processor) (t : Pkgs) (p : Pkg) (top depth : ℕ)
    (flags : Flags) (v : Visit)
    → enter os_mapfile proc t p top depth flags ≡ ok v
    → (v.pkgs ≡ store t (with_flags p flags))
      × (v.newpkg ≡ some p.realname)
      × ((names : List Bytes) → pending v.entries names ≡ names)
unfolding enter
enter-result os_mapfile proc t p top depth flags v h =
    (ground arith, ground arith, λ names. ground arith)

pub revisit-result :
    (os_mapfile : Bytes → Filemap) (proc : Processor) (t : Pkgs) (p : Pkg) (top depth : ℕ)
    (flags : Flags) (v : Visit)
    → revisit os_mapfile proc t p top depth flags ≡ ok v
    → (v.pkgs ≡ store t (with_flags p flags))
      × (v.newpkg ≡ none)
      × ((names : List Bytes) → pending v.entries names ≡ names)
unfolding revisit
revisit-result os_mapfile proc t p top depth flags v h =
    (ground arith, ground arith, λ names. ground arith)

pub check_version-result :
    (ignored : Bool) (p : Pkg) (spec : Pkgspec) (q : Pkg)
    → check_version ignored p spec ≡ ok q
    → q ≡ p
unfolding check_version
check_version-result ignored p spec q h = elim (Option-cases spec.op) [
  | inl e ↦ let k = rw e at h in ground arith
  | inr (op, e) ↦ let k = rw e at h in ground arith
]

pub complete-loaded :
    (p : Pkg) (missing : Option Bytes) (q : Pkg)
    → is_loaded p ≡ true
    → complete p missing ≡ ok q
    → is_loaded q ≡ true
unfolding complete
complete-loaded p none q l h = let same : p ≡ q = ground arith in ap is_loaded (sym same) ∙ l
complete-loaded p (some e) q l h = ground arith

pub setprefix-loaded :
    (define_prefix : Bool) (p : Pkg)
    → is_loaded (if define_prefix then setprefix p else p) ≡ is_loaded p
unfolding setprefix is_loaded
setprefix-loaded true p = ground arith
setprefix-loaded false p = refl

pub loaded_contents :
    (os_mapfile : Bytes → Filemap) (dirs : List Bytes) (name : Bytes) (p : Pkg)
    → findpackage os_mapfile dirs name ≡ ok p
    → is_loaded p ≡ true
unfolding findpackage
loaded_contents os_mapfile dirs name p h =
    let (s, e, k) = >>=-eq-ok (locate_file os_mapfile dirs name) _ h in
    let (r, f, l) = >>=-eq-ok (parsed_or_fail s.path (parsepackage s.contents)) _ k in
    complete-loaded (located s r) (missing_field (located s r).fields) p
      (unfold located in unfold is_loaded in refl) l

pub ok_inj : (p q : Pkg) → ok p ≡ ok q → p ≡ q
ok_inj p q h = ground arith

pub expandmerge-result :
    (global : Env) (base update q : Pkg)
    → expandmerge global base update ≡ ok q
    → (q.realname ≡ base.realname) × (is_loaded q ≡ is_loaded update)
unfolding expandmerge is_loaded
expandmerge-result global base update q h =
    let (fields, e, k) = >>=-eq-ok (expand_fields global update field_ids base.fields) _ h in
    let (requires, f, l) =
      >>=-eq-ok (parsespecs (text_of fields.requires ∷ []) (some base.realname)) _ k in
    let (private, g, m) =
      >>=-eq-ok (parsespecs (text_of fields.requires_private ∷ []) (some base.realname)) _ l in
    let same = ok_inj _ q m in (sym (ap (λ x. x.realname) same), sym (ap is_loaded same))

pub load-result :
    (os_mapfile : Bytes → Filemap) (proc : Processor) (p : Pkg) (spec : Pkgspec) (q : Pkg)
    → load os_mapfile proc p spec ≡ ok q
    → (q.realname ≡ p.realname) × (is_loaded q ≡ true)
unfolding load
load-result os_mapfile proc p spec q h =
    let (found, e, k) = >>=-eq-ok (findpackage os_mapfile proc.dirs spec.name) _ h in
    let update = if proc.define_prefix then setprefix found else found in
    let (merged, f, l) = >>=-eq-ok (expandmerge proc.global p update) _ k in
    let (name, contents) = expandmerge-result proc.global p update merged f in
    let same = check_version-result proc.ignore_versions merged spec q l in
    let loaded = loaded_contents os_mapfile proc.dirs spec.name found e in
    (
      ap (λ x. x.realname) same ∙ name,
      ap is_loaded same ∙ contents ∙ (setprefix-loaded proc.define_prefix found ∙ loaded),
    )
