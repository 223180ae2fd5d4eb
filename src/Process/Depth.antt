-- ===== src/Process/Depth.antt =====
-- The stack of `process` never grows past its array.
use u_config.Base.{
  ℕ, ◌+◌, ◌≤◌, ◌<◌, Bytes, ◌≡◌, arith, length, ok, >>=-eq-ok, Bool-cases, inl, inr, List, [], ◌∷◌,
  true, length-append, refl,
}
use u_config.Spec.{Pkgspec}
use u_config.FilePaths.{pathtorealname}
use u_config.Load.{Filemap, Flags, Pkg}
use u_config.Process.{
  Pkgs, no_pkgs, pushed, Round, process_step, prepend_new, Processor, Procstate, Visit, stack_cap,
  is_loaded, locate, pkg_at, revisit, enter, load, first_visit, visit,
}

module _ (os_mapfile : Bytes → Filemap) (proc : Processor) where
  length-revisit_entries :
      (t : Pkgs) (p : Pkg) (top depth : ℕ) (flags : Flags) (v : Visit)
      → top < stack_cap
      → revisit os_mapfile proc t p top depth flags ≡ ok v
      → length v.entries + top < stack_cap
  unfolding revisit
  length-revisit_entries t p top depth flags v l h = ground arith

  length-enter_entries :
      (t : Pkgs) (p : Pkg) (top depth : ℕ) (flags : Flags) (v : Visit)
      → top < stack_cap
      → enter os_mapfile proc t p top depth flags ≡ ok v
      → length v.entries + top < stack_cap
  unfolding enter
  length-enter_entries t p top depth flags v l h = ground arith

  length-first_visit_entries :
      (t : Pkgs) (p : Pkg) (spec : Pkgspec) (top depth : ℕ) (flags : Flags) (v : Visit)
      → top < stack_cap
      → first_visit os_mapfile proc t p spec top depth flags ≡ ok v
      → length v.entries + top < stack_cap
  unfolding first_visit
  length-first_visit_entries t p spec top depth flags v l h =
      let (q, e, k) = >>=-eq-ok (load os_mapfile proc p spec) _ h in
      length-enter_entries t q top depth flags v l k

  -- From an entry within the array, whatever a specification does, the top stays within the array.
  pub length-visit_entries :
      (t : Pkgs) (spec : Pkgspec) (top depth : ℕ) (flags : Flags) (v : Visit)
      → top < stack_cap
      → visit os_mapfile proc t spec top depth flags ≡ ok v
      → length v.entries + top < stack_cap
  unfolding visit
  length-visit_entries t spec top depth flags v l h =
      let r = pathtorealname spec.name in
      let t' = locate t r in
      let p = pkg_at t' r in
      elim (Bool-cases (is_loaded p)) [
        | inl e ↦ length-revisit_entries t' p top depth flags v l (rw e at h)
        | inr e ↦ length-first_visit_entries t' p spec top depth flags v l (rw e at h)
      ]

-- The states of the machine that come from a list of specifications.
pub data Reach (os_mapfile : Bytes → Filemap) (proc : Processor) (specs : List Pkgspec)
    : Pkgs → List Procstate → Type 0 where
  start :
      Reach os_mapfile proc specs no_pkgs
        (pushed specs 0 (record { direct = true; public = true }) ∷ [])
  round :
      {t t' : Pkgs} {s : Procstate} {stack stack' : List Procstate}
      → Reach os_mapfile proc specs t (s ∷ stack)
      → process_step os_mapfile proc t s stack ≡ ok (record { pkgs = t'; stack = stack' })
      → Reach os_mapfile proc specs t' stack'

module _ (os_mapfile : Bytes → Filemap) (proc : Processor) where
  length-process_step_stack :
      (t : Pkgs) (specs : List Pkgspec) (s : Procstate) (stack : List Procstate) (r : Round)
      → s.specs ≡ specs
      → length stack < stack_cap
      → process_step os_mapfile proc t s stack ≡ ok r
      → length r.stack ≤ stack_cap
  unfolding process_step
  length-process_step_stack t [] s stack r p l e = let q = rw p at e in ground arith
  length-process_step_stack t (spec ∷ specs) s stack r p l e =
      let q = rw p at e in
      let (v, h, k) =
        >>=-eq-ok
          (visit os_mapfile proc (prepend_new t s.newpkg) spec (length stack) (s.depth + 1) s.flags)
          _ q in
      let fits =
        length-visit_entries os_mapfile proc _ spec (length stack) (s.depth + 1) s.flags v l h in
      let n = length-append v.entries (record s { specs = specs; newpkg = v.newpkg } ∷ stack) in
      ground arith

  -- In no state that the machine comes to does the stack hold more than the 256 entries of its array.
  pub length-Reach_stack :
      (specs : List Pkgspec) {t : Pkgs} {stack : List Procstate}
      → Reach os_mapfile proc specs t stack
      → length stack ≤ stack_cap
  length-Reach_stack specs start = omega arith
  length-Reach_stack specs (round {t} {t'} {s} {stack} {stack'} before e) =
      length-process_step_stack t s.specs s stack (record { pkgs = t'; stack = stack' }) refl
        (length-Reach_stack specs before) e
