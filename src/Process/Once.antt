-- ===== src/Process/Once.antt =====
-- The list that `process` returns holds every package that was loaded, once.
use u_config.Base.{
  ℕ, zero, suc, ◌+◌, Bytes, ◌≡◌, refl, sym, ap, ◌∙◌, arith, length, Option, none, some, ok,
  >>=-eq-ok, Option-cases, inl, inr, List, [], ◌∷◌, ◌++◌, true,
}
use mathlib.Core.Path.{subst}
use u_config.FilePaths.{pathtorealname}
use u_config.Trie.{find}
use u_config.Trie.Laws.{find-leaf}
use u_config.Spec.{Pkgspec}
use u_config.Load.{Filemap, Flags, Pkg}
use u_config.Process.{
  Pkgs, no_pkgs, newpkg, Round, process_step, process_loop, process, prepend_new, Processor,
  Procstate, Visit, is_loaded, locate, with_flags, revisit, enter, load, first_visit, visit,
  prepend,
}
use u_config.Process.Depth.{Reach}
use u_config.Process.Listed.{occurrences, named, pending, Stands, IsListed}
use u_config.Process.Loaded.{enter-result, revisit-result, load-result}
use u_config.Process.Stored.{
  pkg_at-locate-some, pkg_at-locate-none, store_head, with_flags-loaded, store-IsListed_again,
  store-IsListed_new,
}

module _ (os_mapfile : Bytes → Filemap) (proc : Processor) where
  revisit-IsListed :
      (t : Pkgs) (name : Bytes) (p : Pkg) (names : List Bytes) (top depth : ℕ) (flags : Flags)
      (v : Visit)
      → find name t.pkgs ≡ some p
      → IsListed t names
      → revisit os_mapfile proc (locate t name) p top depth flags ≡ ok v
      → IsListed v.pkgs (pending v.entries (named v.newpkg names)) × (v.pkgs.head ≡ t.head)
  revisit-IsListed t name p names top depth flags v f h e =
      let (pkgs, new, none_pending) =
        revisit-result os_mapfile proc (locate t name) p top depth flags v e in
      let (realname, loaded, _) =
        subst (λ o. Stands name o (occurrences name names)) f (h.each name) in
      (
        rw (none_pending (named v.newpkg names), pkgs, new)
            (store-IsListed_again t name (with_flags p flags) names p realname
              (with_flags-loaded p flags ∙ loaded) f h),
        ap (λ t. t.head) pkgs ∙ store_head t name (with_flags p flags),
      )

  enter-IsListed :
      (t : Pkgs) (name : Bytes) (q : Pkg) (names : List Bytes) (top depth : ℕ) (flags : Flags)
      (v : Visit)
      → q.realname ≡ name
      → is_loaded q ≡ true
      → find name t.pkgs ≡ none
      → IsListed t names
      → enter os_mapfile proc (locate t name) q top depth flags ≡ ok v
      → IsListed v.pkgs (pending v.entries (named v.newpkg names)) × (v.pkgs.head ≡ t.head)
  enter-IsListed t name q names top depth flags v realname loaded f h e =
      let (pkgs, new, none_pending) =
        enter-result os_mapfile proc (locate t name) q top depth flags v e in
      (
        rw (none_pending (named v.newpkg names), pkgs, new ∙ ap some realname)
            (store-IsListed_new t name (with_flags q flags) names realname
              (with_flags-loaded q flags ∙ loaded) f h),
        ap (λ t. t.head) pkgs ∙ store_head t name (with_flags q flags),
      )

  first_visit-IsListed :
      (t : Pkgs) (name : Bytes) (spec : Pkgspec) (names : List Bytes) (top depth : ℕ)
      (flags : Flags) (v : Visit)
      → find name t.pkgs ≡ none
      → IsListed t names
      → first_visit os_mapfile proc (locate t name) (newpkg name) spec top depth flags ≡ ok v
      → IsListed v.pkgs (pending v.entries (named v.newpkg names)) × (v.pkgs.head ≡ t.head)
  unfolding first_visit
  first_visit-IsListed t name spec names top depth flags v f h e =
      let (q, d, k) = >>=-eq-ok (load os_mapfile proc (newpkg name) spec) _ e in
      let (realname, loaded) = load-result os_mapfile proc (newpkg name) spec q d in
      enter-IsListed t name q names top depth flags v realname loaded f h k

  visit-IsListed :
      (t : Pkgs) (spec : Pkgspec) (names : List Bytes) (top depth : ℕ) (flags : Flags) (v : Visit)
      → IsListed t names
      → visit os_mapfile proc t spec top depth flags ≡ ok v
      → IsListed v.pkgs (pending v.entries (named v.newpkg names)) × (v.pkgs.head ≡ t.head)
  unfolding visit is_loaded
  visit-IsListed t spec names top depth flags v h e =
      let name = pathtorealname spec.name in
      elim (Option-cases (find name t.pkgs)) [
        | inl f ↦
            let k = rw (pkg_at-locate-none t name f) at e in
            first_visit-IsListed t name spec names top depth flags v f h k
        | inr (p, f) ↦
            let (_, loaded, _) =
              subst (λ o. Stands name o (occurrences name names)) f (h.each name) in
            let k = rw (pkg_at-locate-some t name p f) at e in
            revisit-IsListed t name p names top depth flags v f h (rw loaded at k)
      ]

pending-append :
    (entries stack : List Procstate) (names : List Bytes)
    → pending (entries ++ stack) names ≡ pending entries (pending stack names)
pending-append [] stack names = refl
pending-append (s ∷ entries) stack names = ap (named s.newpkg) (pending-append entries stack names)

occurrences-named :
    (name : Bytes) (new : Option Bytes) (a b : List Bytes)
    → occurrences name a ≡ occurrences name b
    → occurrences name (named new a) ≡ occurrences name (named new b)
unfolding occurrences
occurrences-named name none a b e = e
occurrences-named name (some x) a b e = rw e refl

length-named :
    (new : Option Bytes) (a b : List Bytes)
    → length a ≡ length b
    → length (named new a) ≡ length (named new b)
length-named none a b e = e
length-named (some x) a b e = ap suc e

occurrences_swap :
    (name x y : Bytes) (a : List Bytes)
    → occurrences name (x ∷ (y ∷ a)) ≡ occurrences name (y ∷ (x ∷ a))
unfolding occurrences
occurrences_swap name x y a = ground arith

occurrences-named_swap :
    (name : Bytes) (new : Option Bytes) (x : Bytes) (a : List Bytes)
    → occurrences name (named new (x ∷ a)) ≡ occurrences name (x ∷ named new a)
occurrences-named_swap name none x a = refl
occurrences-named_swap name (some y) x a = occurrences_swap name y x a

length-named_swap :
    (new : Option Bytes) (x : Bytes) (a : List Bytes)
    → length (named new (x ∷ a)) ≡ suc (length (named new a))
length-named_swap none x a = refl
length-named_swap (some y) x a = refl

-- A name may be put in front of the list or in front of those that are to come.
occurrences-pending :
    (name x : Bytes) (stack : List Procstate) (names : List Bytes)
    → occurrences name (pending stack (x ∷ names)) ≡ occurrences name (x ∷ pending stack names)
occurrences-pending name x [] names = refl
occurrences-pending name x (s ∷ stack) names =
    occurrences-named name s.newpkg _ (x ∷ pending stack names)
      (occurrences-pending name x stack names)
    ∙ occurrences-named_swap name s.newpkg x (pending stack names)

length-pending :
    (x : Bytes) (stack : List Procstate) (names : List Bytes)
    → length (pending stack (x ∷ names)) ≡ suc (length (pending stack names))
length-pending x [] names = refl
length-pending x (s ∷ stack) names =
    length-named s.newpkg _ (x ∷ pending stack names) (length-pending x stack names)
    ∙ length-named_swap s.newpkg x (pending stack names)

-- The names of a state: those in the list, and those that are to come.
abbrev names_of : Pkgs → List Procstate → List Bytes
names_of t stack = pending stack t.head

IsListed-prepend_new :
    (t : Pkgs) (new : Option Bytes) (stack : List Procstate)
    → IsListed t (named new (names_of t stack))
    → IsListed (prepend_new t new) (names_of (prepend_new t new) stack)
IsListed-prepend_new t none stack h = h
IsListed-prepend_new t (some x) stack h =
    unfold prepend in
    (record {
      each = λ name.
          subst (λ n. Stands name (find name t.pkgs) n)
            (sym (occurrences-pending name x stack t.head)) (h.each name);
      count = h.count ∙ sym (length-pending x stack t.head);
    })

round_inj : (a b : Round) → ok a ≡ ok b → a ≡ b
round_inj a b h = ground arith

pkgs_inj : (a b : Pkgs) → ok a ≡ ok b → a ≡ b
pkgs_inj a b h = ground arith

module _ (os_mapfile : Bytes → Filemap) (proc : Processor) where
  process_step-IsListed :
      (t : Pkgs) (specs : List Pkgspec) (s : Procstate) (stack : List Procstate) (r : Round)
      → s.specs ≡ specs
      → IsListed t (names_of t (s ∷ stack))
      → process_step os_mapfile proc t s stack ≡ ok r
      → IsListed r.pkgs (names_of r.pkgs r.stack)
  unfolding process_step
  process_step-IsListed t [] s stack r p h e =
      let k = rw p at e in
      let same = round_inj _ r k in rw (← same) (IsListed-prepend_new t s.newpkg stack h)
  process_step-IsListed t (spec ∷ specs) s stack r p h e =
      let k = rw p at e in
      let t' = prepend_new t s.newpkg in
      let (v, f, l) =
        >>=-eq-ok (visit os_mapfile proc t' spec (length stack) (s.depth + 1) s.flags) _ k in
      let same = round_inj _ r l in
      let (listed, head) =
        visit-IsListed os_mapfile proc t' spec (names_of t' stack) (length stack) (s.depth + 1)
          s.flags v (IsListed-prepend_new t s.newpkg stack h) f in
      let names : names_of v.pkgs
            (v.entries ++ (record s { specs = specs; newpkg = v.newpkg } ∷ stack))
          ≡ pending v.entries (named v.newpkg (names_of t' stack)) =
        pending-append v.entries (record s { specs = specs; newpkg = v.newpkg } ∷ stack) v.pkgs.head
        ∙ ap (λ names. pending v.entries (named v.newpkg (pending stack names))) head in
      rw (← same) (subst (IsListed v.pkgs) (sym names) listed)

  Reach-IsListed :
      (specs : List Pkgspec) {t : Pkgs} {stack : List Procstate}
      → Reach os_mapfile proc specs t stack
      → IsListed t (names_of t stack)
  unfolding occurrences
  Reach-IsListed specs Reach.start = record {
    each = λ name. rw (find-leaf name) refl;
    count = refl;
  }
  Reach-IsListed specs (Reach.round {t} {t'} {s} {stack} {stack'} before e) =
      process_step-IsListed t s.specs s stack (record { pkgs = t'; stack = stack' }) refl
        (Reach-IsListed specs before) e

  process_loop-Reach :
      (specs : List Pkgspec) (f : ℕ) (t : Pkgs) (stack : List Procstate) (r : Pkgs)
      → Reach os_mapfile proc specs t stack
      → process_loop os_mapfile proc f t stack ≡ ok r
      → Reach os_mapfile proc specs r []
  unfolding process_loop
  process_loop-Reach specs f t [] r h e =
      subst (λ t. Reach os_mapfile proc specs t []) (pkgs_inj t r e) h
  process_loop-Reach specs zero t (s ∷ stack) r h e = ground arith
  process_loop-Reach specs (suc f) t (s ∷ stack) r h e =
      let (n, d, k) = >>=-eq-ok (process_step os_mapfile proc t s stack) _ e in
      process_loop-Reach specs f n.pkgs n.stack r (Reach.round h d) k

  -- Where `process` ends well, every name that has a package in the set stands in the returned list
  -- exactly once and the package was loaded and has that name, no other name stands in the list, and
  -- the count is the length of the list.
  pub process-IsListed :
      (f : ℕ) (specs : List Pkgspec) (t : Pkgs)
      → process os_mapfile proc f specs ≡ ok t
      → IsListed t t.head
  unfolding process
  process-IsListed f specs t e =
      Reach-IsListed specs (process_loop-Reach specs f no_pkgs _ t Reach.start e)
