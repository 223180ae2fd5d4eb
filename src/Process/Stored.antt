-- ===== src/Process/Stored.antt =====
-- The set of packages behind a lookup and a write.
use u_config.Base.{
  suc, Bytes, ◌≡◌, refl, sym, ap, ◌∙◌, arith, none, some, Bool-cases, inl, inr, List, ◌∷◌, true,
  if◌then◌else◌,
}
use mathlib.Core.Path.{subst}
use u_config.S8.{s8equals}
use u_config.S8.Laws.{s8equals_refl, s8equals_iff}
use u_config.Trie.{find, assign}
use u_config.Trie.Laws.{or_zeroed, overwrite, find-insert, find-assign}
use u_config.Load.{Flags, Pkg}
use u_config.Process.{Pkgs, newpkg, is_loaded, or_new, locate, pkg_at, store, with_flags}
use u_config.Process.Listed.{occurrences, Stands, IsListed}

-- The set behind a write to the package with a name that is in it.
pub find-store :
    (t : Pkgs) (name other : Bytes) (p q : Pkg)
    → q.realname ≡ name
    → find name t.pkgs ≡ some p
    → find other (store t q).pkgs ≡ (if s8equals name other then some q else find other t.pkgs)
unfolding store
find-store t name other p q e f =
    ap (λ n. find other (assign n q t.pkgs)) e
    ∙ find-assign name other q t.pkgs
    ∙ ap (λ o. if s8equals name other then overwrite o q else find other t.pkgs) f

pub find-locate :
    (t : Pkgs) (name other : Bytes)
    → find other (locate t name).pkgs ≡ (
        if s8equals name other
        then some (or_zeroed (find name t.pkgs) (newpkg name))
        else find other t.pkgs)
unfolding locate
find-locate t name other = find-insert name other (newpkg name) t.pkgs

pub find_equal :
    (t : Pkgs) (name other : Bytes) (p : Pkg)
    → s8equals name other ≡ true
    → find name t.pkgs ≡ some p
    → some p ≡ find other t.pkgs
find_equal t name other p e f = sym f ∙ ap (λ n. find n t.pkgs) ((s8equals_iff name other).0 e)

-- A package that is already in the set.
pub find-locate-some :
    (t : Pkgs) (name other : Bytes) (p : Pkg)
    → find name t.pkgs ≡ some p
    → find other (locate t name).pkgs ≡ find other t.pkgs
find-locate-some t name other p f =
    find-locate t name other
    ∙ ap (λ o. if s8equals name other then some (or_zeroed o (newpkg name)) else find other t.pkgs)
        f
    ∙ elim (Bool-cases (s8equals name other)) [
      | inl e ↦ rw e (find_equal t name other p e f)
      | inr n ↦ rw n refl
    ]

-- One that is not is there without its contents.
pub find-locate-none :
    (t : Pkgs) (name other : Bytes)
    → find name t.pkgs ≡ none
    → find other (locate t name).pkgs
      ≡ (if s8equals name other then some (newpkg name) else find other t.pkgs)
find-locate-none t name other f =
    find-locate t name other
    ∙ ap (λ o. if s8equals name other then some (or_zeroed o (newpkg name)) else find other t.pkgs)
        f

pub locate_count :
    (t : Pkgs) (name : Bytes)
    → ((p : Pkg) → find name t.pkgs ≡ some p → (locate t name).count ≡ t.count)
      × (find name t.pkgs ≡ none → (locate t name).count ≡ suc t.count)
unfolding locate
locate_count t name = (λ p f. rw f refl, λ f. rw f (omega arith))

pub pkg_at-locate-some :
    (t : Pkgs) (name : Bytes) (p : Pkg)
    → find name t.pkgs ≡ some p
    → pkg_at (locate t name) name ≡ p
unfolding pkg_at
pkg_at-locate-some t name p f = ap (λ o. or_new o name) (find-locate-some t name name p f ∙ f)

pub pkg_at-locate-none :
    (t : Pkgs) (name : Bytes) → find name t.pkgs ≡ none → pkg_at (locate t name) name ≡ newpkg name
unfolding pkg_at
pkg_at-locate-none t name f =
    let found : find name (locate t name).pkgs ≡ some (newpkg name) =
      find-locate-none t name name f
      ∙ ap (λ b. if b then some (newpkg name) else find name t.pkgs) (s8equals_refl name) in
    ap (λ o. or_new o name) found

-- A visit looks a package up or adds it, and writes it.
pub find-entered :
    (t : Pkgs) (name other : Bytes) (q : Pkg)
    → q.realname ≡ name
    → find other (store (locate t name) q).pkgs
      ≡ (if s8equals name other then some q else find other t.pkgs)
find-entered t name other q e =
    let p = or_zeroed (find name t.pkgs) (newpkg name) in
    let found : find name (locate t name).pkgs ≡ some p =
      find-locate t name name
      ∙ ap (λ b. if b then some p else find name t.pkgs) (s8equals_refl name) in
    find-store (locate t name) name other p q e found ∙ elim (Bool-cases (s8equals name other)) [
      | inl y ↦ rw y refl
      | inr n ↦
          rw n (find-locate t name other ∙ ap (λ b. if b then some p else find other t.pkgs) n)
    ]

module _ (t : Pkgs) (name : Bytes) (q : Pkg) (names : List Bytes) where
  pub Stands-again :
      (p : Pkg) (other : Bytes)
      → q.realname ≡ name
      → is_loaded q ≡ true
      → find name t.pkgs ≡ some p
      → IsListed t names
      → Stands other
          (if s8equals name other then some q else find other t.pkgs)
          (occurrences other names)
  Stands-again p other r l f h = elim (Bool-cases (s8equals name other)) [
    | inl e ↦
        let same = (s8equals_iff name other).0 e in
        let mine =
          subst (λ o. Stands other o (occurrences other names))
            (sym (find_equal t name other p e f)) (h.each other) in
        rw e (r ∙ same, l, mine.2)
    | inr n ↦ rw n (h.each other)
  ]

  pub Stands-new :
      (other : Bytes)
      → q.realname ≡ name
      → is_loaded q ≡ true
      → find name t.pkgs ≡ none
      → IsListed t names
      → Stands other
          (if s8equals name other then some q else find other t.pkgs)
          (occurrences other (name ∷ names))
  unfolding occurrences
  Stands-new other r l f h = elim (Bool-cases (s8equals name other)) [
    | inl e ↦
        let same = (s8equals_iff name other).0 e in
        let empty : find other t.pkgs ≡ none = ap (λ n. find n t.pkgs) (sym same) ∙ f in
        let mine = subst (λ o. Stands other o (occurrences other names)) empty (h.each other) in
        rw e (r ∙ same, l, ap suc mine)
    | inr n ↦ rw n (h.each other)
  ]

pub store_count : (t : Pkgs) (q : Pkg) → (store t q).count ≡ t.count
unfolding store
store_count t q = refl

pub store_head : (t : Pkgs) (name : Bytes) (q : Pkg) → (store (locate t name) q).head ≡ t.head
unfolding store locate
store_head t name q = refl

pub with_flags-loaded : (p : Pkg) (flags : Flags) → is_loaded (with_flags p flags) ≡ is_loaded p
unfolding is_loaded
with_flags-loaded p flags = refl

module _ (t : Pkgs) (name : Bytes) (q : Pkg) (names : List Bytes) where
  pub store-IsListed_again :
      (p : Pkg)
      → q.realname ≡ name
      → is_loaded q ≡ true
      → find name t.pkgs ≡ some p
      → IsListed t names
      → IsListed (store (locate t name) q) names
  store-IsListed_again p r l f h = record {
    each = λ other.
        subst (λ o. Stands other o (occurrences other names)) (sym (find-entered t name other q r))
          (Stands-again t name q names p other r l f h);
    count = store_count (locate t name) q ∙ (locate_count t name).0 p f ∙ h.count;
  }

  pub store-IsListed_new :
      q.realname ≡ name
      → is_loaded q ≡ true
      → find name t.pkgs ≡ none
      → IsListed t names
      → IsListed (store (locate t name) q) (name ∷ names)
  store-IsListed_new r l f h = record {
    each = λ other.
        subst (λ o. Stands other o (occurrences other (name ∷ names)))
          (sym (find-entered t name other q r)) (Stands-new t name q names other r l f h);
    count = store_count (locate t name) q ∙ (locate_count t name).1 f ∙ ap suc h.count;
  }
