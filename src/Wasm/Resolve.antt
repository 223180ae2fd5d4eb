-- ===== src/Wasm/Resolve.antt =====
-- Where a path is looked for below the directories that are open.
use mathlib.Core.Logic.{◌≢◌}
use u_config.Base.{
  ℕ, suc, true, false, leb, [], ◌∷◌, ◌++◌, Bytes, List, codes, ◌==◌, length, take, drop, Option,
  none, some, ◌≡◌, refl, sym, ap, ◌∙◌, arith, Bool-cases, inl, inr, length-append, take-append-drop,
  take-append, drop-append,
}
use u_config.S8.{s8equals, startswith, takehead, cuthead}
use u_config.S8.Laws.{s8equals_refl, s8equals_iff}
use u_config.Wasm.{Dirfd, dir_of, skip_slashes, or_current, Relpath, find_dirfd}
use u_config.Wasm.Paths.{slashes}

-- No slash at the beginning.
abbrev pub StartsFree : Bytes → Type 0
StartsFree [] = Unit {0}
StartsFree (c ∷ s) = (c == b'/') ≡ false

-- No directory, without its slash, is a beginning of the path.
abbrev pub NoneHolds : List Dirfd → Bytes → Type 0
NoneHolds [] path = Unit {0}
NoneHolds (d ∷ dirs) path = ((rest : Bytes) → path ≢ dir_of d ++ rest) × NoneHolds dirs path

-- A path that is found: the first directory that is a beginning of it, and the rest of the path without
-- the slashes in front, or the directory itself.
pub record Resolves (dirs : List Dirfd) (path : Bytes) (r : Relpath) : Type 0 where
  pub before : List Dirfd
  pub dir : Dirfd
  pub after : List Dirfd
  pub split : dirs ≡ before ++ (dir ∷ after)
  pub first : NoneHolds before path
  pub fd : r.fd ≡ dir.fd
  pub count : ℕ
  pub rest : Bytes
  pub parts : path ≡ dir_of dir ++ (slashes count ++ rest)
  pub no_slash : StartsFree rest
  pub relpath : r.relpath ≡ or_current rest

abbrev pub Resolved : List Dirfd → Bytes → Option Relpath → Type 0
Resolved dirs path none = NoneHolds dirs path
Resolved dirs path (some r) = Resolves dirs path r

pub startswith-append : (s t : Bytes) → startswith (s ++ t) s ≡ true
unfolding startswith takehead
startswith-append s t =
    let size : leb (length s) (length (s ++ t)) ≡ true = ground (arith, length-append s t) in
    let same : s8equals (take (length s) (s ++ t)) s ≡ true =
      ap (λ x. s8equals x s) (take-append s t) ∙ s8equals_refl s in
    rw (size, same) refl

startswith_parts : (s t : Bytes) → startswith s t ≡ true → s ≡ t ++ drop (length t) s
unfolding startswith takehead
startswith_parts s t h =
    let same : s8equals (take (length t) s) t ≡ true = ground arith in
    sym (take-append-drop (length t) s)
    ∙ ap (λ x. x ++ drop (length t) s) ((s8equals_iff (take (length t) s) t).0 same)

startswith_not : (s t : Bytes) → startswith s t ≡ false → (rest : Bytes) → s ≢ t ++ rest
startswith_not s t h rest e =
    let yes_it = ap (λ x. startswith x t) e ∙ startswith-append t rest in cc

startswith_slash : (c : ℕ) (s : Bytes) → startswith (c ∷ s) (codes "/") ≡ (c == b'/')
startswith_slash c s = elim (Bool-cases (c == b'/')) [
  | inl e ↦
      let same : c ≡ b'/' = ground arith in
      ap (λ c. startswith (c ∷ s) (codes "/")) same ∙ startswith-append (codes "/") s ∙ sym e
  | inr n ↦ elim (Bool-cases (startswith (c ∷ s) (codes "/"))) [
    | inl found ↦ let parts = startswith_parts (c ∷ s) (codes "/") found in ground arith
    | inr none_found ↦ none_found ∙ sym n
  ]
]

skip_slashes_lem :
    (s : Bytes) → (k : ℕ) × (s ≡ slashes k ++ skip_slashes s) × StartsFree (skip_slashes s)
unfolding skip_slashes
skip_slashes_lem [] = (0, refl, tt)
skip_slashes_lem (c ∷ s) = elim (Bool-cases (c == b'/')) [
  | inl slash ↦
      let (k, e, free) = skip_slashes_lem s in
      let first = startswith_slash c s ∙ slash in
      let same : c ≡ b'/' = ground arith in
      rw first (suc k, ap (◌∷◌ c) e ∙ ap (λ c. c ∷ (slashes k ++ skip_slashes s)) same, free)
  | inr other ↦ let first = startswith_slash c s ∙ other in rw first (0, refl, other)
]

Resolved-later :
    (d : Dirfd) (dirs : List Dirfd) (path : Bytes)
    → ((rest : Bytes) → path ≢ dir_of d ++ rest)
    → (found : Option Relpath) → Resolved dirs path found
    → Resolved (d ∷ dirs) path found
Resolved-later d dirs path n none h = (n, h)
Resolved-later d dirs path n (some r) h = record {
  before = d ∷ h.before;
  dir = h.dir;
  after = h.after;
  split = ap (◌∷◌ d) h.split;
  first = (n, h.first);
  fd = h.fd;
  count = h.count;
  rest = h.rest;
  parts = h.parts;
  no_slash = h.no_slash;
  relpath = h.relpath;
}

-- `find_dirfd` finds the first open directory that, without the slash at its end, is a beginning of the
-- path. The relative path is what is left of it without the slashes in front, and `.` where nothing is
-- left. Where no directory is a beginning of the path, nothing is found.
pub find_dirfd-Resolved :
    (dirs : List Dirfd) (path : Bytes) → Resolved dirs path (find_dirfd dirs path)
unfolding find_dirfd cuthead
find_dirfd-Resolved [] path = tt
find_dirfd-Resolved (d ∷ dirs) path = elim (Bool-cases (startswith path (dir_of d))) [
  | inl e ↦
      let (k, parts, free) = skip_slashes_lem (drop (length (dir_of d)) path) in
      rw e (record {
        before = [];
        dir = d;
        after = dirs;
        split = refl;
        first = tt;
        fd = refl;
        count = k;
        rest = skip_slashes (drop (length (dir_of d)) path);
        parts = startswith_parts path (dir_of d) e ∙ ap (λ r. dir_of d ++ r) parts;
        no_slash = free;
        relpath = refl;
      })
  | inr n ↦ rw n (
      Resolved-later d dirs path (startswith_not path (dir_of d) n) (find_dirfd dirs path)
        (find_dirfd-Resolved dirs path))
]

-- A path that begins with the name of the first open directory, without the slash at its end, and goes on
-- with a byte that is not a slash, as the path of a sibling does whose name begins with the directory's, is
-- looked for below the directory, under the rest of the path.
pub find_dirfd_sibling :
    (d : Dirfd) (dirs : List Dirfd) (c : ℕ) (rest : Bytes)
    → (c == b'/') ≡ false
    → find_dirfd (d ∷ dirs) (dir_of d ++ (c ∷ rest))
      ≡ some (record { relpath = c ∷ rest; fd = d.fd })
unfolding find_dirfd skip_slashes or_current cuthead
find_dirfd_sibling d dirs c rest n =
    let found = startswith-append (dir_of d) (c ∷ rest) in
    let left = drop-append (dir_of d) (c ∷ rest) in
    let other = startswith_slash c rest ∙ n in rw (found, left, other) refl
