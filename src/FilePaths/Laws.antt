-- ===== src/FilePaths/Laws.antt =====
-- Laws of the path operations: where `dirname` and `basename` cut, and what a realname is.
use u_config.Base.{
  ℕ, zero, suc, ◌+◌, ◌-◌, ◌≤◌, ◌<◌, true, false, [], ◌∷◌, ◌++◌, Bytes, ◌≡◌, refl, ap, sym, ◌∙◌, ◌⊎◌,
  inl, inr, arith, if◌then◌else◌, length, codes, take, drop, Bool-cases, length-append,
  append_assoc, take-append, drop-append,
}
use u_config.S8.{pathsep, takehead, taketail, cuthead, cuttail}
use u_config.S8.Laws.{s8equals_refl}
use u_config.FilePaths.{
  sep_at, dirname_loop, dirname, basename_loop, basename, buildpath, realnameispath, baselen_loop,
  pathtorealname,
}

abbrev pub HasNoSep : Bytes → Type 0
HasNoSep [] = Unit {0}
HasNoSep (c ∷ s) = (pathsep c ≡ false) × HasNoSep s

-- Where the two loops stop: at the last separator below `n`, or at zero.
Stops : Bytes → ℕ → Type 0
Stops path n =
    (dirname_loop path n ≡ 0)
      × (basename_loop path n ≡ 0)
      × ((i : ℕ) → i < n → sep_at path i ≡ false)
    ⊎ (sep_at path (dirname_loop path n) ≡ true)
      × (basename_loop path n ≡ suc (dirname_loop path n))
      × (dirname_loop path n < n)
      × ((i : ℕ) → dirname_loop path n < i → i < n → sep_at path i ≡ false)

below_suc : (n : ℕ) (i : ℕ) → i < suc n → (i < n) ⊎ (i ≡ n)
below_suc n i h = omega arith

Stops-all : (path : Bytes) (n : ℕ) → Stops path n
unfolding Stops dirname_loop basename_loop
Stops-all path zero = inl (refl, refl, λ i h. absurd (omega arith))
Stops-all path (suc n) = elim (Bool-cases (sep_at path n)) [
  | inl s ↦ rw s (inr (s, refl, omega arith, λ i p q. absurd (omega arith)))
  | inr s ↦ rw s (elim (Stops-all path n) [
    | inl (d, b, all) ↦
        inl (d, b, λ i h. elim (below_suc n i h) [ inl l ↦ all i l | inr e ↦ rw e s ])
    | inr (d, b, l, all) ↦
        inr (
          d,
          b,
          omega arith,
          λ i p h. elim (below_suc n i h) [ inl l ↦ all i p l | inr e ↦ rw e s ],
        )
  ])
]

HasNoSep-from :
    (k : ℕ) (s : Bytes)
    → ((i : ℕ) → k ≤ i → i < length s → sep_at s i ≡ false)
    → HasNoSep (drop k s)
unfolding sep_at
HasNoSep-from zero [] h = tt
HasNoSep-from (suc k) [] h = tt
HasNoSep-from zero (c ∷ s) h = (
  h 0 (omega arith) (omega arith),
  HasNoSep-from zero s (λ i p q. h (suc i) (omega arith) (omega arith)),
)
HasNoSep-from (suc k) (c ∷ s) h = HasNoSep-from k s (λ i p q. h (suc i) (omega arith) (omega arith))

split_at_sep :
    (s : Bytes) (i : ℕ)
    → sep_at s i ≡ true
    → (c : ℕ) × (pathsep c ≡ true) × (s ≡ take i s ++ (c ∷ drop (suc i) s))
unfolding sep_at
split_at_sep [] i h = cc
split_at_sep (c ∷ s) zero h = (c, h, refl)
split_at_sep (c ∷ s) (suc i) h = let (d, p, e) = split_at_sep s i h in (d, p, ap (◌∷◌ c) e)

basename-drop :
    (path : Bytes) (b : ℕ)
    → b ≤ length path
    → basename_loop path (length path) ≡ b
    → basename path ≡ drop b path
unfolding basename taketail cuthead
basename-drop path b h e =
    let m : length path - (length path - basename_loop path (length path)) ≡ b = omega arith in
    ap (λ k. drop k path) m

-- `path` is cut at its last separator, which neither part holds; with no separator the directory
-- part is empty.
pub record CutsAtLast (path : Bytes) : Type 0 where
  pub base_plain : HasNoSep (basename path)
  pub parts :
      (dirname path ≡ []) × (basename path ≡ path)
      ⊎ ((c : ℕ) × (pathsep c ≡ true) × (path ≡ dirname path ++ (c ∷ basename path)))

-- `dirname` and `basename` cut a path at its last separator: the base has no separator, and either
-- the path is the directory, one separator and the base, or the directory is empty and the base is
-- the path.
pub dirname-basename : (path : Bytes) → CutsAtLast path
unfolding dirname takehead Stops
dirname-basename path = elim (Stops-all path (length path)) [
  | inl (d, b, all) ↦
      let e = basename-drop path 0 (omega arith) b in
      record {
        base_plain = rw e (HasNoSep-from 0 path (λ i _ h. all i h));
        parts = inl (rw d refl, e);
      }
  | inr (s, b, l, all) ↦
      let d = dirname_loop path (length path) in
      let e = basename-drop path (suc d) (omega arith) b in
      let (c, p, q) = split_at_sep path d s in
      record {
        base_plain = rw e (HasNoSep-from (suc d) path (λ i k h. all i (omega arith) h));
        parts = inr (c, p, rw e q);
      }
]

baselen_loop-plain : (s : Bytes) (i b : ℕ) → HasNoSep s → baselen_loop i b s ≡ b
unfolding baselen_loop
baselen_loop-plain [] i b h = refl
baselen_loop-plain (c ∷ s) i b h = rw h.0 (baselen_loop-plain s (i + 1) b h.1)

baselen_loop-cut :
    (xs ys : Bytes) (c i b : ℕ)
    → pathsep c ≡ true
    → HasNoSep ys
    → baselen_loop i b (xs ++ (c ∷ ys)) ≡ i + length xs + 1
unfolding baselen_loop
baselen_loop-cut [] ys c i b p h = baselen_loop-plain ys (i + 1) _ h ∙ rw p (omega arith)
baselen_loop-cut (x ∷ xs) ys c i b p h =
    omega (arith, baselen_loop-cut xs ys c (i + 1) (if pathsep x then i + 1 else b) p h)

drop-cut : (xs ys : Bytes) (c : ℕ) → drop (length xs + 1) (xs ++ (c ∷ ys)) ≡ ys
drop-cut [] ys c = refl
drop-cut (x ∷ xs) ys c =
    let e : suc (length xs) + 1 ≡ suc (length xs + 1) = omega arith in rw e (drop-cut xs ys c)

-- What is behind the last separator.
drop-baselen : (path : Bytes) → drop (baselen_loop 0 0 path) path ≡ basename path
drop-baselen path =
    let cuts = dirname-basename path in
    elim cuts.parts [
      | inl (d, b) ↦
          let plain : HasNoSep path = rw b at cuts.base_plain in
          ap (λ k. drop k path) (baselen_loop-plain path 0 0 plain) ∙ sym b
      | inr (c, p, e) ↦
          ap (λ q. drop (baselen_loop 0 0 q) q) e
          ∙ ap (λ k. drop k (dirname path ++ (c ∷ basename path)))
              (let n : baselen_loop 0 0 (dirname path ++ (c ∷ basename path))
                    ≡ length (dirname path) + 1 =
                  omega (
                    arith,
                    baselen_loop-cut (dirname path) (basename path) c 0 0 p cuts.base_plain,
                  ) in
                n)
          ∙ drop-cut (dirname path) (basename path) c
    ]

-- A realname that is a path stands for its last component with the extension cut off; any other
-- stands for itself.
pub pathtorealname-basename :
    (path : Bytes)
    → pathtorealname path ≡ (if realnameispath path then cuttail (basename path) 3 else path)
unfolding pathtorealname cuthead
pathtorealname-basename path = elim (Bool-cases (realnameispath path)) [
  | inl y ↦ rw y (ap (λ s. cuttail s 3) (drop-baselen path))
  | inr n ↦ rw n
]

abbrev extended : Bytes → Bytes → Bytes
extended dir pc = (dir ++ (b'/' ∷ pc)) ++ codes ".pc"

-- The path without its terminator, as `findpackage` keeps it.
cuttail-buildpath : (dir pc : Bytes) → cuttail (buildpath dir pc) 1 ≡ extended dir pc
unfolding cuttail buildpath
cuttail-buildpath dir pc =
    let whole : dir ++ (codes "/" ++ (pc ++ (codes ".pc" ++ 0 ∷ [])))
        ≡ extended dir pc ++ (0 ∷ []) =
      simp append_assoc in
    let n : length (extended dir pc ++ (0 ∷ [])) - 1 ≡ length (extended dir pc) =
      omega (arith, length-append (extended dir pc) (0 ∷ [])) in
    rw whole (rw n (take-append (extended dir pc) (0 ∷ [])))

realnameispath-extended : (dir pc : Bytes) → realnameispath (extended dir pc) ≡ true
unfolding realnameispath taketail cuthead
realnameispath-extended dir pc =
    let xs = dir ++ (b'/' ∷ pc) in
    let n : length (extended dir pc) - 3 ≡ length xs =
      omega (arith, length-append xs (codes ".pc")) in
    rw (n, drop-append xs (codes ".pc"))
      (ground (
        arith,
        s8equals_refl (codes ".pc"),
        length-append xs (codes ".pc"),
        length-append dir (b'/' ∷ pc),
      ))

HasNoSep-append : (s t : Bytes) → HasNoSep s → HasNoSep t → HasNoSep (s ++ t)
HasNoSep-append [] t h k = k
HasNoSep-append (c ∷ s) t h k = (h.0, HasNoSep-append s t h.1 k)

-- The file that is looked for under a directory has the package's realname, where that holds no
-- separator.
pub pathtorealname-buildpath :
    (dir pc : Bytes) → HasNoSep pc → pathtorealname (cuttail (buildpath dir pc) 1) ≡ pc
unfolding pathtorealname cuthead cuttail pathsep
pathtorealname-buildpath dir pc h =
    let tail = pc ++ codes ".pc" in
    let plain = HasNoSep-append pc (codes ".pc") h (refl, (refl, (refl, tt))) in
    let same : extended dir pc ≡ dir ++ (b'/' ∷ tail) = simp append_assoc in
    let base : drop (baselen_loop 0 0 (extended dir pc)) (extended dir pc) ≡ tail = rw same (
      let e : baselen_loop 0 0 (dir ++ (b'/' ∷ tail)) ≡ length dir + 1 =
        omega (arith, baselen_loop-cut dir tail b'/' 0 0 refl plain) in
      rw e (drop-cut dir tail b'/')) in
    let n : length tail - 3 ≡ length pc = omega (arith, length-append pc (codes ".pc")) in
    rw (cuttail-buildpath dir pc)
      (rw (realnameispath-extended dir pc, base, n) (take-append pc (codes ".pc")))
