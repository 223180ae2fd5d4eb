-- ===== src/Dequote/Safe.antt =====
-- Which bytes `dequote` escapes in its result.
use mathlib.Core.Path.{subst}
use u_config.Base.{
  ℕ, Bool, false, ◌||◌, [], ◌∷◌, ◌++◌, Bytes, ◌==◌, ◌≡◌, refl, arith, some, inl, inr, Bool-cases,
}
use u_config.S8.{whitespace}
use u_config.Encode.{pathdecode}
use u_config.Dequote.{
  meta, meta_loop, shellmeta, Quote, outside, single, double, Dequoted, Step, go, break, in_single,
  in_double, in_outside, blank, step, finish, dequote_loop, skipspace, dequote,
}
use u_config.Dequote.Laws.{Step-cases, step_escaped}

pub has : Bytes → ℕ → Bool
has [] c = false
has (m ∷ ms) c = m == c || has ms c

-- White space, or a byte of the list of metacharacters.
unfoldable pub needs_escape : ℕ → Bool
unfolding has whitespace
needs_escape c = whitespace c || has meta c

-- Every byte that needs it stands behind a backslash, and no backslash is the last byte.
pub data IsSafe : Bytes → Type 0 where
  nil : IsSafe []
  plain : {c : ℕ} {s : Bytes} → needs_escape c ≡ false → IsSafe s → IsSafe (c ∷ s)
  escape : {b c : ℕ} {s : Bytes} → b ≡ b'\\' → IsSafe s → IsSafe (b ∷ c ∷ s)

IsSafe-append : {s t : Bytes} → IsSafe s → IsSafe t → IsSafe (s ++ t)
IsSafe-append nil k = k
IsSafe-append (plain e h) k = plain e (IsSafe-append h k)
IsSafe-append (escape e h) k = escape e (IsSafe-append h k)

meta_loop-has : (c : ℕ) (ms : Bytes) → meta_loop c ms ≡ false → has ms c ≡ false
unfolding meta_loop has
meta_loop-has c [] h = refl
meta_loop-has c (m ∷ ms) h = ground (arith, meta_loop-has c ms)

shellmeta-has : (c : ℕ) → shellmeta c ≡ false → has meta c ≡ false
unfolding shellmeta
shellmeta-has c h = meta_loop-has c meta h

shellmeta-pathdecode : (c : ℕ) → shellmeta c ≡ false → pathdecode c ≡ c
unfolding shellmeta meta_loop
shellmeta-pathdecode c h = ground arith

blank-whitespace : (c : ℕ) → (blank c == b' ') ≡ false → whitespace (blank c) ≡ false
unfolding blank whitespace
blank-whitespace c h = ground arith

-- A byte that is printed bare.
IsSafe-bare :
    (c : ℕ) → (blank c == b' ') ≡ false → shellmeta (blank c) ≡ false → IsSafe (blank c ∷ [])
IsSafe-bare c s m =
    plain {c = blank c}
      (unfold needs_escape in rw (blank-whitespace c s) (shellmeta-has (blank c) m)) nil

IsSafe-decoded :
    (c : ℕ)
    → (blank c == b' ') ≡ false
    → shellmeta (blank c) ≡ false
    → IsSafe (pathdecode (blank c) ∷ [])
IsSafe-decoded c s m = rw (shellmeta-pathdecode (blank c) m) (IsSafe-bare c s m)

abbrev Prints : Step → Type 0
Prints (go q e p) = IsSafe p
Prints break = Unit {0}

step-IsSafe : (q : Quote) (c : ℕ) → Prints (step q false c)
unfolding step in_single in_double in_outside
step-IsSafe single c = elim (Bool-cases (blank c == b'\'')) [
  | inl e ↦ rw e nil
  | inr e ↦ rw e (elim (Bool-cases (blank c == b' ')) [
    | inl s ↦ rw s (escape refl nil)
    | inr s ↦ rw s (elim (Bool-cases (shellmeta (blank c))) [
      | inl m ↦ rw m (escape refl nil)
      | inr m ↦ rw m (IsSafe-decoded c s m)
    ])
  ])
]
step-IsSafe double c = elim (Bool-cases (blank c == b'"')) [
  | inl e ↦ rw e nil
  | inr e ↦ rw e (elim (Bool-cases (blank c == b' ')) [
    | inl s ↦ rw s (escape refl nil)
    | inr s ↦ rw s (elim (Bool-cases (shellmeta (blank c))) [
      | inl m ↦ rw m (escape refl nil)
      | inr m ↦ rw m (IsSafe-decoded c s m)
    ])
  ])
]
step-IsSafe outside c = elim (Bool-cases (blank c == b'\'')) [
  | inl e ↦ rw e nil
  | inr e ↦ rw e (elim (Bool-cases (blank c == b'"')) [
    | inl d ↦ rw d nil
    | inr d ↦ rw d (elim (Bool-cases (shellmeta (blank c))) [
      | inl m ↦ rw m (escape refl nil)
      | inr m ↦ rw m (elim (Bool-cases (blank c == b' ')) [
        | inl s ↦ rw s tt
        | inr s ↦ rw s (IsSafe-bare c s m)
      ])
    ])
  ])
]

finish-IsSafe :
    (q : Quote) (out s : Bytes) (r : Dequoted) → IsSafe out → finish q out s ≡ some r → IsSafe r.arg
unfolding finish
finish-IsSafe outside out s r h e = subst IsSafe (ap_arg out s r e) h
  where
    ap_arg :
        (out s : Bytes) (r : Dequoted)
        → some (record { arg = out; tail = s }) ≡ some r
        → out ≡ r.arg
    ap_arg out s r e = ground arith
finish-IsSafe single out s r h e = cc
finish-IsSafe double out s r h e = cc

dequote_loop-IsSafe :
    (q : Quote) (out s : Bytes) (r : Dequoted)
    → IsSafe out
    → dequote_loop q false out s ≡ some r
    → IsSafe r.arg
unfolding dequote_loop
dequote_loop-IsSafe q out [] r h e = finish-IsSafe q out [] r h e
dequote_loop-IsSafe q out (c ∷ s) r h e = elim (Step-cases (step q false c)) [
  | inl b ↦ finish-IsSafe q out (c ∷ s) r h (rw (b, dequote_loop) at e)
  | inr (q', e', p, g) ↦
      let safe : IsSafe p = rw g at (step-IsSafe q c) in
      let never : e' ≡ false = step_escaped q q' c e' p g in
      let later : dequote_loop q' false (out ++ p) s ≡ some r =
        rw never at (rw (g, dequote_loop) at e) in
      dequote_loop-IsSafe q' (out ++ p) s r (IsSafe-append h safe) later
]

-- In the argument that `dequote` returns, every white space and shell metacharacter stands behind a
-- backslash.
pub dequote-IsSafe : (s : Bytes) (r : Dequoted) → dequote s ≡ some r → IsSafe r.arg
unfolding dequote
dequote-IsSafe s r h = dequote_loop-IsSafe outside [] (skipspace s) r nil h
