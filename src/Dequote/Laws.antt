-- ===== src/Dequote/Laws.antt =====
-- `dequote` makes progress, and its escape state is never entered.
use u_config.Base.{
  ℕ, suc, ◌≤◌, Bool, true, false, [], ◌∷◌, ◌++◌, Bytes, ◌==◌, ◌≡◌, ◌≢◌, refl, arith, length, some,
  inl, inr, ◌⊎◌, ap, append-nil, codes, Bool-cases, length-append, ◌-◌,
}
use u_config.S8.{whitespace}
use u_config.Dequote.{
  shellmeta, Quote, outside, single, double, Dequoted, Step, go, break, in_single, in_double,
  in_outside, blank, step, finish, dequote_loop, skipspace, dequote,
}

pub Step-cases :
    (t : Step) → (t ≡ break) ⊎ ((q : Quote) × (e : Bool) × (p : Bytes) × (t ≡ go q e p))
Step-cases break = inl refl
Step-cases (go q e p) = inr (q, e, p, refl)

-- What is left is an end of what was read.
dequote_loop_tail :
    (q : Quote) (e : Bool) (out s : Bytes) (r : Dequoted)
    → dequote_loop q e out s ≡ some r
    → (read : Bytes) × (s ≡ read ++ r.tail)
unfolding dequote_loop finish
dequote_loop_tail outside e out [] r h = ([], ground arith)
dequote_loop_tail single e out [] r h = cc
dequote_loop_tail double e out [] r h = cc
dequote_loop_tail q e out (c ∷ s) r h = elim (Step-cases (step q e c)) [
  | inl b ↦ let h' = rw (b, dequote_loop) at h in stop q h'
  | inr (q', e', p, g) ↦
      let h' = rw (g, dequote_loop) at h in
      let (read, w) = dequote_loop_tail q' e' (out ++ p) s r h' in (c ∷ read, ap (◌∷◌ c) w)
]
  where
    stop : (q : Quote) → finish q out (c ∷ s) ≡ some r → (read : Bytes) × (c ∷ s ≡ read ++ r.tail)
    stop outside h = ([], ground arith)
    stop single h = cc
    stop double h = cc

-- A byte that is no white space is taken.
step_taken : (e : Bool) (c : ℕ) → whitespace c ≡ false → step outside e c ≢ break
unfolding step in_outside blank
step_taken e c w = ground (arith, blank_space c)
  where
    blank_space : (c : ℕ) → whitespace c ≡ false → (c == b' ') ≡ false
    blank_space c w = unfold whitespace in ground arith

length-dequote_loop_tail :
    (q : Quote) (e : Bool) (out s : Bytes) (r : Dequoted)
    → dequote_loop q e out s ≡ some r
    → length r.tail ≤ length s
length-dequote_loop_tail q e out s r h =
    let (read, w) = dequote_loop_tail q e out s r h in
    omega (arith, ap length w, length-append read r.tail)

length-dequote_loop_taken :
    (c : ℕ) (s : Bytes) (r : Dequoted)
    → whitespace c ≡ false
    → dequote_loop outside false [] (c ∷ s) ≡ some r
    → length r.tail ≤ length s
length-dequote_loop_taken c s r w h = elim (Step-cases (step outside false c)) [
  | inl b ↦ absurd (step_taken false c w b)
  | inr (q, e, p, g) ↦
      length-dequote_loop_tail q e p s r (unfold dequote_loop in rw (g, dequote_loop) at h)
]

length-skipspace_tail :
    (s : Bytes) (n : ℕ) (r : Dequoted)
    → length s ≤ n
    → dequote_loop outside false [] (skipspace s) ≡ some r
    → length r.tail ≤ n - 1
unfolding skipspace
length-skipspace_tail [] n r l h = omega (arith, length-dequote_loop_tail outside false [] [] r h)
length-skipspace_tail (c ∷ s) n r l h = elim (Bool-cases (whitespace c)) [
  | inl w ↦ omega (arith, length-skipspace_tail s (n - 1) r (omega arith) (rw w at h))
  | inr w ↦ omega (arith, length-dequote_loop_taken c s r w (rw w at h))
]

-- An argument that is read off a field leaves a shorter field.
pub length-dequote_tail :
    (x : ℕ) (s : Bytes) (r : Dequoted) → dequote (x ∷ s) ≡ some r → length r.tail ≤ length s
unfolding dequote
length-dequote_tail x s r h =
    omega (arith, length-skipspace_tail (x ∷ s) (suc (length s)) r (omega arith) h)

pub shellmeta_backslash : shellmeta b'\\' ≡ true
unfolding shellmeta
shellmeta_backslash = refl

-- The escape state of double quotes is never entered: a backslash is a shell metacharacter, and is
-- taken for one first.
pub step_escaped :
    (q q' : Quote) (c : ℕ) (e : Bool) (p : Bytes) → step q false c ≡ go q' e p → e ≡ false
unfolding step in_single in_double in_outside
step_escaped single q' c e p h = ground arith
step_escaped double q' c e p h = ground (arith, shellmeta_backslash)
step_escaped outside q' c e p h = ground arith

-- So a double quote ends the quotes also behind a backslash, which is printed escaped.
pub dequote_backslash :
    (out s : Bytes)
    → dequote_loop double false out (b'\\' ∷ b'"' ∷ s)
      ≡ dequote_loop outside false (out ++ codes "\\\\") s
unfolding dequote_loop step in_double blank whitespace shellmeta
dequote_backslash out s = rw append-nil refl
