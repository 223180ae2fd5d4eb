-- ===== src/S8/Cuts.antt =====
-- What `s8cut` cuts.
use mathlib.Core.Path.{subst}
use u_config.Base.{
  ℕ, suc, if◌then◌else◌, ◌+◌, ◌≤◌, ◌<◌, ◌≡◌, refl, ap, sym, ◌∙◌, ◌⊎◌, inl, inr, Bool, true, false,
  [], ◌∷◌, ◌++◌, Bytes, ◌==◌, length, take, drop, arith, Bool-cases, take-append-drop, length-drop,
  not, take-length, drop-length,
}
use u_config.S8.{prefix_len, takehead, cuthead, Cut, s8cut}

-- The byte does not stand in the string.
abbrev pub Lacks : ℕ → Bytes → Type 0
Lacks delim [] = Unit {0}
Lacks delim (c ∷ s) = ((c == delim) ≡ false) × Lacks delim s

unfoldable pub lacks : ℕ → Bytes → Bool
lacks delim [] = true
lacks delim (c ∷ s) = let rest = lacks delim s in if c == delim then false else rest

pub Lacks-lacks : (delim : ℕ) (s : Bytes) → lacks delim s ≡ true → Lacks delim s
unfolding lacks
Lacks-lacks delim [] h = tt
Lacks-lacks delim (c ∷ s) h = elim (Bool-cases (c == delim)) [
  | inl e ↦ ground arith
  | inr e ↦ (e, Lacks-lacks delim s (ground arith))
]

abbrev free : ℕ → ℕ → Bool
free delim c = not (c == delim)

Lacks-prefix : (delim : ℕ) (s : Bytes) → Lacks delim (take (prefix_len (free delim) s) s)
unfolding prefix_len
Lacks-prefix delim [] = tt
Lacks-prefix delim (c ∷ s) = elim (Bool-cases (c == delim)) [
  | inl e ↦ rw e tt
  | inr n ↦ rw n (n, Lacks-prefix delim s)
]

prefix_stops :
    (delim : ℕ) (s : Bytes)
    → (prefix_len (free delim) s ≡ length s)
      ⊎ (drop (prefix_len (free delim) s) s ≡ delim ∷ drop (suc (prefix_len (free delim) s)) s)
        × (prefix_len (free delim) s < length s)
unfolding prefix_len
prefix_stops delim [] = inl refl
prefix_stops delim (c ∷ s) = elim (Bool-cases (c == delim)) [
  | inl e ↦ inr (rw e (ground arith), rw e (omega arith))
  | inr n ↦ rw n (elim (prefix_stops delim s) [
    | inl all ↦ inl (ap suc all)
    | inr (at, l) ↦ inr (at, omega arith)
  ])
]

-- A cut at the first delimiter, or the whole string and nothing behind it.
pub record CutsAtFirst (s : Bytes) (delim : ℕ) (c : Cut) : Type 0 where
  pub head_free : Lacks delim c.head
  pub parts :
      (c.ok ≡ true) × (s ≡ c.head ++ (delim ∷ c.tail))
      ⊎ (c.ok ≡ false) × (c.head ≡ s) × (c.tail ≡ [])

-- `s8cut` cuts at the first delimiter: the head has no delimiter, and either the string is the head,
-- the delimiter and the tail, or it has no delimiter, the head is the string and the tail is empty.
pub s8cut_lem : (s : Bytes) (delim : ℕ) → CutsAtFirst s delim (s8cut s delim)
unfolding s8cut takehead cuthead
s8cut_lem s delim =
    let n = prefix_len (free delim) s in
    elim (prefix_stops delim s) [
      | inl e ↦
          let same : (n == length s) ≡ true = ground arith in
          rw same (record {
            head_free =
                subst (Lacks delim) (ap (λ k. take k s) e ∙ take-length s) (Lacks-prefix delim s);
            parts = inr (refl, refl, drop-length s);
          })
      | inr (at, l) ↦
          let differ : (n == length s) ≡ false = ground arith in
          let next : n + 1 ≡ suc n = omega arith in
          rw (differ, next)
            (record {
              head_free = Lacks-prefix delim s;
              parts = inl (refl, sym (take-append-drop n s) ∙ ap (λ r. take n s ++ r) at);
            })
    ]

pub length-s8cut_tail :
    (x : ℕ) (s : Bytes) (delim : ℕ) → length (s8cut (x ∷ s) delim).tail ≤ length s
unfolding s8cut cuthead
length-s8cut_tail x s delim =
    let n = prefix_len (free delim) (x ∷ s) in
    ground (arith, length-drop (n + 1) (x ∷ s), drop-length (x ∷ s))
