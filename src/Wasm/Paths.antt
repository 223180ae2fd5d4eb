-- ===== src/Wasm/Paths.antt =====
-- Slashes at the end of a path.
use mathlib.Core.Path.{subst}
use u_config.Base.{
  ℕ, zero, suc, ◌-◌, ◌≤◌, Bool, true, false, ◌&&◌, leb, [], ◌∷◌, ◌++◌, Bytes, codes, ◌==◌, length,
  ◌≡◌, ◌⊎◌, refl, sym, ap, ◌∙◌, arith, Bool-cases, inl, inr, append_assoc, append-nil,
  length-append, drop-append_at, take-append_at,
}
use u_config.S8.{s8equals, taketail, cuttail}
use u_config.S8.Laws.{s8equals_refl, s8equals_iff}
use u_config.Platform.{endswith}
use u_config.Wasm.{strip_loop, strip, preopened, dir_of}

abbrev pub slashes : ℕ → Bytes
slashes zero = []
slashes (suc n) = b'/' ∷ slashes n

-- No slash at the end.
abbrev pub EndsFree : Bytes → Type 0
EndsFree r = (r ≡ []) ⊎ ((s : Bytes) × (c : ℕ) × (r ≡ s ++ (c ∷ [])) × ((c == b'/') ≡ false))

-- Every path is one with no slash at its end, and slashes.
pub trims : (q : Bytes) → (r : Bytes) × (k : ℕ) × EndsFree r × (q ≡ r ++ slashes k)
trims [] = ([], 0, inl refl, refl)
trims (c ∷ q) =
    let (r, k, free, e) = trims q in
    elim free [
      | inl none ↦ elim (Bool-cases (c == b'/')) [
        | inl slash ↦ (
          [],
          suc k,
          inl refl,
          ap (◌∷◌ c) (e ∙ ap (λ r. r ++ slashes k) none) ∙ ap (λ c. c ∷ slashes k) (ground arith),
        )
        | inr other ↦
            (c ∷ [], k, inr ([], c, refl, other), ap (◌∷◌ c) (e ∙ ap (λ r. r ++ slashes k) none))
      ]
      | inr (s, d, f, other) ↦ (c ∷ r, k, inr (c ∷ s, d, ap (◌∷◌ c) f, other), ap (◌∷◌ c) e)
    ]

slashes_end : (k : ℕ) → slashes k ++ codes "/" ≡ slashes (suc k)
slashes_end zero = refl
slashes_end (suc k) = ap (◌∷◌ b'/') (slashes_end k)

taketail-append : (s t : Bytes) → taketail (s ++ t) (length t) ≡ t
unfolding taketail
taketail-append s t =
    drop-append_at (length (s ++ t) - length t) s t (omega (arith, length-append s t))

cuttail-append : (s t : Bytes) → cuttail (s ++ t) (length t) ≡ s
unfolding cuttail
cuttail-append s t =
    take-append_at (length (s ++ t) - length t) s t (omega (arith, length-append s t))

both : (a b : Bool) → a ≡ true → b ≡ true → (a && b) ≡ true
both a b h k = ground arith

not_both : (a b : Bool) → b ≡ false → (a && b) ≡ false
not_both a b h = ground arith

endswith-append : (s t : Bytes) → endswith (s ++ t) t ≡ true
unfolding endswith
endswith-append s t =
    both (leb (length t) (length (s ++ t))) (s8equals (taketail (s ++ t) (length t)) t)
      (ground (arith, length-append s t))
      (ap (λ x. s8equals x t) (taketail-append s t) ∙ s8equals_refl t)

-- Another end of the same length.
endswith_other :
    (s t u : Bytes) → length t ≡ length u → s8equals t u ≡ false → endswith (s ++ t) u ≡ false
unfolding endswith
endswith_other s t u e n =
    not_both (leb (length u) (length (s ++ t))) (s8equals (taketail (s ++ t) (length u)) u) (
      ap (λ k. s8equals (taketail (s ++ t) k) u) (sym e)
      ∙ ap (λ x. s8equals x u) (taketail-append s t)
      ∙ n)

differs : (c : ℕ) (t : Bytes) → (c == b'/') ≡ false → s8equals (c ∷ t) (b'/' ∷ t) ≡ false
differs c t h = elim (Bool-cases (s8equals (c ∷ t) (b'/' ∷ t))) [
  | inl e ↦ let same = (s8equals_iff (c ∷ t) (b'/' ∷ t)).0 e in ground arith
  | inr n ↦ n
]

endswith-EndsFree : (r : Bytes) → EndsFree r → endswith r (codes "/") ≡ false
endswith-EndsFree r (inl e) = ap (λ r. endswith r (codes "/")) e ∙ (unfold endswith in refl)
endswith-EndsFree r (inr (s, c, e, n)) =
    ap (λ r. endswith r (codes "/")) e ∙ endswith_other s (c ∷ []) (codes "/") refl (differs c [] n)

endswith_one : (r : Bytes) → EndsFree r → endswith (r ++ codes "/") (codes "//") ≡ false
endswith_one r (inl e) =
    ap (λ r. endswith (r ++ codes "/") (codes "//")) e ∙ (unfold endswith in refl)
endswith_one r (inr (s, c, e, n)) =
    ap (λ r. endswith (r ++ codes "/") (codes "//")) e
    ∙ ap (λ x. endswith x (codes "//")) (append_assoc s (c ∷ []) (codes "/"))
    ∙ endswith_other s (c ∷ codes "/") (codes "//") refl (differs c (codes "/") n)

-- The slashes at the end go, to the last one, and to the last but one.
strip_loop-slashes :
    (f k : ℕ) (r : Bytes) → EndsFree r → k ≤ f → strip_loop f (codes "/") (r ++ slashes k) ≡ r
unfolding strip_loop
strip_loop-slashes zero zero r h l = append-nil r
strip_loop-slashes zero (suc k) r h l = ground arith
strip_loop-slashes (suc f) zero r h l =
    let none_left = endswith-EndsFree r h in
    ap (strip_loop (suc f) (codes "/")) (append-nil r) ∙ rw none_left refl
strip_loop-slashes (suc f) (suc k) r h l =
    let q = r ++ slashes k in
    let parts : r ++ slashes (suc k) ≡ q ++ codes "/" =
      ap (λ s. r ++ s) (sym (slashes_end k)) ∙ sym (append_assoc r (slashes k) (codes "/")) in
    let ends = endswith-append q (codes "/") in
    let cut = cuttail-append q (codes "/") in
    ap (strip_loop (suc f) (codes "/")) parts
    ∙ rw (ends, cut) (strip_loop-slashes f k r h (omega (arith, l)))

strip_loop-two :
    (f k : ℕ) (r : Bytes)
    → EndsFree r
    → k ≤ f
    → strip_loop f (codes "//") ((r ++ slashes k) ++ codes "/") ≡ r ++ codes "/"
unfolding strip_loop
strip_loop-two zero zero r h l = ap (λ r. r ++ codes "/") (append-nil r)
strip_loop-two zero (suc k) r h l = ground arith
strip_loop-two (suc f) zero r h l =
    let none_left = endswith_one r h in
    ap (λ r. strip_loop (suc f) (codes "//") (r ++ codes "/")) (append-nil r) ∙ rw none_left refl
strip_loop-two (suc f) (suc k) r h l =
    let q = r ++ slashes k in
    let parts : r ++ slashes (suc k) ≡ q ++ codes "/" =
      ap (λ s. r ++ s) (sym (slashes_end k)) ∙ sym (append_assoc r (slashes k) (codes "/")) in
    let ends : endswith ((q ++ codes "/") ++ codes "/") (codes "//") ≡ true =
      ap (λ x. endswith x (codes "//")) (append_assoc q (codes "/") (codes "/"))
      ∙ endswith-append q (codes "//") in
    let cut = cuttail-append (q ++ codes "/") (codes "/") in
    ap (λ q. strip_loop (suc f) (codes "//") (q ++ codes "/")) parts
    ∙ rw (ends, cut) (strip_loop-two f k r h (omega (arith, l)))

length-slashes : (k : ℕ) → length (slashes k) ≡ k
length-slashes zero = refl
length-slashes (suc k) = ap suc (length-slashes k)

-- A preopened directory has one slash at its end, and without it the name that the host gives without the
-- slashes at its end.
pub dir_of-preopened :
    (name : Bytes) (fd : ℕ)
    → EndsFree (dir_of (preopened name fd))
      × ((preopened name fd).path ≡ dir_of (preopened name fd) ++ codes "/")
      × ((k : ℕ) × (name ≡ dir_of (preopened name fd) ++ slashes k))
unfolding dir_of preopened strip
dir_of-preopened name fd =
    let (r, k, free, e) = trims name in
    let path : (preopened name fd).path ≡ r ++ codes "/" =
      ap (λ n. strip_loop (length (n ++ codes "/")) (codes "//") (n ++ codes "/")) e
      ∙ strip_loop-two (length ((r ++ slashes k) ++ codes "/")) k r free (
          omega (
            arith,
            length-append (r ++ slashes k) (codes "/"),
            length-append r (slashes k),
            length-slashes k,
          )) in
    let dir : dir_of (preopened name fd) ≡ r =
      ap (λ p. strip_loop (length p) (codes "/") p) path
      ∙ strip_loop-slashes (length (r ++ codes "/")) 1 r free
          (omega (arith, length-append r (codes "/"))) in
    (
      subst EndsFree (sym dir) free,
      path ∙ ap (λ r. r ++ codes "/") (sym dir),
      (k, e ∙ ap (λ r. r ++ slashes k) (sym dir)),
    )
