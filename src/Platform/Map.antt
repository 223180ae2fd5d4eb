-- ===== src/Platform/Map.antt =====
-- `os_mapfile` gives the whole file or an error, however much each call gives.
use u_config.Base.{
  ℕ, zero, suc, ◌+◌, ◌-◌, ◌≤◌, ◌<◌, true, false, [], ◌∷◌, ◌++◌, Bytes, List, length, take, drop,
  ltb, ◌==◌, if◌then◌else◌, some, ◌≡◌, refl, ap, sym, ◌∙◌, arith, Bool-cases, inl, inr,
  append_assoc, append-nil, length-take, length-append,
}
use u_config.Load.{found, read_error}
use u_config.Platform.{read_loop, mapped, os_mapfile}

-- What the kernel promises for a file that can be read: a byte at least while there are any, and no
-- more than it was asked for and than there are.
pub record Gives (read : ℕ → ℕ → ℕ → ℕ) : Type 0 where
  pub some_bytes : (n len left : ℕ) → 0 < len → 0 < left → 0 < read n len left
  pub asked : (n len left : ℕ) → read n len left ≤ len
  pub there : (n len left : ℕ) → read n len left ≤ left

take-nil {ℓ} : {A : Type ℓ} (k : ℕ) → take {A = A} k [] ≡ []
take-nil zero = refl
take-nil (suc k) = refl

take-split {ℓ} :
    {A : Type ℓ} (n k : ℕ) (xs : List A) → n ≤ k → take n xs ++ take (k - n) (drop n xs) ≡ take k xs
take-split zero k xs l = let e : k - 0 ≡ k = omega arith in rw e refl
take-split (suc n) zero xs l = ground arith
take-split (suc n) (suc k) [] l = take-nil (suc k - suc n)
take-split (suc n) (suc k) (x ∷ xs) l =
    let e : suc k - suc n ≡ k - n = omega arith in
    rw e (ap (◌∷◌ x) (take-split n k xs (omega (arith, l))))

take_all {ℓ} : {A : Type ℓ} (k : ℕ) (xs : List A) → length xs ≤ k → take k xs ≡ xs
take_all k [] l = take-nil k
take_all zero (x ∷ xs) l = ground arith
take_all (suc k) (x ∷ xs) l = ap (◌∷◌ x) (take_all k xs (omega (arith, l)))

module _ (read : ℕ → ℕ → ℕ → ℕ) where
  -- At the end of the file.
  given_nothing :
      Gives read → (n k : ℕ) (file : Bytes) → 0 < k → read n k (length file) < 1 → take k file ≡ []
  given_nothing h n k [] p l = take-nil k
  given_nothing h n k (c ∷ file) p l =
      let more = h.some_bytes n k (suc (length file)) p (omega arith) in ground arith

  read_loop-take :
      Gives read
      → (f n cap : ℕ) (got file : Bytes) → length got ≤ cap
      → cap - length got < f
      → read_loop read f n cap got file ≡ got ++ take (cap - length got) file
  unfolding read_loop
  read_loop-take h zero n cap got file l m = ground arith
  read_loop-take h (suc f) n cap got file l m =
      let k = cap - length got in
      let len = read n k (length file) in
      elim (Bool-cases (ltb (length got) cap)) [
        | inr full ↦ let e : k ≡ 0 = ground arith in rw full (rw e (sym (append-nil got)))
        | inl room ↦ rw room (elim (Bool-cases (ltb len 1)) [
          | inl end ↦
              let none_left = given_nothing h n k file (ground arith) (ground arith) in
              rw end (rw none_left (sym (append-nil got)))
          | inr more ↦
              let fits = h.asked n k (length file) in
              let there = h.there n k (length file) in
              let size : length (got ++ take len file) ≡ length got + len =
                omega (arith, length-append got (take len file), length-take len file) in
              let left : cap - length (got ++ take len file) ≡ k - len = omega (arith, size) in
              rw more (
                read_loop-take h f (n + 1) cap (got ++ take len file) (drop len file)
                  (omega (arith, size)) (rw left (ground arith))
                ∙ append_assoc got (take len file) _
                ∙ ap (◌++◌ got) (rw left (take-split len k file fits)))
        ])
      ]

  -- With a kernel whose calls give a byte at least while the file has any, and never more than there
  -- are and than they are asked for: a file that is shorter than the space is mapped whole, and every
  -- other one is a read error.
  pub os_mapfile-found :
      Gives read
      → (cap : ℕ) (file : Bytes)
      → os_mapfile read cap (some file) ≡ (if ltb (length file) cap then found file else read_error)
  unfolding os_mapfile mapped
  os_mapfile-found h cap file =
      let e : read_loop read (suc cap) 0 cap [] file ≡ take cap file =
        read_loop-take h (suc cap) 0 cap [] file (omega arith) (omega arith)
        ∙ (let all : cap - 0 ≡ cap = omega arith in rw all refl) in
      let size = length-take cap file in
      rw e (elim (Bool-cases (ltb (length file) cap)) [
        | inl short ↦
            let t : (length (take cap file) == cap) ≡ false = ground arith in
            rw (short, t) (ap found (take_all cap file (ground arith)))
        | inr long ↦
            let t : (length (take cap file) == cap) ≡ true = ground arith in rw (long, t) refl
      ])
