-- ===== src/Platform/Write.antt =====
-- `os_write` writes the whole string, however little each call takes.
use u_config.Base.{
  ℕ, zero, suc, ◌+◌, ◌≤◌, ◌<◌, [], ◌∷◌, ◌++◌, Bytes, length, take, drop, Option, some, ◌≡◌, refl,
  ap, sym, ◌∙◌, arith, Option-cases, inl, inr, append_assoc, append-nil, take-append-drop,
  length-drop,
}
use u_config.Platform.{Wrote, sent, failed, out_of_fuel, os_write_loop, os_write}

-- What the kernel promises of a call that does not fail: it takes a byte at least, and no more than it
-- was given.
pub record Progresses (write : ℕ → ℕ → Option ℕ) : Type 0 where
  pub takes : (n len r : ℕ) → 0 < len → write n len ≡ some r → (0 < r) × (r ≤ len)

module _ (write : ℕ → ℕ → Option ℕ) where
  -- The bytes taken are a beginning of the string, and all of it unless a call failed.
  abbrev pub Delivered : Bytes → Wrote → Type 0
  Delivered s (sent taken) = taken ≡ s
  Delivered s (failed taken) = (rest : Bytes) × (taken ++ rest ≡ s) × (0 < length rest)
  Delivered s out_of_fuel = 0 < 0

  os_write_loop-Delivered :
      Progresses write
      → (f n : ℕ) (taken s : Bytes) → length s ≤ f
      → Delivered (taken ++ s) (os_write_loop write f n taken s)
  unfolding os_write_loop
  os_write_loop-Delivered h f n taken [] l = sym (append-nil taken)
  os_write_loop-Delivered h zero n taken (c ∷ s) l = omega arith
  os_write_loop-Delivered h (suc f) n taken (c ∷ s) l =
      elim (Option-cases (write n (suc (length s)))) [
        | inl e ↦ rw (e, os_write_loop) (c ∷ s, refl, omega arith)
        | inr (r, e) ↦
            let (some_bytes, fits) = h.takes n (suc (length s)) r (omega arith) e in
            let shorter : length (drop r (c ∷ s)) ≤ f = omega (arith, length-drop r (c ∷ s)) in
            let ih =
              os_write_loop-Delivered h f (n + 1) (taken ++ take r (c ∷ s)) (drop r (c ∷ s))
                shorter in
            let whole : (taken ++ take r (c ∷ s)) ++ drop r (c ∷ s) ≡ taken ++ (c ∷ s) =
              append_assoc taken (take r (c ∷ s)) (drop r (c ∷ s))
              ∙ ap (◌++◌ taken) (take-append-drop r (c ∷ s)) in
            rw (e, os_write_loop) (rw (← whole) ih)
      ]

  -- With a kernel whose calls take a byte at least and no more than they are given, `os_write` ends.
  -- Either the calls took the whole string in order, or one of them failed behind a beginning of the
  -- string that is not all of it.
  pub os_write-Delivered : Progresses write → (s : Bytes) → Delivered s (os_write write s)
  unfolding os_write
  os_write-Delivered h s = os_write_loop-Delivered h (length s) 0 [] s (omega arith)
