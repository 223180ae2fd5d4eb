-- ===== src/Expand/Machine.antt =====
-- The stack machine computes the recursive meaning, within the rounds counted for it.
use u_config.Base.{
  ℕ, zero, suc, ◌+◌, ◌-◌, ◌≤◌, ◌<◌, true, false, [], ◌∷◌, ◌++◌, Bytes, List, ◌≡◌, refl, ap, ◌∙◌,
  length, none, some, arith, leb, length-drop, append_assoc, append-nil, Option-cases, inl, inr,
  ◌⊎◌,
}
use u_config.S8.{takehead, cuthead}
use u_config.Env.{Env, lookup}
use u_config.Expand.{
  Expansion, done, stopped, out_of_fuel, Found, nothing, variable, dollar, scan, after_name,
  name_at, stack_cap, expand_loop,
}
use u_config.Expand.Spec.{then, expansion_at, rounds_at}

scan-variable_bound :
    (k i : ℕ) (s : Bytes) → scan k s ≡ variable i → (k ≤ i) × (i + 2 ≤ k + length s)
unfolding scan
scan-variable_bound k i (c ∷ d ∷ s) h = ground (arith, scan-variable_bound (k + 1) i (d ∷ s))
scan-variable_bound k i _ h = cc

scan-dollar_bound : (k i : ℕ) (s : Bytes) → scan k s ≡ dollar i → (k ≤ i) × (i + 2 ≤ k + length s)
unfolding scan
scan-dollar_bound k i (c ∷ d ∷ s) h = ground (arith, scan-dollar_bound (k + 1) i (d ∷ s))
scan-dollar_bound k i _ h = cc

after_name-le : (s : Bytes) (beg : ℕ) → beg ≤ after_name s beg
unfolding after_name
after_name-le s beg = ground arith

-- The tail that is pushed is shorter than the string that was popped.
pub length_variable_tail :
    (i : ℕ) (s : Bytes)
    → scan 0 s ≡ variable i
    → length (cuthead s (after_name s (i + 2))) < length s
unfolding cuthead
length_variable_tail i s h = omega (
  arith,
  length-drop (after_name s (i + 2)) s,
  after_name-le s (i + 2),
  scan-variable_bound 0 i s h,
)

pub length_dollar_tail :
    (i : ℕ) (s : Bytes) → scan 0 s ≡ dollar i → length (cuthead s (i + 2)) < length s
unfolding cuthead
length_dollar_tail i s h = omega (arith, length-drop (i + 2) s, scan-dollar_bound 0 i s h)

pub Found-cases :
    (r : Found) → (r ≡ nothing) ⊎ ((i : ℕ) × (r ≡ variable i)) ⊎ ((i : ℕ) × (r ≡ dollar i))
Found-cases nothing = inl refl
Found-cases (variable i) = inr (inl (i, refl))
Found-cases (dollar i) = inr (inr (i, refl))

module _ (global env : Env) (path : Bytes) where
  -- The machine goes on behind a meaning with the rest of its stack.
  resume : ℕ → Bytes → List Bytes → Expansion → Expansion
  resume f out stack (done o) = expand_loop global env path f (out ++ o) stack
  resume f out stack (stopped o e) = stopped (out ++ o) e
  resume f out stack out_of_fuel = out_of_fuel

  resume-done :
      (f : ℕ) (out a : Bytes) (stack : List Bytes) (k : Expansion)
      → resume f (out ++ a) stack k ≡ resume f out stack (then (done a) k)
  unfolding resume
  resume-done f out a stack (done b) = rw append_assoc
  resume-done f out a stack (stopped b e) = rw append_assoc
  resume-done f out a stack out_of_fuel = refl

  resume-then :
      (f g : ℕ) (out tail : Bytes) (stack : List Bytes) (m k : Expansion)
      → ((o : Bytes) → expand_loop global env path g o (tail ∷ stack) ≡ resume f o stack k)
      → resume g out (tail ∷ stack) m ≡ resume f out stack (then m k)
  unfolding resume
  resume-then f g out tail stack (done a) k h = h (out ++ a) ∙ resume-done f out a stack k
  resume-then f g out tail stack (stopped a e) k h = refl
  resume-then f g out tail stack out_of_fuel k h = refl

  abbrev Runs : ℕ → ℕ → Bytes → Type 0
  Runs d n s =
      (f : ℕ) (out : Bytes) (stack : List Bytes)
      → length stack + d + 1 ≡ stack_cap
      → expand_loop global env path (rounds_at global env path d n s + f) out (s ∷ stack)
        ≡ resume f out stack (expansion_at global env path d n s)

  Runs-nothing : (d n : ℕ) (s : Bytes) → scan 0 s ≡ nothing → Runs d (suc n) s
  unfolding expand_loop rounds_at expansion_at resume
  Runs-nothing zero n s e f out stack h =
      let p : 1 + f ≡ suc f = omega arith in
      rw (e, rounds_at, expansion_at) (rw p (rw (e, expand_loop) refl))
  Runs-nothing (suc d) n s e f out stack h =
      let p : 1 + f ≡ suc f = omega arith in
      rw (e, rounds_at, expansion_at) (rw p (rw (e, expand_loop) refl))

  Runs-dollar :
      (d n i : ℕ) (s : Bytes)
      → scan 0 s ≡ dollar i
      → Runs d n (cuthead s (i + 2))
      → Runs d (suc n) s
  unfolding expand_loop rounds_at expansion_at
  Runs-dollar zero n i s e ih f out stack h =
      let r = rounds_at global env path zero n (cuthead s (i + 2)) in
      let p : suc r + f ≡ suc (r + f) = omega arith in
      rw (e, rounds_at, expansion_at)
        (rw p (
          rw (e, expand_loop)
            (ih f (out ++ takehead s (i + 1)) stack h
              ∙ resume-done f out (takehead s (i + 1)) stack _)))
  Runs-dollar (suc d) n i s e ih f out stack h =
      let r = rounds_at global env path (suc d) n (cuthead s (i + 2)) in
      let p : suc r + f ≡ suc (r + f) = omega arith in
      rw (e, rounds_at, expansion_at)
        (rw p (
          rw (e, expand_loop)
            (ih f (out ++ takehead s (i + 1)) stack h
              ∙ resume-done f out (takehead s (i + 1)) stack _)))

  -- At depth zero the stack is full.
  Runs-too_deep : (n i : ℕ) (s : Bytes) → scan 0 s ≡ variable i → Runs zero (suc n) s
  unfolding expand_loop rounds_at expansion_at resume
  Runs-too_deep n i s e f out stack h =
      let p : 1 + f ≡ suc f = omega arith in
      let full : leb (stack_cap - 1) (length stack) ≡ true = ground arith in
      rw (e, rounds_at, expansion_at) (rw p (rw (e, expand_loop) (rw full (rw append-nil))))

  Runs-undefined :
      (d n i : ℕ) (s : Bytes)
      → scan 0 s ≡ variable i
      → lookup global env (name_at s (i + 2)) ≡ none
      → Runs (suc d) (suc n) s
  unfolding expand_loop rounds_at expansion_at resume
  Runs-undefined d n i s e l f out stack h =
      let p : 1 + f ≡ suc f = omega arith in
      let room : leb (stack_cap - 1) (length stack) ≡ false = ground arith in
      rw (e, rounds_at, expansion_at)
        (rw (l, rounds_at, expansion_at)
          (rw p (rw (e, expand_loop) (rw (room, l) (rw append-nil)))))

  Runs-variable :
      (d n i : ℕ) (s value : Bytes)
      → scan 0 s ≡ variable i
      → lookup global env (name_at s (i + 2)) ≡ some value
      → Runs d (suc (length value)) value
      → Runs (suc d) n (cuthead s (after_name s (i + 2)))
      → Runs (suc d) (suc n) s
  unfolding expand_loop rounds_at expansion_at
  Runs-variable d n i s value e l inner outer f out stack h =
      let tail = cuthead s (after_name s (i + 2)) in
      let r = rounds_at global env path d (suc (length value)) value in
      let q = rounds_at global env path (suc d) n tail in
      let p : suc (r + q) + f ≡ suc (r + (q + f)) = omega arith in
      let room : leb (stack_cap - 1) (length stack) ≡ false = ground arith in
      let head = takehead s i in
      rw (e, rounds_at, expansion_at)
        (rw (l, rounds_at, expansion_at)
          (rw p (
            rw (e, expand_loop)
              (rw (room, l)
                (inner (q + f) (out ++ head) (tail ∷ stack) (omega arith)
                  ∙ resume-then f (q + f) (out ++ head) tail stack _ _ (λ o. outer f o stack h)
                  ∙ resume-done f out head stack _)))))

  Runs-all : (d n : ℕ) (s : Bytes) → length s < n → Runs d n s
  Runs-all d zero s h = elim h [ ]
  Runs-all zero (suc n) s h = elim (Found-cases (scan 0 s)) [
    | inl e ↦ Runs-nothing zero n s e
    | inr (inl (i, e)) ↦ Runs-too_deep n i s e
    | inr (inr (i, e)) ↦
        Runs-dollar zero n i s e
          (Runs-all zero n (cuthead s (i + 2)) (omega (arith, length_dollar_tail i s e)))
  ]
  Runs-all (suc d) (suc n) s h = elim (Found-cases (scan 0 s)) [
    | inl e ↦ Runs-nothing (suc d) n s e
    | inr (inl (i, e)) ↦ elim (Option-cases (lookup global env (name_at s (i + 2)))) [
      | inl l ↦ Runs-undefined d n i s e l
      | inr (value, l) ↦
          Runs-variable d n i s value e l (Runs-all d (suc (length value)) value (omega arith)) (
            Runs-all (suc d) n (cuthead s (after_name s (i + 2)))
              (omega (arith, length_variable_tail i s e)))
    ]
    | inr (inr (i, e)) ↦
        Runs-dollar (suc d) n i s e
          (Runs-all (suc d) n (cuthead s (i + 2)) (omega (arith, length_dollar_tail i s e)))
  ]

-- Below the bottom of the stack stand 127 more strings.
abbrev pub max_depth : ℕ
max_depth = 127

-- `expand`, on as many rounds as it takes.
unfoldable pub expand : Env → Env → Bytes → Bytes → Expansion
unfolding expand_loop rounds_at
expand global env path str =
    expand_loop global env path (rounds_at global env path max_depth (suc (length str)) str) []
      (str ∷ [])

-- The meaning of a string, to a depth.
unfoldable pub expansion : Env → Env → Bytes → ℕ → Bytes → Expansion
unfolding expansion_at
expansion global env path d s = expansion_at global env path d (suc (length s)) s

resume_empty :
    (global env : Env) (path : Bytes) (k : Expansion) → resume global env path 0 [] [] k ≡ k
unfolding resume expand_loop
resume_empty global env path (done o) = refl
resume_empty global env path (stopped o e) = refl
resume_empty global env path out_of_fuel = refl

-- The stack machine prints the recursive meaning of its string, to a depth of 127 variables in one
-- another, or ends with the meaning's error.
pub expand-expansion :
    (global env : Env) (path str : Bytes)
    → expand global env path str ≡ expansion global env path max_depth str
unfolding expand expansion
expand-expansion global env path str =
    let r = rounds_at global env path max_depth (suc (length str)) str in
    let p : r ≡ r + 0 = omega arith in
    ap (λ f. expand_loop global env path f [] (str ∷ [])) p
    ∙ Runs-all global env path max_depth (suc (length str)) str (omega arith) 0 [] [] refl
    ∙ resume_empty global env path _
