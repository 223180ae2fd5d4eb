-- ===== src/Process/Machine.antt =====
-- The stack machine of `process` computes the traversal.
use u_config.Base.{
  ℕ, zero, suc, ◌+◌, ◌-◌, ◌≤◌, ◌<◌, [], ◌∷◌, ◌++◌, Bytes, List, length, length-append, ◌≡◌, refl,
  ap, ◌∙◌, arith, Result, ok, fail, out_of_fuel, ◌>>=◌, Option, none, true, ◌⊎◌, inl, inr,
}
use u_config.Spec.{Pkgspec}
use u_config.Load.{Filemap, Flags}
use u_config.Process.{
  Pkgs, no_pkgs, Processor, Procstate, Visit, Round, visit, prepend_new, process_step, process_loop,
  process, stack_cap,
}
use u_config.Process.Depth.{length-visit_entries}
use u_config.Process.Order.{specs_with, entries_at, traversal}

Result-cases {ℓ} :
    {A : Type ℓ} (r : Result A)
    → ((a : A) × (r ≡ ok a)) ⊎ ((e : Bytes) × (r ≡ fail e)) ⊎ (r ≡ out_of_fuel)
Result-cases (ok a) = inl (a, refl)
Result-cases (fail e) = inr (inl (e, refl))
Result-cases out_of_fuel = inr (inr refl)

module _ (os_mapfile : Bytes → Filemap) (proc : Processor) where
  -- With some rounds and any number more, the machine comes from one state of it to the rest of its
  -- stack behind a result, or ends as the result does.
  abbrev Comes : Pkgs → List Procstate → Result Pkgs → List Procstate → Type 0
  Comes t stack m rest =
      (r : ℕ) × ((f : ℕ)
        → process_loop os_mapfile proc (r + f) t stack
          ≡ (m >>= λ t'. process_loop os_mapfile proc f t' rest))

  abbrev entry : List Pkgspec → Option Bytes → ℕ → Flags → Procstate
  entry specs newpkg depth flags = record {
    specs = specs;
    newpkg = newpkg;
    depth = depth;
    flags = flags;
  }

  loop_suc :
      (n f : ℕ) (t : Pkgs) (s : Procstate) (stack : List Procstate) (m : Result Round)
      → n ≡ suc f
      → process_step os_mapfile proc t s stack ≡ m
      → process_loop os_mapfile proc n t (s ∷ stack)
        ≡ (m >>= λ r. process_loop os_mapfile proc f r.pkgs r.stack)
  unfolding process_loop
  loop_suc n f t s stack m p e =
      rw p (ap (λ (x : Result Round). x >>= λ r. process_loop os_mapfile proc f r.pkgs r.stack) e)

  -- A round, then the rest.
  loop_round :
      (t : Pkgs) (s : Procstate) (stack : List Procstate) (st : Round) (m : Result Pkgs)
      (rest : List Procstate)
      → process_step os_mapfile proc t s stack ≡ ok st
      → Comes st.pkgs st.stack m rest
      → Comes t (s ∷ stack) m rest
  loop_round t s stack st m rest e (r, h) =
      (suc r, λ f. loop_suc (suc r + f) (r + f) t s stack (ok st) (omega arith) e ∙ h f)

  -- A round that ends the program.
  loop_fail :
      (t : Pkgs) (s : Procstate) (stack : List Procstate) (x : Bytes) (rest : List Procstate)
      → process_step os_mapfile proc t s stack ≡ fail x
      → Comes t (s ∷ stack) (fail x) rest
  loop_fail t s stack x rest e = (1, λ f. loop_suc (1 + f) f t s stack (fail x) (omega arith) e)

  loop_stuck :
      (t : Pkgs) (s : Procstate) (stack : List Procstate) (rest : List Procstate)
      → process_step os_mapfile proc t s stack ≡ out_of_fuel
      → Comes t (s ∷ stack) out_of_fuel rest
  loop_stuck t s stack rest e = (1, λ f. loop_suc (1 + f) f t s stack out_of_fuel (omega arith) e)

  nothing_left : (t : Pkgs) (rest : List Procstate) → Comes t rest (ok t) rest
  nothing_left t rest =
      (0, λ f. let p : 0 + f ≡ f = omega arith in ap (λ k. process_loop os_mapfile proc k t rest) p)

  -- Two parts of a run.
  then-Comes :
      (t : Pkgs) (stack middle rest : List Procstate) (m : Result Pkgs) (k : Pkgs → Result Pkgs)
      → Comes t stack m middle
      → ((t' : Pkgs) → Comes t' middle (k t') rest)
      → Comes t stack (m >>= k) rest
  then-Comes t stack middle rest (ok t') k (r, h) next =
      let (q, g) = next t' in
      (r + q, λ f. let p : r + q + f ≡ r + (q + f) = omega arith in rw p (h (q + f) ∙ g f))
  then-Comes t stack middle rest (fail x) k c next = c
  then-Comes t stack middle rest out_of_fuel k c next = c

  abbrev EntriesCome : ℕ → Type 0
  EntriesCome n =
      (t : Pkgs) (entries rest : List Procstate) (h : ℕ)
      → h ≡ length entries + length rest
      → h ≤ stack_cap
      → stack_cap < length rest + 1 + n
      → Comes t (entries ++ rest) (entries_at os_mapfile proc n t entries h) rest

  -- The entries that a visit pushes are worked on, whether there are any or not.
  pushed_come :
      (n : ℕ)
      → EntriesCome n
      → (t : Pkgs) (entries rest : List Procstate) → length entries + length rest ≤ stack_cap
      → stack_cap < length rest + 1 + n
      → Comes t
          (entries ++ rest)
          (entries_at os_mapfile proc n t entries (length entries + length rest))
          rest
  unfolding entries_at
  pushed_come n ih t [] rest l g = nothing_left t rest
  pushed_come n ih t (e ∷ entries) rest l g =
      ih t (e ∷ entries) rest (length (e ∷ entries) + length rest) refl l g

  step_visit :
      (t : Pkgs) (spec : Pkgspec) (specs : List Pkgspec) (newpkg : Option Bytes) (depth : ℕ)
      (flags : Flags) (rest : List Procstate) (m : Result Visit)
      → visit os_mapfile proc (prepend_new t newpkg) spec (length rest) (depth + 1) flags ≡ m
      → process_step os_mapfile proc t (entry (spec ∷ specs) newpkg depth flags) rest ≡ (
          m >>= λ v. ok (record {
            pkgs = v.pkgs;
            stack = v.entries ++ (entry specs v.newpkg depth flags ∷ rest);
          }))
  unfolding process_step
  step_visit t spec specs newpkg depth flags rest m e =
      ap
        (λ (x : Result Visit). x >>= λ v. ok (record {
          pkgs = v.pkgs;
          stack = v.entries ++ (entry specs v.newpkg depth flags ∷ rest);
        }))
        e

  specs_come :
      (n : ℕ)
      → EntriesCome n
      → (t : Pkgs) (specs : List Pkgspec) (newpkg : Option Bytes) (depth : ℕ) (flags : Flags)
        (rest : List Procstate)
      → length rest < stack_cap
      → stack_cap < length rest + 1 + suc n
      → Comes t
          (entry specs newpkg depth flags ∷ rest)
          (specs_with os_mapfile proc
            (entries_at os_mapfile proc n)
            (length rest)
            (prepend_new t newpkg)
            specs
            depth
            flags)
          rest
  unfolding specs_with process_step
  specs_come n ih t [] newpkg depth flags rest l g =
      loop_round t (entry [] newpkg depth flags) rest
        (record { pkgs = prepend_new t newpkg; stack = rest }) (ok (prepend_new t newpkg)) rest refl
        (nothing_left (prepend_new t newpkg) rest)
  specs_come n ih t (spec ∷ specs) newpkg depth flags rest l g =
      elim (Result-cases
        (visit os_mapfile proc (prepend_new t newpkg) spec (length rest) (depth + 1) flags)) [
          | inl (v, e) ↦ rw e (
              loop_round t (entry (spec ∷ specs) newpkg depth flags) rest
                (record {
                  pkgs = v.pkgs;
                  stack = v.entries ++ (entry specs v.newpkg depth flags ∷ rest);
                })
                _ rest (step_visit t spec specs newpkg depth flags rest _ e)
                (then-Comes v.pkgs _ (entry specs v.newpkg depth flags ∷ rest) rest _ _
                  (pushed_come n ih v.pkgs v.entries (entry specs v.newpkg depth flags ∷ rest)
                    (omega (
                      arith,
                      length-visit_entries os_mapfile proc (prepend_new t newpkg) spec (length rest)
                          (depth + 1) flags v l e,
                    ))
                    (omega (arith, g)))
                  (λ t'. specs_come n ih t' specs v.newpkg depth flags rest l g)))
          | inr (inl (x, e)) ↦ rw e (
              loop_fail t (entry (spec ∷ specs) newpkg depth flags) rest x rest
                (step_visit t spec specs newpkg depth flags rest _ e))
          | inr (inr e) ↦ rw e (
              loop_stuck t (entry (spec ∷ specs) newpkg depth flags) rest rest
                (step_visit t spec specs newpkg depth flags rest _ e))
        ]

  entries_come : (n : ℕ) → EntriesCome n
  unfolding entries_at
  entries_come n t [] rest h p l g = nothing_left t rest
  entries_come zero t (s ∷ entries) rest h p l g = ground arith
  entries_come (suc n) t (s ∷ entries) rest h p l g =
      let top : h - 1 ≡ length (entries ++ rest) = omega (arith, length-append entries rest) in
      rw top (
        then-Comes t (s ∷ (entries ++ rest)) (entries ++ rest) rest _ _
          (specs_come n (entries_come n) t s.specs s.newpkg s.depth s.flags (entries ++ rest)
            (omega (arith, top)) (omega (arith, length-append entries rest)))
          (λ t'.
            entries_come (suc n) t' entries rest (length (entries ++ rest))
              (length-append entries rest) (omega (arith, top)) g))

  >>=-ok {ℓ} : {A : Type ℓ} (m : Result A) → (m >>= λ x. ok x) ≡ m
  >>=-ok (ok x) = refl
  >>=-ok (fail e) = refl
  >>=-ok out_of_fuel = refl

  -- On every list of specifications there is a number of rounds from which on, however many more are
  -- allowed, the stack machine returns what the traversal returns.
  pub process-traversal :
      (specs : List Pkgspec)
      → (r : ℕ) × ((f : ℕ)
          → process os_mapfile proc (r + f) specs ≡ traversal os_mapfile proc specs)
  unfolding process traversal process_loop
  process-traversal specs =
      let (r, h) =
        specs_come 255 (entries_come 255) no_pkgs specs none 0
          (record { direct = true; public = true }) [] (omega arith) (omega arith) in
      (r, λ f. h f ∙ >>=-ok _)
