-- ===== src/Expand/Laws.antt =====
-- Laws of the meaning of a string with variables.
use u_config.Base.{
  ℕ, zero, suc, ◌+◌, ◌<◌, [], ◌∷◌, ◌++◌, Bytes, ◌≡◌, refl, sym, ap, ◌∙◌, length, take, drop, none,
  some, arith, append-nil, Option-cases, inl, inr, length-append, take-append,
}
use u_config.S8.{takehead, cuthead}
use u_config.S8.Cuts.{Lacks}
use u_config.Env.{Env, lookup}
use u_config.Expand.{
  done, stopped, variable, dollar, scan, after_name, name_at, too_deep, undefined_variable,
}
use u_config.Expand.Spec.{then, expansion_at}
use u_config.Expand.Machine.{
  expand, expansion, expand-expansion, max_depth, length_variable_tail, length_dollar_tail,
  Found-cases,
}
use u_config.Expand.Names.{
  scan-free, scan-variable, scan-dollar, drop-past, take-past, with_variable, name_at-variable,
  length-with_variable, after_name-variable, cuthead-variable,
}

module _ (global env : Env) (path : Bytes) where
  -- Any bound above the length does.
  expansion_at-bound :
      (d n m : ℕ) (s : Bytes)
      → length s < n
      → length s < m
      → expansion_at global env path d n s ≡ expansion_at global env path d m s
  unfolding expansion_at
  expansion_at-bound d zero m s h k = elim h [ ]
  expansion_at-bound d (suc n) zero s h k = elim k [ ]
  expansion_at-bound zero (suc n) (suc m) s h k = elim (Found-cases (scan 0 s)) [
    | inl e ↦ rw (e, expansion_at) refl
    | inr (inl (i, e)) ↦ rw (e, expansion_at) refl
    | inr (inr (i, e)) ↦
        let l = length_dollar_tail i s e in
        let ih = expansion_at-bound zero n m (cuthead s (i + 2)) (omega arith) (omega arith) in
        rw (e, expansion_at) (ap (then (done (takehead s (i + 1)))) ih)
  ]
  expansion_at-bound (suc d) (suc n) (suc m) s h k = elim (Found-cases (scan 0 s)) [
    | inl e ↦ rw (e, expansion_at) refl
    | inr (inl (i, e)) ↦
        let l = length_variable_tail i s e in
        let tail = cuthead s (after_name s (i + 2)) in
        let ih = expansion_at-bound (suc d) n m tail (omega arith) (omega arith) in
        elim (Option-cases (lookup global env (name_at s (i + 2)))) [
          | inl u ↦ rw (e, expansion_at) (rw (u, expansion_at) refl)
          | inr (value, u) ↦
              rw (e, expansion_at)
                (rw (u, expansion_at)
                  (ap
                    (λ k.
                      then (done (takehead s i))
                        (then (expansion_at global env path d (suc (length value)) value) k))
                    ih))
        ]
    | inr (inr (i, e)) ↦
        let l = length_dollar_tail i s e in
        let ih = expansion_at-bound (suc d) n m (cuthead s (i + 2)) (omega arith) (omega arith) in
        rw (e, expansion_at) (ap (then (done (takehead s (i + 1)))) ih)
  ]

  -- A text with no `$` stands for itself.
  pub expansion-free : (d : ℕ) (s : Bytes) → Lacks b'$' s → expansion global env path d s ≡ done s
  unfolding expansion expansion_at
  expansion-free zero s h = rw (scan-free 0 s h, expansion_at) refl
  expansion-free (suc d) s h = rw (scan-free 0 s h, expansion_at) refl

  -- A variable stands for the meaning of its value, one level further down.
  pub expansion-variable :
      (d : ℕ) (a name value b : Bytes)
      → Lacks b'$' a
      → Lacks b'}' name
      → lookup global env name ≡ some value
      → expansion global env path (suc d) (with_variable a name b)
        ≡ then
            (done a)
            (then (expansion global env path d value) (expansion global env path (suc d) b))
  unfolding expansion expansion_at takehead cuthead
  expansion-variable d a name value b ha hn l =
      let s = with_variable a name b in
      let found : lookup global env (name_at s (length a + 2)) ≡ some value =
        ap (lookup global env) (name_at-variable a name b hn) ∙ l in
      let at : scan 0 s ≡ variable (length a) =
        scan-variable 0 a _ ha ∙ ap variable (omega arith) in
      let tail : drop (after_name s (length a + 2)) s ≡ b =
        ap (λ k. drop k s) (after_name-variable a name b hn) ∙ cuthead-variable a name b in
      let rest =
        expansion_at-bound (suc d) (length s) (suc (length b)) b
          (omega (arith, length-with_variable a name b)) (omega arith) in
      rw (at, expansion_at)
        (rw (found, expansion_at)
          (rw tail (
            rw rest (
              ap
                (λ t. then (done t) (
                  then (expansion_at global env path d (suc (length value)) value)
                    (expansion_at global env path (suc d) (suc (length b)) b)))
                (take-append a _)))))

  -- A variable that is not bound ends the program.
  pub expansion-undefined :
      (d : ℕ) (a name b : Bytes)
      → Lacks b'$' a
      → Lacks b'}' name
      → lookup global env name ≡ none
      → expansion global env path (suc d) (with_variable a name b)
        ≡ stopped a (undefined_variable name path)
  unfolding expansion expansion_at takehead
  expansion-undefined d a name b ha hn l =
      let s = with_variable a name b in
      let found : lookup global env (name_at s (length a + 2)) ≡ none =
        ap (lookup global env) (name_at-variable a name b hn) ∙ l in
      let at : scan 0 s ≡ variable (length a) =
        scan-variable 0 a _ ha ∙ ap variable (omega arith) in
      rw (at, expansion_at)
        (rw (found, expansion_at)
          (rw (
            name_at-variable a name b hn,
            take-append a (b'$' ∷ b'{' ∷ (name ++ (b'}' ∷ b))),
            append-nil,
          )))

  expansion_at-dollar :
      (d n i : ℕ) (s : Bytes)
      → scan 0 s ≡ dollar i
      → expansion_at global env path d (suc n) s
        ≡ then (done (takehead s (i + 1))) (expansion_at global env path d n (cuthead s (i + 2)))
  unfolding expansion_at
  expansion_at-dollar zero n i s e = rw (e, expansion_at) refl
  expansion_at-dollar (suc d) n i s e = rw (e, expansion_at) refl

  -- Two dollars stand for one.
  pub expansion-dollar :
      (d : ℕ) (a b : Bytes)
      → Lacks b'$' a
      → expansion global env path d (a ++ (b'$' ∷ b'$' ∷ b))
        ≡ then (done (a ++ (b'$' ∷ []))) (expansion global env path d b)
  unfolding expansion takehead cuthead
  expansion-dollar d a b ha =
      let s = a ++ (b'$' ∷ b'$' ∷ b) in
      let at : scan 0 s ≡ dollar (length a) = scan-dollar 0 a b ha ∙ ap dollar (omega arith) in
      let rest =
        expansion_at-bound d (length s) (suc (length b)) b
          (omega (arith, length-append a (b'$' ∷ b'$' ∷ b))) (omega arith) in
      expansion_at-dollar d (length s) (length a) s at
      ∙ ap (λ t. then (done (take (length a + 1) s)) (expansion_at global env path d (length s) t))
          (drop-past a (b'$' ∷ b'$' ∷ b) 2)
      ∙ ap (λ t. then (done (take (length a + 1) s)) t) rest
      ∙ ap (λ t. then (done t) (expansion_at global env path d (suc (length b)) b))
          (take-past a (b'$' ∷ b'$' ∷ b) 1)

  -- A variable whose value begins with the variable itself is refused at any depth.
  pub expansion_cycle :
      (d : ℕ) (name b : Bytes)
      → Lacks b'}' name
      → lookup global env name ≡ some (with_variable [] name b)
      → expansion global env path d (with_variable [] name b) ≡ stopped [] (too_deep path)
  unfolding expansion expansion_at scan
  expansion_cycle zero name b hn l = refl
  expansion_cycle (suc d) name b hn l =
      expansion-variable d [] name (with_variable [] name b) b tt hn l
      ∙ rw (expansion_cycle d name b hn l) refl

  -- A text with no `$` is printed as it is.
  pub expand_free : (s : Bytes) → Lacks b'$' s → expand global env path s ≡ done s
  expand_free s h = expand-expansion global env path s ∙ expansion-free max_depth s h

  -- A bound variable is printed as the meaning of its value, one level further down, between the text
  -- before it and what the text behind it prints.
  pub expand_variable :
      (a name value b : Bytes)
      → Lacks b'$' a
      → Lacks b'}' name
      → lookup global env name ≡ some value
      → expand global env path (with_variable a name b)
        ≡ then (done a) (then (expansion global env path 126 value) (expand global env path b))
  expand_variable a name value b ha hn l =
      expand-expansion global env path (with_variable a name b)
      ∙ expansion-variable 126 a name value b ha hn l
      ∙ ap (λ r. then (done a) (then (expansion global env path 126 value) r))
          (sym (expand-expansion global env path b))

  -- At a variable that is not bound, the text before it is printed and the program ends with the
  -- variable's name and the file's.
  pub expand_undefined :
      (a name b : Bytes)
      → Lacks b'$' a
      → Lacks b'}' name
      → lookup global env name ≡ none
      → expand global env path (with_variable a name b) ≡ stopped a (undefined_variable name path)
  expand_undefined a name b ha hn l =
      expand-expansion global env path (with_variable a name b)
      ∙ expansion-undefined 126 a name b ha hn l

  -- Two dollars print one, between the text before them and what the text behind them prints.
  pub expand_dollar :
      (a b : Bytes)
      → Lacks b'$' a
      → expand global env path (a ++ (b'$' ∷ b'$' ∷ b))
        ≡ then (done (a ++ (b'$' ∷ []))) (expand global env path b)
  expand_dollar a b ha =
      expand-expansion global env path (a ++ (b'$' ∷ b'$' ∷ b))
      ∙ expansion-dollar max_depth a b ha
      ∙ ap (then (done (a ++ (b'$' ∷ [])))) (sym (expand-expansion global env path b))

  -- A variable whose value begins with the variable itself ends the program for its depth.
  pub expand_cycle :
      (name b : Bytes)
      → Lacks b'}' name
      → lookup global env name ≡ some (with_variable [] name b)
      → expand global env path (with_variable [] name b) ≡ stopped [] (too_deep path)
  expand_cycle name b hn l =
      expand-expansion global env path (with_variable [] name b)
      ∙ expansion_cycle max_depth name b hn l
