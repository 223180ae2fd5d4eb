-- ===== src/Expand/Spec.antt =====
-- The meaning of a string with variables, by recursion: a variable stands for the meaning of its
-- value, to a depth of `d`.
use u_config.Base.{ℕ, zero, suc, ◌+◌, [], ◌++◌, Bytes, length, none, some}
use u_config.S8.{takehead, cuthead}
use u_config.Env.{Env, lookup}
use u_config.Expand.{
  Expansion, done, stopped, out_of_fuel, nothing, variable, dollar, scan, after_name, name_at,
  too_deep, undefined_variable,
}

-- One text behind another, where the first was printed whole.
abbrev pub then : Expansion → Expansion → Expansion
then (done a) (done b) = done (a ++ b)
then (done a) (stopped b e) = stopped (a ++ b) e
then (done a) out_of_fuel = out_of_fuel
then (stopped a e) k = stopped a e
then out_of_fuel k = out_of_fuel

module _ (global env : Env) (path : Bytes) where
  -- `n` is above the length of `s`; the recursion is on `d`, and on `n` where `d` is kept.
  unfoldable pub expansion_at : ℕ → ℕ → Bytes → Expansion
  expansion_at d zero s = done []
  expansion_at zero (suc n) s = elim (scan 0 s) [
    | nothing ↦ done s
    | variable i ↦ stopped [] (too_deep path)
    | dollar i ↦ then (done (takehead s (i + 1))) (expansion_at zero n (cuthead s (i + 2)))
  ]
  expansion_at (suc d) (suc n) s = elim (scan 0 s) [
    | nothing ↦ done s
    | variable i ↦ then (done (takehead s i)) (elim (lookup global env (name_at s (i + 2))) [
      | none ↦ stopped [] (undefined_variable (name_at s (i + 2)) path)
      | some value ↦
          then (expansion_at d (suc (length value)) value)
            (expansion_at (suc d) n (cuthead s (after_name s (i + 2))))
    ])
    | dollar i ↦ then (done (takehead s (i + 1))) (expansion_at (suc d) n (cuthead s (i + 2)))
  ]

  -- The rounds that the stack machine takes for it.
  unfoldable pub rounds_at : ℕ → ℕ → Bytes → ℕ
  rounds_at d zero s = 1
  rounds_at zero (suc n) s = elim (scan 0 s) [
    | nothing ↦ 1
    | variable i ↦ 1
    | dollar i ↦ suc (rounds_at zero n (cuthead s (i + 2)))
  ]
  rounds_at (suc d) (suc n) s = elim (scan 0 s) [
    | nothing ↦ 1
    | variable i ↦ elim (lookup global env (name_at s (i + 2))) [
      | none ↦ 1
      | some value ↦ suc (
          rounds_at d (suc (length value)) value
          + rounds_at (suc d) n (cuthead s (after_name s (i + 2))))
    ]
    | dollar i ↦ suc (rounds_at (suc d) n (cuthead s (i + 2)))
  ]
