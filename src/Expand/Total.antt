-- ===== src/Expand/Total.antt =====
-- `expand` always has a result.
use u_config.Base.{ℕ, zero, suc, ◌+◌, Bytes, length, ◌≢◌, refl, Option-cases, inl, inr}
use u_config.S8.{cuthead}
use u_config.Env.{Env, lookup}
use u_config.Expand
use u_config.Expand.{Expansion, done, stopped, scan, after_name, name_at}
use u_config.Expand.Spec.{then, expansion_at}
use u_config.Expand.Machine.{Found-cases, expand, expansion, expand-expansion, max_depth}

then-ne-out_of_fuel :
    (m k : Expansion)
    → m ≢ Expand.out_of_fuel
    → k ≢ Expand.out_of_fuel
    → then m k ≢ Expand.out_of_fuel
then-ne-out_of_fuel (done a) (done b) h g = λ e. cc
then-ne-out_of_fuel (done a) (stopped b x) h g = λ e. cc
then-ne-out_of_fuel (done a) Expand.out_of_fuel h g = λ e. g refl
then-ne-out_of_fuel (stopped a x) k h g = λ e. cc
then-ne-out_of_fuel Expand.out_of_fuel k h g = λ e. h refl

done-ne-out_of_fuel : (a : Bytes) → done a ≢ Expand.out_of_fuel
done-ne-out_of_fuel a e = cc

stopped-ne-out_of_fuel : (a x : Bytes) → stopped a x ≢ Expand.out_of_fuel
stopped-ne-out_of_fuel a x e = cc

module _ (global env : Env) (path : Bytes) where
  expansion_at-ne-out_of_fuel :
      (d n : ℕ) (s : Bytes) → expansion_at global env path d n s ≢ Expand.out_of_fuel
  unfolding expansion_at
  expansion_at-ne-out_of_fuel d zero s = λ e. cc
  expansion_at-ne-out_of_fuel zero (suc n) s = elim (Found-cases (scan 0 s)) [
    | inl e ↦ rw (e, expansion_at) (done-ne-out_of_fuel _)
    | inr (inl (i, e)) ↦ rw (e, expansion_at) (stopped-ne-out_of_fuel _ _)
    | inr (inr (i, e)) ↦
        rw (e, expansion_at)
          (then-ne-out_of_fuel _ _ (done-ne-out_of_fuel _)
            (expansion_at-ne-out_of_fuel zero n (cuthead s (i + 2))))
  ]
  expansion_at-ne-out_of_fuel (suc d) (suc n) s = elim (Found-cases (scan 0 s)) [
    | inl e ↦ rw (e, expansion_at) (done-ne-out_of_fuel _)
    | inr (inl (i, e)) ↦ elim (Option-cases (lookup global env (name_at s (i + 2)))) [
      | inl l ↦ rw (e, expansion_at) (rw (l, expansion_at) (λ q. cc))
      | inr (value, l) ↦
          rw (e, expansion_at)
            (rw (l, expansion_at)
              (then-ne-out_of_fuel _ _ (done-ne-out_of_fuel _) (
                then-ne-out_of_fuel _ _ (expansion_at-ne-out_of_fuel d (suc (length value)) value)
                  (expansion_at-ne-out_of_fuel (suc d) n (cuthead s (after_name s (i + 2)))))))
    ]
    | inr (inr (i, e)) ↦
        rw (e, expansion_at)
          (then-ne-out_of_fuel _ _ (done-ne-out_of_fuel _)
            (expansion_at-ne-out_of_fuel (suc d) n (cuthead s (i + 2))))
  ]

  pub expand-ne-out_of_fuel : (str : Bytes) → expand global env path str ≢ Expand.out_of_fuel
  unfolding expansion
  expand-ne-out_of_fuel str =
      rw (expand-expansion global env path str)
        (expansion_at-ne-out_of_fuel max_depth (suc (length str)) str)
