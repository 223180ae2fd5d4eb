-- ===== src/Expand.antt =====
-- `expand` of src/u-config.c: the variables of a string are replaced, with a stack of strings.
pub mod Spec
pub mod Machine
pub mod Names
pub mod Laws
pub mod Total
use u_config.Base.{
  ℕ, zero, suc, ◌+◌, ◌-◌, Bool, true, false, not, ◌&&◌, [], ◌∷◌, ◌++◌, Bytes, List, ltb, leb, ◌==◌,
  if◌then◌else◌, length, take, drop, codes, Option, none, some,
}
use u_config.S8.{prefix_len, takehead, cuthead}
use u_config.Env.{Env, lookup}

-- What `expand` has printed to its output, and the text of the error that ended the program.
pub data Expansion : Type 0 where
  done : Bytes → Expansion
  stopped : Bytes → Bytes → Expansion
  out_of_fuel : Expansion

-- The first `${` or `$$` of a string, with its index.
pub data Found : Type 0 where
  nothing : Found
  variable : ℕ → Found
  dollar : ℕ → Found

unfoldable pub scan : ℕ → Bytes → Found
scan i (c ∷ d ∷ s) =
    let rest = scan (i + 1) (d ∷ s) in
    if c == b'$' && d == b'{' then variable i else if c == b'$' && d == b'$' then dollar i else rest
scan i _ = nothing

-- The length of the name that begins at `beg`, and where the text behind it begins.
unfoldable pub name_len : Bytes → ℕ → ℕ
unfolding prefix_len
name_len s beg = prefix_len (λ c. not (c == b'}')) (drop beg s)

unfoldable pub after_name : Bytes → ℕ → ℕ
unfolding name_len
after_name s beg = let end = beg + name_len s beg in if ltb end (length s) then end + 1 else end

unfoldable pub name_at : Bytes → ℕ → Bytes
unfolding name_len
name_at s beg = take (name_len s beg) (drop beg s)

unfoldable pub too_deep : Bytes → Bytes
too_deep path =
    codes "pkg-config: " ++ (codes "exceeded max recursion depth in '" ++ (path ++ codes "'\n"))

unfoldable pub undefined_variable : Bytes → Bytes → Bytes
undefined_variable name path =
    codes "pkg-config: "
    ++ (codes "undefined variable '" ++ (name ++ (codes "' in '" ++ (path ++ codes "'\n"))))

-- `countof(stack)`
abbrev pub stack_cap : ℕ
stack_cap = 128

module _ (global env : Env) (path : Bytes) where
  -- A round pops `s`; `stack` is what is below it, so `top` is its length less one. A string that is
  -- popped is printed, or it is cut at a variable, whose tail and value are pushed.
  unfoldable pub expand_loop : ℕ → Bytes → List Bytes → Expansion
  expand_loop f out [] = done out
  expand_loop zero out (s ∷ stack) = out_of_fuel
  expand_loop (suc f) out (s ∷ stack) = elim (scan 0 s) [
    | nothing ↦ expand_loop f (out ++ s) stack
    | variable i ↦
        let out' = out ++ takehead s i in
        let tail = cuthead s (after_name s (i + 2)) in
        let name = name_at s (i + 2) in
        let next : Expansion = elim (lookup global env name) [
          | none ↦ stopped out' (undefined_variable name path)
          | some value ↦ expand_loop f out' (value ∷ tail ∷ stack)
        ] in
        if leb (stack_cap - 1) (length stack) then stopped out (too_deep path) else next
    | dollar i ↦ expand_loop f (out ++ takehead s (i + 1)) (cuthead s (i + 2) ∷ stack)
  ]
