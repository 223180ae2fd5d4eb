-- ===== src/Options.antt =====
-- Command line options of src/u-config.c: `nextoption`, `getargopt` and `parseuint`.
pub mod Laws
use u_config.Base.{
  ℕ, zero, suc, ◌+◌, ◌-◌, ◌*◌, Bool, true, false, not, ◌&&◌, ◌||◌, [], ◌∷◌, ◌++◌, Bytes, List, ltb,
  leb, ◌==◌, if◌then◌else◌, codes, length, Option, none, some, Result, ok, fail, out_of_fuel,
}
use u_config.S8.{digit, s8equals, cuthead, Cut, s8cut}
use u_config.Args.{byte_is}

-- `args` is what is left of the arguments from `index` on.
pub record Options : Type 0 where
  pub args : List Bytes
  pub dashdash : Bool

unfoldable pub newoptions : List Bytes → Options
newoptions args = record { args = args; dashdash = false }

-- A result that is `ok`; a value that is a null pointer is `none`.
pub record Optresult : Type 0 where
  pub arg : Bytes
  pub value : Option Bytes
  pub isoption : Bool

-- The options that are left, with the result, `none` for one that is not `ok`.
pub record Next : Type 0 where
  pub options : Options
  pub result : Option Optresult

unfoldable pub option_value : Cut → Bytes → Optresult
option_value c arg =
    if c.ok
    then record { arg = c.head; value = some c.tail; isoption = true }
    else record { arg = arg; value = none; isoption = true }

unfoldable pub option_of : Bytes → Optresult
unfolding option_value s8cut cuthead
option_of arg = let name = cuthead arg 1 in option_value (s8cut name b'=') name

-- `for (;;)`: a round that goes on takes the argument `--`.
unfoldable pub next_loop : Bool → List Bytes → Next
unfolding option_of byte_is s8equals
next_loop dashdash [] = record {
  options = record { args = []; dashdash = dashdash };
  result = none;
}
next_loop dashdash (arg ∷ args) =
    let rest = next_loop true args in
    let left : Options = record { args = args; dashdash = dashdash } in
    if dashdash || ltb (length arg) 2 || not (byte_is arg 0 b'-')
    then record {
      options = left;
      result = some (record { arg = arg; value = none; isoption = false });
    }
    else if not dashdash && s8equals arg (codes "--")
    then rest
    else record { options = left; result = some (option_of arg) }

unfoldable pub nextoption : Options → Next
unfolding next_loop
nextoption p = next_loop p.dashdash p.args

unfoldable pub missing : Bytes → Bytes
missing option = codes "pkg-config: " ++ (codes "argument missing for -" ++ (option ++ codes "\n"))

-- The value of an option that is the next argument, and the options behind it.
pub record Argument : Type 0 where
  pub value : Bytes
  pub options : Options

unfoldable pub getargopt_in : List Bytes → Bool → Bytes → Result Argument
unfolding missing
getargopt_in [] dashdash option = fail (missing option)
getargopt_in (arg ∷ args) dashdash option =
    ok (record { value = arg; options = record { args = args; dashdash = dashdash } })

unfoldable pub getargopt : Options → Bytes → Result Argument
unfolding getargopt_in
getargopt p option = getargopt_in p.args p.dashdash option

-- `for (options opts = newoptions(...);;)` of `uconfig`, as the list of the results; every round
-- takes an argument, so that their number is enough fuel.
unfoldable pub results : ℕ → Options → List Optresult
unfolding nextoption
results zero p = []
results (suc f) p =
    let n = nextoption p in elim n.result [ none ↦ [] | some r ↦ r ∷ results f n.options ]

-- The value stays below `hi`, which is 1000 where it is called, until the loop ends.
unfoldable pub parseuint_loop : ℕ → Bytes → ℕ → ℕ
unfolding digit
parseuint_loop v [] hi = v
parseuint_loop v (c ∷ s) hi =
    let v' = v * 10 + (c - b'0') in
    let more = parseuint_loop v' s hi in
    let skip = parseuint_loop v s hi in if digit c then (if leb hi v' then hi else more) else skip

unfoldable pub parseuint : Bytes → ℕ → ℕ
unfolding parseuint_loop
parseuint s hi = parseuint_loop 0 s hi
