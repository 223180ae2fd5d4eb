-- ===== src/Writer/Output.antt =====
-- `writeargs` prints the kept arguments, as the specification by the list alone has them.
use u_config.Base.{
  ℕ, ◌+◌, Bool, [], ◌∷◌, ◌++◌, Bytes, List, ◌≡◌, refl, arith, if◌then◌else◌, length, length-append,
  Bool-cases, inl, inr, ◌==◌, append_assoc,
}
use u_config.Args.{Args}
use u_config.Args.Positions.{Holds}
use u_config.Args.Kept.{kept, keeps, inposition-keeps}
use u_config.Writer.{FieldWriter, print_arg, Written, writeargs_loop, writeargs}

-- The arguments, each but the first of all behind a delimiter.
abbrev pub print_all : Bool → ℕ → List Bytes → Written → Written
print_all msvc delim [] w = w
print_all msvc delim (arg ∷ list) w =
    print_all msvc delim list
      (record { out = w.out ++ print_arg msvc delim w.argcount arg; argcount = w.argcount + 1 })

writeargs_loop-kept :
    (excluded seen list : List Bytes) (args : Args) (msvc : Bool) (delim : ℕ) (w : Written)
    → Holds excluded (seen ++ list) args
    → writeargs_loop args msvc delim (length seen) list w
      ≡ print_all msvc delim (kept excluded seen list) w
unfolding writeargs_loop kept
writeargs_loop-kept excluded seen [] args msvc delim w h = refl
writeargs_loop-kept excluded seen (arg ∷ list) args msvc delim w h =
    let next : length seen + 1 ≡ length (seen ++ (arg ∷ [])) =
      omega (arith, length-append seen (arg ∷ [])) in
    let later : Holds excluded ((seen ++ (arg ∷ [])) ++ list) args = rw append_assoc h in
    let printed : Written = record {
      out = w.out ++ print_arg msvc delim w.argcount arg;
      argcount = w.argcount + 1;
    } in
    let ih = writeargs_loop-kept excluded (seen ++ (arg ∷ [])) list args msvc delim in
    rw (inposition-keeps excluded seen list arg args h, next)
      (elim (Bool-cases (keeps excluded seen arg list)) [
        | inl k ↦ rw k (ih printed later)
        | inr k ↦ rw k (ih w later)
      ])

-- The loop's delimiter: a space unless the writer has one.
abbrev pub delimiter : FieldWriter → ℕ
delimiter w = if w.delim == 0 then b' ' else w.delim

-- A writer that was told to leave `excluded` out, and then gathered the arguments `list`, prints
-- those of `list` that are kept.
pub writeargs-kept :
    (w : FieldWriter) (excluded list : List Bytes) (argcount : ℕ)
    → Holds excluded list w.args
    → writeargs w argcount
      ≡ print_all w.msvc
          (delimiter w)
          (kept excluded [] list)
          (record { out = []; argcount = argcount })
unfolding writeargs
writeargs-kept w excluded list argcount h =
    rw h.list (writeargs_loop-kept excluded [] list w.args w.msvc (delimiter w) _ h)
