-- ===== src/Writer.antt =====
-- The field writer of src/u-config.c: the arguments of the fields are gathered, and written with the
-- repeated ones left out.
pub mod Fields
pub mod Output
pub mod System
use u_config.Base.{
  ℕ, suc, zero, ◌+◌, Bool, true, false, not, ◌&&◌, ◌||◌, [], ◌∷◌, ◌++◌, Bytes, List, ltb, ◌==◌,
  if◌then◌else◌, codes, Option, none, some, length, Result, ok, fail, out_of_fuel,
}
use u_config.S8.{s8equals, startswith, cuthead, s8cut}
use u_config.Encode.{s8pathencode}
use u_config.Dequote.{Dequoted, dequote}
use u_config.Args.{Args, no_args, appendarg, excludearg, inposition}

pub data Filter : Type 0 where
  any only_i only_L only_l other_c other_l : Filter

unfoldable pub filterok : Filter → Bytes → Bool
unfolding startswith
filterok any arg = true
filterok only_i arg = startswith arg (codes "-I")
filterok only_L arg = startswith arg (codes "-L")
filterok only_l arg = startswith arg (codes "-l")
filterok other_c arg = not (startswith arg (codes "-I"))
filterok other_l arg = not (startswith arg (codes "-L")) && not (startswith arg (codes "-l"))

unfoldable pub msvcize : Bytes → Bytes
unfolding startswith cuthead s8equals
msvcize arg =
    if startswith arg (codes "-L")
    then codes "/libpath:" ++ cuthead arg 2
    else if startswith arg (codes "-I")
    then codes "/I" ++ cuthead arg 2
    else if startswith arg (codes "-l")
    then cuthead arg 2 ++ codes ".lib"
    else if startswith arg (codes "-D")
    then codes "/D" ++ cuthead arg 2
    else if s8equals arg (codes "-mwindows")
    then codes "/subsystem:windows"
    else if s8equals arg (codes "-mconsole")
    then codes "/subsystem:console"
    else arg

-- `argcount` is shared by two writers and stands beside them.
pub record FieldWriter : Type 0 where
  pub args : Args
  pub filter : Filter
  pub msvc : Bool
  pub delim : ℕ

unfoldable pub newfieldwriter : Filter → FieldWriter
newfieldwriter f = record { args = no_args; filter = f; msvc = false; delim = 0 }

-- The argument that a system directory is printed as, if it is one whole argument.
unfoldable pub whole_argument : Option Dequoted → Option Bytes
whole_argument none = none
whole_argument (some r) = elim r.tail [ [] ↦ some r.arg | _ ∷ _ ↦ none ]

unfoldable pub exclude_whole : Args → Option Bytes → Args
unfolding excludearg
exclude_whole args none = args
exclude_whole args (some arg) = excludearg args arg

unfoldable pub exclude_dir : ℕ → Args → Bytes → Args
unfolding exclude_whole whole_argument s8pathencode dequote
exclude_dir flag args [] = args
exclude_dir flag args (x ∷ dir) =
    exclude_whole args (whole_argument (dequote (b'-' ∷ flag ∷ s8pathencode (x ∷ dir))))

unfoldable pub insertsyspath_loop : ℕ → Args → Bytes → ℕ → ℕ → Args
unfolding exclude_dir s8cut
insertsyspath_loop zero args path delim flag = args
insertsyspath_loop (suc f) args [] delim flag = args
insertsyspath_loop (suc f) args (x ∷ path) delim flag =
    let c = s8cut (x ∷ path) delim in
    insertsyspath_loop f (exclude_dir flag args c.head) c.tail delim flag

unfoldable pub insertsyspath : FieldWriter → Bytes → ℕ → ℕ → FieldWriter
unfolding insertsyspath_loop
insertsyspath w path delim flag = record w {
  args = insertsyspath_loop (length path) w.args path delim flag;
}

unfoldable pub unmatched_quote : Bytes → Bytes
unmatched_quote realname =
    codes "pkg-config: " ++ (codes "unmatched quote in '" ++ (realname ++ codes "'\n"))

-- `while (field.len)`: each round reads an argument off.
unfoldable pub appendfield_loop : ℕ → Filter → Bytes → Args → Bytes → Result Args
unfolding dequote filterok appendarg
appendfield_loop f filter realname args [] = ok args
appendfield_loop zero filter realname args (x ∷ field) = out_of_fuel
appendfield_loop (suc f) filter realname args (x ∷ field) = elim (dequote (x ∷ field)) [
  | none ↦ fail (unmatched_quote realname)
  | some r ↦
      appendfield_loop f filter realname
        (if filterok filter r.arg then appendarg args r.arg else args) r.tail
]

unfoldable pub with_args : FieldWriter → Result Args → Result FieldWriter
with_args w (ok args) = ok (record w { args = args })
with_args w (fail e) = fail e
with_args w out_of_fuel = out_of_fuel

unfoldable pub appendfield : FieldWriter → Bytes → Bytes → Result FieldWriter
unfolding appendfield_loop with_args
appendfield w realname field =
    with_args w (appendfield_loop (length field) w.filter realname w.args field)

-- What the loop prints, with the number of arguments printed so far.
unfoldable pub print_arg : Bool → ℕ → ℕ → Bytes → Bytes
unfolding msvcize
print_arg msvc delim argcount arg =
    (if argcount == 0 then [] else delim ∷ []) ++ (if msvc then msvcize arg else arg)

pub record Written : Type 0 where
  pub out : Bytes
  pub argcount : ℕ

unfoldable pub writeargs_loop : Args → Bool → ℕ → ℕ → List Bytes → Written → Written
unfolding inposition print_arg
writeargs_loop args msvc delim position [] w = w
writeargs_loop args msvc delim position (arg ∷ list) w =
    writeargs_loop args msvc delim (position + 1) list (
      if inposition args arg position
      then record { out = w.out ++ print_arg msvc delim w.argcount arg; argcount = w.argcount + 1 }
      else w)

unfoldable pub writeargs : FieldWriter → ℕ → Written
unfolding writeargs_loop
writeargs w argcount =
    let delim = if w.delim == 0 then b' ' else w.delim in
    writeargs_loop w.args w.msvc delim 0 w.args.list (record { out = []; argcount = argcount })
