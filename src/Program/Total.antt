-- ===== src/Program/Total.antt =====
-- The phases of `uconfig` end, as `expand`, `appendfield` and the parsers do.
use u_config.Base.{
  ℕ, ◌-◌, Bool, true, false, ◌||◌, [], ◌∷◌, ◌++◌, Bytes, List, length, if◌then◌else◌, ◌≢◌, refl,
  arith, Option, none, some, Bool-cases, inl, inr, Result, ok, fail, out_of_fuel,
  >>=-ne-out_of_fuel, codes,
}
use u_config.Env.{Env}
use u_config.Version.{Op}
use u_config.Expand
use u_config.Expand.{Expansion, done, stopped}
use u_config.Expand.Total.{expand-ne-out_of_fuel}
use u_config.Package.{Parsed, ParseResult, parse_ok, dupfield, dupvariable}
use u_config.Package.Total.{parsepackage-ne-out_of_fuel}
use u_config.Writer.{FieldWriter, with_args, appendfield}
use u_config.Writer.Fields.{outcome, arguments, appendfield-outcome}
use u_config.Load.{Filemap, found, not_found, read_error, Pkg, text_of}
use u_config.Process.{Pkgs}
use u_config.Settings.{Config, Settings}
use u_config.Program.{
  next, with_result, check_override, print_value, print_variable, appendcflags, appendlibs_of,
  appendlibs, cflags_written, libs_written, print_arguments, print_version, print_asked,
  print_packages, checked_packages, packages,
}
use u_config.Program.Listing.{spaces, list_package, list_parsed, list_mapped}

-- A phase that has a result.
abbrev pub Ends : Expansion → Type 0
Ends e = e ≢ Expand.out_of_fuel

pub next-Ends : (m k : Expansion) → Ends m → Ends k → Ends (next m k)
next-Ends (done a) (done b) h g = λ e. cc
next-Ends (done a) (stopped b x) h g = λ e. cc
next-Ends (done a) Expand.out_of_fuel h g = λ e. g refl
next-Ends (stopped a x) k h g = λ e. cc
next-Ends Expand.out_of_fuel k h g = λ e. h refl

pub with_result-Ends {ℓ} :
    {A : Type ℓ} (r : Result A) (k : A → Expansion)
    → r ≢ out_of_fuel
    → ((a : A) → Ends (k a))
    → Ends (with_result r k)
with_result-Ends (ok a) k h g = g a
with_result-Ends (fail e) k h g = λ q. cc
with_result-Ends out_of_fuel k h g = λ q. h refl

pub done-Ends : (a : Bytes) → Ends (done a)
done-Ends a e = cc

pub check_override-Ends :
    (o : Option Op) (want : Bytes) (pkgs : List Pkg) → Ends (check_override o want pkgs)
unfolding check_override
check_override-Ends none want pkgs = done-Ends []
check_override-Ends (some op) want [] = done-Ends []
check_override-Ends (some op) want (p ∷ pkgs) =
    let rest = check_override-Ends (some op) want pkgs in ground arith

pub print_value-Ends : (global : Env) (p : Pkg) (v : Option Bytes) → Ends (print_value global p v)
unfolding print_value
print_value-Ends global p none = done-Ends []
print_value-Ends global p (some value) =
    next-Ends _ _ (expand-ne-out_of_fuel global p.env p.path value) (done-Ends _)

pub print_variable-Ends :
    (global : Env) (variable : Bytes) (pkgs : List Pkg) → Ends (print_variable global variable pkgs)
unfolding print_variable
print_variable-Ends global variable [] = done-Ends []
print_variable-Ends global variable (p ∷ pkgs) = elim (Bool-cases p.flags.direct) [
  | inl e ↦
      rw e (next-Ends _ _ (print_value-Ends global p _) (print_variable-Ends global variable pkgs))
  | inr n ↦ rw n (print_variable-Ends global variable pkgs)
]

pub with_args-ne-out_of_fuel :
    (w : FieldWriter) (realname : Bytes) (o : Option (List Bytes))
    → with_args w (outcome w.filter realname w.args o) ≢ out_of_fuel
unfolding with_args
with_args-ne-out_of_fuel w realname none = λ e. cc
with_args-ne-out_of_fuel w realname (some as_) = λ e. cc

pub appendfield-ne-out_of_fuel :
    (w : FieldWriter) (realname field : Bytes) → appendfield w realname field ≢ out_of_fuel
appendfield-ne-out_of_fuel w realname field =
    rw (appendfield-outcome w realname field)
      (with_args-ne-out_of_fuel w realname (arguments field))

pub ok-ne-out_of_fuel {ℓ} : {A : Type ℓ} (a : A) → ok a ≢ out_of_fuel
ok-ne-out_of_fuel a e = cc

pub appendcflags-ne-out_of_fuel :
    (static_ : Bool) (w : FieldWriter) (pkgs : List Pkg) → appendcflags static_ w pkgs ≢ out_of_fuel
unfolding appendcflags
appendcflags-ne-out_of_fuel static_ w [] = ok-ne-out_of_fuel w
appendcflags-ne-out_of_fuel true w (p ∷ pkgs) =
    >>=-ne-out_of_fuel _ _ (appendfield-ne-out_of_fuel w p.realname (text_of p.fields.cflags))
      λ w' e.
        >>=-ne-out_of_fuel _ _
          (appendfield-ne-out_of_fuel w' p.realname (text_of p.fields.cflags_private))
          λ w'' e'. appendcflags-ne-out_of_fuel true w'' pkgs
appendcflags-ne-out_of_fuel false w (p ∷ pkgs) =
    >>=-ne-out_of_fuel _ _ (appendfield-ne-out_of_fuel w p.realname (text_of p.fields.cflags))
      λ w' e. appendcflags-ne-out_of_fuel false w' pkgs

pub appendlibs_of-ne-out_of_fuel :
    (static_ : Bool) (w : FieldWriter) (p : Pkg) → appendlibs_of static_ w p ≢ out_of_fuel
unfolding appendlibs_of
appendlibs_of-ne-out_of_fuel true w p =
    >>=-ne-out_of_fuel _ _ (appendfield-ne-out_of_fuel w p.realname (text_of p.fields.libs))
      λ w' e. appendfield-ne-out_of_fuel w' p.realname (text_of p.fields.libs_private)
appendlibs_of-ne-out_of_fuel false w p =
    let h = appendfield-ne-out_of_fuel w p.realname (text_of p.fields.libs) in ground arith

pub appendlibs-ne-out_of_fuel :
    (static_ : Bool) (w : FieldWriter) (pkgs : List Pkg) → appendlibs static_ w pkgs ≢ out_of_fuel
unfolding appendlibs
appendlibs-ne-out_of_fuel static_ w [] = ok-ne-out_of_fuel w
appendlibs-ne-out_of_fuel static_ w (p ∷ pkgs) =
    >>=-ne-out_of_fuel _ _ (appendlibs_of-ne-out_of_fuel static_ w p)
      λ w' e. appendlibs-ne-out_of_fuel static_ w' pkgs

pub cflags_written-ne-out_of_fuel :
    (conf : Config) (s : Settings) (pkgs : List Pkg) → cflags_written conf s pkgs ≢ out_of_fuel
unfolding cflags_written
cflags_written-ne-out_of_fuel conf s pkgs = elim (Bool-cases s.cflags) [
  | inr n ↦ rw n (ok-ne-out_of_fuel _)
  | inl e ↦ rw e (
      >>=-ne-out_of_fuel _ _ (appendcflags-ne-out_of_fuel s.static_ _ pkgs)
        λ w e. ok-ne-out_of_fuel _)
]

pub libs_written-ne-out_of_fuel :
    (conf : Config) (s : Settings) (pkgs : List Pkg) (n : ℕ)
    → libs_written conf s pkgs n ≢ out_of_fuel
unfolding libs_written
libs_written-ne-out_of_fuel conf s pkgs n = elim (Bool-cases s.libs) [
  | inr h ↦ rw h (ok-ne-out_of_fuel _)
  | inl e ↦ rw e (
      >>=-ne-out_of_fuel _ _ (appendlibs-ne-out_of_fuel s.static_ _ pkgs)
        λ w e. ok-ne-out_of_fuel _)
]

pub last_newline-Ends : (b : Bool) → Ends (if b then done (codes "\n") else done [])
last_newline-Ends true = done-Ends _
last_newline-Ends false = done-Ends _

pub print_version-Ends : (s : Settings) (pkgs : List Pkg) → Ends (print_version s pkgs)
unfolding print_version
print_version-Ends s pkgs = ground arith

pub print_asked-Ends :
    (s : Settings) (v : Option Bytes) (pkgs : List Pkg) → Ends (print_asked s v pkgs)
unfolding print_asked
print_asked-Ends s none pkgs = done-Ends []
print_asked-Ends s (some v) pkgs = print_variable-Ends s.global v pkgs

pub print_packages-Ends :
    (conf : Config) (s : Settings) (pkgs : List Pkg) → Ends (print_packages conf s pkgs)
unfolding print_packages print_arguments
print_packages-Ends conf s pkgs =
    next-Ends _ _ (check_override-Ends s.override_op s.override_version pkgs) (
      next-Ends _ _ (print_version-Ends s pkgs) (
        next-Ends _ _ (print_asked-Ends s s.variable pkgs) (
          with_result-Ends (cflags_written conf s pkgs) _
            (cflags_written-ne-out_of_fuel conf s pkgs)
            λ c. next-Ends (done c.out) _ (done-Ends c.out) (
              with_result-Ends (libs_written conf s pkgs c.argcount) _
                (libs_written-ne-out_of_fuel conf s pkgs c.argcount)
                λ l.
                  next-Ends (done l.out) _ (done-Ends l.out)
                    (last_newline-Ends (s.cflags || s.libs))))))

pub checked_packages-Ends :
    (conf : Config) (s : Settings) (t : Pkgs) → Ends (checked_packages conf s t)
unfolding checked_packages
checked_packages-Ends conf s t = let rest = print_packages-Ends conf s (packages t) in ground arith

-- The listing.
pub list_package-Ends :
    (g : Env) (all : Bool) (name : Bytes) (r : Parsed) → Ends (list_package g all name r)
unfolding list_package
list_package-Ends g false name r = done-Ends _
list_package-Ends g true name r =
    next-Ends _ _ (done-Ends (name ++ (spaces (30 - length name) ++ codes " "))) (
      next-Ends _ _ (expand-ne-out_of_fuel g r.env [] _) (
        next-Ends _ _ (done-Ends (codes " - "))
          (next-Ends _ _ (expand-ne-out_of_fuel g r.env [] _) (done-Ends _))))

pub list_parsed-Ends :
    (g : Env) (all : Bool) (name : Bytes) (r : ParseResult)
    → r ≢ ParseResult.out_of_fuel
    → Ends (list_parsed g all name r)
unfolding list_parsed
list_parsed-Ends g all name (parse_ok r) h = list_package-Ends g all name r
list_parsed-Ends g all name (dupfield key) h = done-Ends []
list_parsed-Ends g all name (dupvariable key) h = done-Ends []
list_parsed-Ends g all name ParseResult.out_of_fuel h = λ e. h refl

pub list_mapped-Ends :
    (g : Env) (all : Bool) (name : Bytes) (m : Filemap) → Ends (list_mapped g all name m)
unfolding list_mapped
list_mapped-Ends g all name (found c) =
    list_parsed-Ends g all name _ (parsepackage-ne-out_of_fuel c)
list_mapped-Ends g all name not_found = done-Ends []
list_mapped-Ends g all name read_error = done-Ends []
