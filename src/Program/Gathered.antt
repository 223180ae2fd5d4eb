-- ===== src/Program/Gathered.antt =====
-- What is printed for `--cflags` and `--libs`, by the arguments of all fields together.
use u_config.Base.{
  ℕ, Bool, true, false, ◌||◌, [], Bytes, List, ◌==◌, if◌then◌else◌, Result, ok, fail, out_of_fuel,
  ◌>>=◌, ◌≡◌, refl, ap, ◌∙◌, Bool-cases, inl, inr, codes,
}
use u_config.Expand.{Expansion, done}
use u_config.Search.Laws.{components}
use u_config.Load.{Pkg}
use u_config.Settings.{Config, Settings}
use u_config.Args.Positions.{Holds, no_args-Holds}
use u_config.Args.Kept.{kept}
use u_config.Writer.{Filter, FieldWriter, newfieldwriter, insertsyspath, Written, writeargs}
use u_config.Writer.Fields.{append_all, append_all-Holds}
use u_config.Writer.Output.{print_all, delimiter, writeargs-kept}
use u_config.Writer.System.{system_args, insertsyspath-Holds}
use u_config.Program.Fields.{
  gathered, cflags_fields, libs_fields, append_fields, appended, append_fields-gathered,
  appendcflags-append_fields, appendlibs-append_fields,
}
use u_config.Program.{
  next, with_result, fieldwriter, system_paths, cflags_written, libs_written, print_arguments,
}

-- What a writer prints of the arguments that it was given, where it excludes some.
abbrev pub printed_words : Bool → ℕ → List Bytes → ℕ → Result (List Bytes) → Result Written
printed_words msvc delim excluded argcount r = do
  l ← r
  ok (print_all msvc delim (kept excluded [] l) (record { out = []; argcount = argcount }))

writeargs-gathered :
    (w : FieldWriter) (excluded : List Bytes) (argcount : ℕ) (r : Result (List Bytes))
    → Holds excluded [] w.args
    → (appended w r >>= λ w'. ok (writeargs w' argcount))
      ≡ printed_words w.msvc (delimiter w) excluded argcount r
writeargs-gathered w excluded argcount (ok l) h = ap ok (
    writeargs-kept (record w { args = append_all w.args l }) excluded l argcount
      (append_all-Holds excluded [] l w.args h))
writeargs-gathered w excluded argcount (fail e) h = refl
writeargs-gathered w excluded argcount out_of_fuel h = refl

-- The system directories whose arguments are left out.
abbrev pub excluded_of : Bool → Bytes → ℕ → ℕ → List Bytes
excluded_of print path delim flag = if print then [] else system_args flag (components delim path)

system_paths-Holds :
    (print : Bool) (f : Filter) (s : Settings) (path : Bytes) (delim flag : ℕ)
    → Holds
        (excluded_of print path delim flag)
        []
        (system_paths print (fieldwriter f s) path delim flag).args
unfolding system_paths fieldwriter newfieldwriter
system_paths-Holds true f s path delim flag = no_args-Holds
system_paths-Holds false f s path delim flag =
    insertsyspath-Holds (fieldwriter f s) path delim flag no_args-Holds

abbrev pub spaced : ℕ → ℕ
spaced delim = if delim == 0 then b' ' else delim

-- The writer is as it was made, but for its arguments.
system_paths-spaced :
    (print : Bool) (f : Filter) (s : Settings) (path : Bytes) (delim flag : ℕ)
    (excluded : List Bytes) (argcount : ℕ) (fields : List (Bytes × Bytes))
    → let w = system_paths print (fieldwriter f s) path delim flag in
      printed_words w.msvc (delimiter w) excluded argcount (gathered w.filter fields)
      ≡ printed_words s.msvc (spaced s.argdelim) excluded argcount (gathered f fields)
unfolding system_paths fieldwriter newfieldwriter insertsyspath
system_paths-spaced true f s path delim flag excluded argcount fields = refl
system_paths-spaced false f s path delim flag excluded argcount fields = refl

-- What one writer prints of the fields: those of their arguments that pass the filter and are kept.
abbrev pub words_of :
    Config → Settings → Bool → Bytes → ℕ → Filter → ℕ → List (Bytes × Bytes) → Result Written
words_of conf s print path flag f argcount fields =
    printed_words s.msvc (spaced s.argdelim) (excluded_of print path conf.delim flag) argcount
      (gathered f fields)

append_fields-words_of :
    (conf : Config) (s : Settings) (print : Bool) (path : Bytes) (flag : ℕ) (f : Filter)
    (argcount : ℕ) (fields : List (Bytes × Bytes))
    → (append_fields (system_paths print (fieldwriter f s) path conf.delim flag) fields >>= λ w.
        ok (writeargs w argcount))
      ≡ words_of conf s print path flag f argcount fields
append_fields-words_of conf s print path flag f argcount fields =
    let w = system_paths print (fieldwriter f s) path conf.delim flag in
    let excluded = excluded_of print path conf.delim flag in
    ap (λ r. r >>= λ w. ok (writeargs w argcount)) (append_fields-gathered fields w)
    ∙ writeargs-gathered w excluded argcount (gathered w.filter fields)
        (system_paths-Holds print f s path conf.delim flag)
    ∙ system_paths-spaced print f s path conf.delim flag excluded argcount fields

abbrev pub cflags_words : Config → Settings → List Pkg → Result Written
cflags_words conf s pkgs =
    if s.cflags
    then words_of conf s s.print_sysinc conf.sys_incpath b'I' s.filterc 0
        (cflags_fields s.static_ pkgs)
    else ok (record { out = []; argcount = 0 })

abbrev pub libs_words : Config → Settings → List Pkg → ℕ → Result Written
libs_words conf s pkgs argcount =
    if s.libs
    then words_of conf s s.print_syslib conf.sys_libpath b'L' s.filterl argcount
        (libs_fields s.static_ pkgs)
    else ok (record { out = []; argcount = argcount })

cflags_written-words :
    (conf : Config) (s : Settings) (pkgs : List Pkg)
    → cflags_written conf s pkgs ≡ cflags_words conf s pkgs
unfolding cflags_written
cflags_written-words conf s pkgs = elim (Bool-cases s.cflags) [
  | inl e ↦
      let w =
        system_paths s.print_sysinc (fieldwriter s.filterc s) conf.sys_incpath conf.delim b'I' in
      rw e (
        ap (λ r. r >>= λ w. ok (writeargs w 0)) (appendcflags-append_fields s.static_ pkgs w)
        ∙ append_fields-words_of conf s s.print_sysinc conf.sys_incpath b'I' s.filterc 0
            (cflags_fields s.static_ pkgs))
  | inr n ↦ rw n refl
]

libs_written-words :
    (conf : Config) (s : Settings) (pkgs : List Pkg) (argcount : ℕ)
    → libs_written conf s pkgs argcount ≡ libs_words conf s pkgs argcount
unfolding libs_written
libs_written-words conf s pkgs argcount = elim (Bool-cases s.libs) [
  | inl e ↦
      let w =
        system_paths s.print_syslib (fieldwriter s.filterl s) conf.sys_libpath conf.delim b'L' in
      rw e (
        ap (λ r. r >>= λ w. ok (writeargs w argcount)) (appendlibs-append_fields s.static_ pkgs w)
        ∙ append_fields-words_of conf s s.print_syslib conf.sys_libpath b'L' s.filterl argcount
            (libs_fields s.static_ pkgs))
  | inr n ↦ rw n refl
]

-- The arguments of both kinds, and a newline behind them where one kind was asked for.
abbrev pub output : Config → Settings → List Pkg → Expansion
output conf s pkgs = with_result (cflags_words conf s pkgs) λ c. next (done c.out) (
    with_result (libs_words conf s pkgs c.argcount)
      λ l. next (done l.out) (if s.cflags || s.libs then done (codes "\n") else done []))

pub with_result_same {ℓ} :
    {A : Type ℓ} (r : Result A) (k k' : A → Expansion)
    → ((x : A) → k x ≡ k' x)
    → with_result r k ≡ with_result r k'
with_result_same (ok x) k k' h = h x
with_result_same (fail e) k k' h = refl
with_result_same out_of_fuel k k' h = refl

-- For `--cflags` and `--libs`: the fields of the packages are read in the order of the packages, Cflags
-- before its private part and Libs before its, the private parts only with `--static`, and without it
-- Libs only of packages that are required in public. Of their arguments, in order, those that pass the
-- filter are gathered. What is printed are the gathered arguments that are kept: each library where it
-- stands last, other arguments that may be given once where they stand first, and no argument for a
-- nonempty component of the system path, unless these are asked for. They stand behind one another with
-- the delimiter, or a space, and a newline behind all; or the program stops at the first field with an
-- open quote.
pub print_arguments-output :
    (conf : Config) (s : Settings) (pkgs : List Pkg)
    → print_arguments conf s pkgs ≡ output conf s pkgs
unfolding print_arguments
print_arguments-output conf s pkgs =
    ap
      (λ r. with_result r λ c. next (done c.out) (
        with_result (libs_written conf s pkgs c.argcount)
          λ l. next (done l.out) (if s.cflags || s.libs then done (codes "\n") else done [])))
      (cflags_written-words conf s pkgs)
    ∙ with_result_same (cflags_words conf s pkgs) _ _ λ c.
      ap
        (λ r. next (done c.out) (
          with_result r
            λ l. next (done l.out) (if s.cflags || s.libs then done (codes "\n") else done [])))
        (libs_written-words conf s pkgs c.argcount)
