-- ===== src/Program/Exit/Printed.antt =====
-- What is printed where the compiler arguments are asked for.
use u_config.Base.{
  ℕ, suc, Bool, true, false, [], ◌∷◌, Bytes, List, length, ◌==◌, if◌then◌else◌, ◌≡◌, refl, ap, ◌∙◌,
  arith, none, Bool-cases, inl, inr, codes,
}
use u_config.Writer.{any}
use u_config.Load.{Filemap}
use u_config.Spec.{parsespecs}
use u_config.Process.{Pkgs, process}
use u_config.Options.{nextoption, next_loop, newoptions}
use u_config.Settings.{Config, Settings, start, options_loop, apply}
use u_config.Settings.Total.{go_on, options_loop-next}
use u_config.Expand
use u_config.Expand.{Expansion, done, stopped}
use u_config.Program.{
  next, with_result, packages, no_packages, checked_packages, print_packages, processor_of,
  run_packages, check_override, print_version, print_asked, print_arguments,
}
use u_config.Program.Gathered.{output, print_arguments-output, with_result_same}
use u_config.Program.Exit.{deliver, print_all, finish, uconfig}
use u_config.Program.Exit.Quiet.{AreNames, options_loop_names}

-- The settings behind the two options and names.
abbrev pub printing : Config → List Bytes → Settings
printing conf names = record (start conf) {
  cflags = true;
  filterc = any;
  libs = true;
  filterl = any;
  args = names;
}

options_loop_cflags :
    (f : ℕ) (haslisting : Bool) (s : Settings) (args : List Bytes)
    → options_loop
        (suc f)
        haslisting
        s
        (record { args = codes "--cflags" ∷ args; dashdash = false })
      ≡ options_loop f haslisting
          (record s { cflags = true; filterc = any })
          (record { args = args; dashdash = false })
unfolding nextoption apply go_on next_loop
options_loop_cflags f haslisting s args =
    options_loop-next f haslisting s _ (record { args = args; dashdash = false })
      (record { arg = codes "-cflags"; value = none; isoption = true }) refl

options_loop_libs :
    (f : ℕ) (haslisting : Bool) (s : Settings) (args : List Bytes)
    → options_loop (suc f) haslisting s (record { args = codes "--libs" ∷ args; dashdash = false })
      ≡ options_loop f haslisting
          (record s { libs = true; filterl = any })
          (record { args = args; dashdash = false })
unfolding nextoption apply go_on next_loop
options_loop_libs f haslisting s args =
    options_loop-next f haslisting s _ (record { args = args; dashdash = false })
      (record { arg = codes "-libs"; value = none; isoption = true }) refl

-- What is printed for the packages that were loaded.
abbrev pub printed : Config → List Bytes → Pkgs → Expansion
printed conf names t =
    if t.count == 0 then stopped [] no_packages else output conf (printing conf names) (packages t)

next_nothing : (k : Expansion) → next (done []) k ≡ k
next_nothing (done b) = refl
next_nothing (stopped b e) = refl
next_nothing Expand.out_of_fuel = refl

checked_packages-printed :
    (conf : Config) (names : List Bytes) (t : Pkgs)
    → checked_packages conf (printing conf names) t ≡ printed conf names t
unfolding checked_packages print_packages check_override print_version print_asked start
checked_packages-printed conf names t = elim (Bool-cases (t.count == 0)) [
  | inl e ↦ rw e refl
  | inr n ↦
      let s = printing conf names in
      let k = print_arguments conf s (packages t) in
      rw n (
        next_nothing (next (done []) (next (done []) k))
        ∙ next_nothing (next (done []) k)
        ∙ next_nothing k
        ∙ print_arguments-output conf s (packages t))
]

module _ (os_listing : Bytes → List Bytes) (os_mapfile : Bytes → Filemap) where
  -- `--cflags --libs` and the names of packages, which do not begin with a dash: the program parses the
  -- specifications and processes them, and then prints to standard output, with status 0, what the lists of
  -- the arguments of all loaded packages give, those of --libs behind those of --cflags. Where a step
  -- fails, no package was named or a quote is open, it prints the message of the first error to standard
  -- error, with status 1. Where the rounds of `process` are not enough, the run of the model is unfinished.
  pub uconfig_output :
      (fuel : ℕ) (conf : Config) (names : List Bytes)
      → AreNames names
      → uconfig os_listing os_mapfile fuel conf (codes "--cflags" ∷ codes "--libs" ∷ names)
        ≡ deliver false false (
            with_result (parsespecs names none) λ specs.
              with_result
                (process os_mapfile (processor_of (printing conf names)) fuel specs)
                λ t. printed conf names t)
  unfolding uconfig newoptions finish start print_all run_packages
  uconfig_output fuel conf names h =
      ap (finish os_listing os_mapfile fuel conf) (
        options_loop_cflags (suc (suc (length names))) conf.haslisting (start conf)
          (codes "--libs" ∷ names)
        ∙ options_loop_libs (suc (length names)) conf.haslisting
            (record (start conf) { cflags = true; filterc = any }) names
        ∙ options_loop_names (suc (length names)) conf.haslisting
            (record (start conf) { cflags = true; filterc = any; libs = true; filterl = any }) names
            h (omega arith))
      ∙ ap (deliver false false) (
          with_result_same (parsespecs names none) _ _ λ specs.
            with_result_same (process os_mapfile (processor_of (printing conf names)) fuel specs) _
              _ λ t. checked_packages-printed conf names t)
