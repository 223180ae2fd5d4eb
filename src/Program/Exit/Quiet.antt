-- ===== src/Program/Exit/Quiet.antt =====
-- What is printed where only a check was asked for.
use u_config.Base.{
  ℕ, zero, suc, ◌<◌, Bool, true, false, [], ◌∷◌, ◌++◌, Bytes, List, length, ◌==◌, if◌then◌else◌,
  ◌≡◌, refl, ap, sym, ◌∙◌, arith, none, Bool-cases, inl, inr, Result, ok, fail, out_of_fuel, ◌>>=◌,
  codes, append_assoc, append-nil,
}
use u_config.Search.{append}
use u_config.Spec.{Pkgspec, parsespecs}
use u_config.Load.{Filemap}
use u_config.Process.{Pkgs, process}
use u_config.Options.{nextoption, next_loop, newoptions}
use u_config.Options.Laws.{no_option, positional, next_loop-word}
use u_config.Settings.{Config, Settings, continued, start, options_loop, apply}
use u_config.Settings.Total.{go_on, options_loop-next, options_loop-none}
use u_config.Expand.{done, stopped}
use u_config.Program.{
  with_result, checked_packages, print_packages, processor_of, run_packages, no_packages,
  check_override, print_version, print_asked, print_arguments, cflags_written, libs_written,
}
use u_config.Program.Exit.{Exit, exited, unfinished, deliver, flushed, print_all, finish, uconfig}

-- Names that are not read as options.
abbrev pub AreNames : List Bytes → Type 0
AreNames [] = Unit {0}
AreNames (arg ∷ args) = (no_option arg ≡ true) × AreNames args

options_loop_name :
    (f : ℕ) (haslisting : Bool) (s : Settings) (arg : Bytes) (args : List Bytes)
    → no_option arg ≡ true
    → options_loop (suc f) haslisting s (record { args = arg ∷ args; dashdash = false })
      ≡ options_loop f haslisting
          (record s { args = s.args ++ (arg ∷ []) })
          (record { args = args; dashdash = false })
unfolding nextoption apply append go_on
options_loop_name f haslisting s arg args h =
    options_loop-next f haslisting s _ (record { args = args; dashdash = false })
      (record { arg = arg; value = none; isoption = false })
      (next_loop-word (positional arg) args h)

-- The option `--exists`.
options_loop_exists :
    (f : ℕ) (haslisting : Bool) (s : Settings) (args : List Bytes)
    → options_loop
        (suc f)
        haslisting
        s
        (record { args = codes "--exists" ∷ args; dashdash = false })
      ≡ options_loop f haslisting
          (record s { silent = true })
          (record { args = args; dashdash = false })
unfolding nextoption apply go_on next_loop
options_loop_exists f haslisting s args =
    options_loop-next f haslisting s _ (record { args = args; dashdash = false })
      (record { arg = codes "-exists"; value = none; isoption = true }) refl

options_loop_end :
    (f : ℕ) (haslisting : Bool) (s : Settings)
    → options_loop (suc f) haslisting s (record { args = []; dashdash = false })
      ≡ ok (continued (record { args = []; dashdash = false }) s)
unfolding nextoption next_loop
options_loop_end f haslisting s = options_loop-none f haslisting s _ refl

pub options_loop_names :
    (f : ℕ) (haslisting : Bool) (s : Settings) (names : List Bytes)
    → AreNames names
    → length names < f
    → options_loop f haslisting s (record { args = names; dashdash = false })
      ≡ ok
          (continued (record { args = []; dashdash = false }) (record s { args = s.args ++ names }))
options_loop_names zero haslisting s names h l = ground arith
options_loop_names (suc f) haslisting s [] h l =
    options_loop_end f haslisting s
    ∙ ap (λ a. ok (continued (record { args = []; dashdash = false }) (record s { args = a })))
        (sym (append-nil s.args))
options_loop_names (suc f) haslisting s (arg ∷ names) (ha, hs) l =
    options_loop_name f haslisting s arg names ha
    ∙ options_loop_names f haslisting (record s { args = s.args ++ (arg ∷ []) }) names hs
        (omega (arith, l))
    ∙ ap (λ a. ok (continued (record { args = []; dashdash = false }) (record s { args = a })))
        (append_assoc s.args (arg ∷ []) names)

-- The exit of a check alone.
unfoldable pub checked : Result Pkgs → Exit
checked (ok t) = exited [] [] (if t.count == 0 then 1 else 0)
checked (fail e) = exited [] [] 1
checked out_of_fuel = unfinished

-- The settings behind `--exists` and names.
abbrev pub checking : Config → List Bytes → Settings
checking conf names = record (start conf) { silent = true; args = names }

checked_packages_quiet :
    (conf : Config) (names : List Bytes) (t : Pkgs)
    → checked_packages conf (checking conf names) t
      ≡ (if t.count == 0 then stopped [] no_packages else done [])
unfolding checked_packages print_packages start check_override print_version print_asked
    print_arguments cflags_written libs_written
checked_packages_quiet conf names t = refl

deliver_packages :
    (conf : Config) (names : List Bytes) (m : Result Pkgs)
    → deliver false true (with_result m λ t. checked_packages conf (checking conf names) t)
      ≡ checked m
unfolding deliver flushed checked
deliver_packages conf names (ok t) =
    ap (deliver false true) (checked_packages_quiet conf names t)
    ∙ elim (Bool-cases (t.count == 0)) [ inl e ↦ rw e refl | inr n ↦ rw n refl ]
deliver_packages conf names (fail e) = refl
deliver_packages conf names out_of_fuel = refl

deliver_specs :
    (conf : Config) (names : List Bytes) (m : Result (List Pkgspec))
    (k : List Pkgspec → Result Pkgs)
    → deliver false true (
        with_result m
          λ specs. with_result (k specs) λ t. checked_packages conf (checking conf names) t)
      ≡ checked (m >>= k)
unfolding deliver flushed checked
deliver_specs conf names (ok specs) k = deliver_packages conf names (k specs)
deliver_specs conf names (fail e) k = refl
deliver_specs conf names out_of_fuel k = refl

module _ (os_listing : Bytes → List Bytes) (os_mapfile : Bytes → Filemap) where
  -- `--exists` and the names of packages, which do not begin with a dash: nothing is printed, neither
  -- to standard output nor to standard error, and the status is 0 if the specifications are parsed and
  -- processed without an error and name a package, and 1 if not. Where the rounds of `process` are not
  -- enough, the run of the model is unfinished.
  pub uconfig_exists :
      (fuel : ℕ) (conf : Config) (names : List Bytes)
      → AreNames names
      → uconfig os_listing os_mapfile fuel conf (codes "--exists" ∷ names)
        ≡ checked
            (parsespecs names none >>= process os_mapfile (processor_of (checking conf names)) fuel)
  unfolding uconfig newoptions finish start print_all run_packages
  uconfig_exists fuel conf names h =
      ap (finish os_listing os_mapfile fuel conf) (
        options_loop_exists (suc (length names)) conf.haslisting (start conf) names
        ∙ options_loop_names (suc (length names)) conf.haslisting
            (record (start conf) { silent = true }) names h (omega arith))
      ∙ deliver_specs conf names (parsespecs names none)
          (process os_mapfile (processor_of (checking conf names)) fuel)
