-- ===== src/Program/Exit/Total.antt =====
-- The whole program ends, from some number of rounds of `process` on.
use u_config.Base.{
  ℕ, suc, ◌+◌, Bool, true, false, [], ◌∷◌, Bytes, List, length, ◌≡◌, ◌≢◌, refl, ap, arith, none,
  Result, ok, fail, out_of_fuel,
}
use u_config.Env.{Env}
use u_config.Expand
use u_config.Expand.{Expansion, done, stopped}
use u_config.Spec.{Pkgspec, parsespecs}
use u_config.Spec.Laws.{parsespecs-ne-out_of_fuel}
use u_config.Load.{Filemap}
use u_config.Process.{Pkgs, process}
use u_config.Process.Order.{traversal}
use u_config.Process.Machine.{process-traversal}
use u_config.Process.Total.{traversal-ne-out_of_fuel}
use u_config.Options.{newoptions}
use u_config.Settings.{
  Config, Settings, Listing, list_none, list_all, list_names, Applied, continued, printed_usage,
  printed_version, returned, null_write, start,
}
use u_config.Settings.Total.{options_loop-ne-out_of_fuel}
use u_config.Program.{with_result, checked_packages, processor_of, run_packages}
use u_config.Program.Listing.{list_files, list, listed_name}
use u_config.Program.Exit.{Exit, unfinished, deliver, print_all, finish, uconfig}
use u_config.Program.Total.{
  Ends, next-Ends, with_result-Ends, done-Ends, checked_packages-Ends, list_mapped-Ends,
}

module _ (os_listing : Bytes → List Bytes) (os_mapfile : Bytes → Filemap) where
  list_files-Ends :
      (g : Env) (all : Bool) (dir : Bytes) (files : List Bytes)
      → Ends (list_files os_listing os_mapfile g all dir files)
  unfolding list_files
  list_files-Ends g all dir [] = done-Ends []
  list_files-Ends g all dir (file ∷ files) =
      next-Ends _ _ (list_mapped-Ends g all (listed_name file) _) (list_files-Ends g all dir files)

  list-Ends :
      (g : Env) (dirs : List Bytes) (all : Bool) → Ends (list os_listing os_mapfile g dirs all)
  unfolding list
  list-Ends g [] all = done-Ends []
  list-Ends g (dir ∷ dirs) all = next-Ends _ _ (list_files-Ends g all dir _) (list-Ends g dirs all)

  deliver-ne-unfinished : (a b : Bool) (e : Expansion) → Ends e → deliver a b e ≢ unfinished
  unfolding deliver
  deliver-ne-unfinished a b (done out) h = λ q. cc
  deliver-ne-unfinished a b (stopped out err) h = ground arith
  deliver-ne-unfinished a b Expand.out_of_fuel h = λ q. h refl

  -- The packages with the traversal in the place of the stack machine.
  abbrev meant_packages : Config → Settings → Expansion
  meant_packages conf s = with_result (parsespecs s.args none) λ specs.
      with_result (traversal os_mapfile (processor_of s) specs) λ t. checked_packages conf s t

  meant_packages-Ends : (conf : Config) (s : Settings) → Ends (meant_packages conf s)
  meant_packages-Ends conf s =
      with_result-Ends (parsespecs s.args none) _ (parsespecs-ne-out_of_fuel s.args none) λ specs.
        with_result-Ends (traversal os_mapfile (processor_of s) specs) _
          (traversal-ne-out_of_fuel os_mapfile (processor_of s) specs)
          λ t. checked_packages-Ends conf s t

  run_packages_rounds :
      (conf : Config) (s : Settings)
      → (r : ℕ) × ((f : ℕ) → run_packages os_mapfile (r + f) conf s ≡ meant_packages conf s)
  unfolding run_packages
  run_packages_rounds conf s = by_specs (parsespecs s.args none)
    where
      by_specs :
          (m : Result (List Pkgspec))
          → (r : ℕ) × ((f : ℕ)
              → with_result m (λ specs.
                with_result
                  (process os_mapfile (processor_of s) (r + f) specs)
                  λ t. checked_packages conf s t)
                ≡ with_result m (λ specs.
                  with_result
                    (traversal os_mapfile (processor_of s) specs)
                    λ t. checked_packages conf s t))
      by_specs (ok specs) =
          let (r, h) = process-traversal os_mapfile (processor_of s) specs in
          (r, λ f. ap (λ (m : Result Pkgs). with_result m λ t. checked_packages conf s t) (h f))
      by_specs (fail e) = (0, λ f. refl)
      by_specs out_of_fuel = (0, λ f. refl)

  -- With enough rounds, the same exit for any number more.
  abbrev Settles : (ℕ → Exit) → Type 0
  Settles run = (e : Exit) × (r : ℕ) × (e ≢ unfinished) × ((f : ℕ) → run (r + f) ≡ e)

  print_all-Settles :
      (conf : Config) (s : Settings) (l : Listing)
      → Settles (λ f. deliver s.err_to_stdout s.silent (print_all os_listing os_mapfile f conf s l))
  unfolding print_all
  print_all-Settles conf s list_none =
      let (r, h) = run_packages_rounds conf s in
      (
        deliver s.err_to_stdout s.silent (meant_packages conf s),
        r,
        deliver-ne-unfinished _ _ _ (meant_packages-Ends conf s),
        λ f. ap (deliver s.err_to_stdout s.silent) (h f),
      )
  print_all-Settles conf s list_all =
      (_, 0, deliver-ne-unfinished _ _ _ (list-Ends s.global s.search.list true), λ f. refl)
  print_all-Settles conf s list_names =
      (_, 0, deliver-ne-unfinished _ _ _ (list-Ends s.global s.search.list false), λ f. refl)

  finish-Settles :
      (conf : Config) (m : Result Applied)
      → m ≢ out_of_fuel
      → Settles (λ f. finish os_listing os_mapfile f conf m)
  unfolding finish
  finish-Settles conf (ok (continued p s)) h = print_all-Settles conf s s.listing
  finish-Settles conf (ok printed_usage) h = (_, 0, λ q. cc, λ f. refl)
  finish-Settles conf (ok printed_version) h = (_, 0, λ q. cc, λ f. refl)
  finish-Settles conf (ok returned) h = (_, 0, λ q. cc, λ f. refl)
  finish-Settles conf (ok null_write) h = (_, 0, λ q. cc, λ f. refl)
  finish-Settles conf (fail e) h = (_, 0, λ q. cc, λ f. refl)
  finish-Settles conf out_of_fuel h = absurd (h refl)

  -- Whatever the configuration, the arguments and the files, the program ends: from some number of
  -- rounds of `process` on, every number of rounds gives the same exit, which is not that of a run cut
  -- short.
  pub uconfig_ends :
      (conf : Config) (args : List Bytes)
      → (e : Exit) × (r : ℕ) × (e ≢ unfinished)
        × ((f : ℕ) → uconfig os_listing os_mapfile (r + f) conf args ≡ e)
  unfolding uconfig newoptions
  uconfig_ends conf args = finish-Settles conf _ (
      options_loop-ne-out_of_fuel (suc (length args)) conf.haslisting (start conf) (newoptions args)
        (omega arith))
