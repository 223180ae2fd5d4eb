-- ===== src/Program/Exit.antt =====
-- How `uconfig` ends: what reaches standard output and standard error, and the exit status.
pub mod Quiet
pub mod Printed
pub mod Total
use u_config.Base.{
  ℕ, suc, ◌*◌, ◌/◌, Bool, true, false, [], ◌∷◌, ◌++◌, Bytes, List, length, take, if◌then◌else◌,
  codes, Result, ok, fail, out_of_fuel,
}
use u_config.Expand
use u_config.Expand.{Expansion, done, stopped}
use u_config.Load.{Filemap}
use u_config.Options.{newoptions}
use u_config.Settings.{
  Config, Settings, Listing, list_none, list_all, list_names, Applied, continued, printed_usage,
  printed_version, returned, null_write, start, options_loop,
}
use u_config.Program.{run_packages}
use u_config.Program.Usage.{usage}
use u_config.Program.Listing.{list}

pub data Exit : Type 0 where
  exited : Bytes → Bytes → ℕ → Exit
  crashed : Exit
  unfinished : Exit

-- What the buffer of standard output has written when the program ends in the middle: it is flushed
-- when its 4096 bytes are full, and else at the end.
unfoldable pub flushed : Bytes → Bytes
flushed out = take (length out / 4096 * 4096) out

-- The error stream is standard error, standard output or no stream.
unfoldable pub deliver : Bool → Bool → Expansion → Exit
unfolding flushed
deliver err_to_stdout silent (done out) = exited out [] 0
deliver err_to_stdout silent (stopped out err) =
    if silent
    then exited (flushed out) [] 1
    else if err_to_stdout
    then exited (out ++ err) [] 1
    else exited (flushed out) err 1
deliver err_to_stdout silent Expand.out_of_fuel = unfinished

module _ (os_listing : Bytes → List Bytes) (os_mapfile : Bytes → Filemap) where
  -- `if (listing)`, or the packages.
  unfoldable pub print_all : ℕ → Config → Settings → Listing → Expansion
  unfolding list run_packages
  print_all fuel conf s list_none = run_packages os_mapfile fuel conf s
  print_all fuel conf s list_all = list os_listing os_mapfile s.global s.search.list true
  print_all fuel conf s list_names = list os_listing os_mapfile s.global s.search.list false

  -- Behind the options.
  unfoldable pub finish : ℕ → Config → Result Applied → Exit
  unfolding deliver print_all usage
  finish fuel conf (ok (continued p s)) =
      deliver s.err_to_stdout s.silent (print_all fuel conf s s.listing)
  finish fuel conf (ok printed_usage) = exited usage [] 0
  finish fuel conf (ok printed_version) = exited (codes "0.34.0\n") [] 0
  finish fuel conf (ok returned) = exited [] [] 0
  finish fuel conf (ok null_write) = crashed
  finish fuel conf (fail e) = exited [] e 1
  finish fuel conf out_of_fuel = unfinished

  -- A round of the option loop takes an argument, or it is the last.
  unfoldable pub uconfig : ℕ → Config → List Bytes → Exit
  unfolding finish options_loop start newoptions
  uconfig fuel conf args =
      finish fuel conf
        (options_loop (suc (length args)) conf.haslisting (start conf) (newoptions args))
