-- ===== src/Windows/Session.antt =====
-- The writes of a run of main_windows.c, and its exit status.
pub mod Status
use u_config.Base.{ℕ, ◌+◌, Bool, true, false, ◌||◌, [], ◌∷◌, Bytes, List, if◌then◌else◌}
use u_config.Windows.Console.{Handle, Written, os_write}
use u_config.Windows.Unicode.{Units}

-- Standard output and standard error.
pub record Handles : Type 0 where
  pub out : Handle
  pub err : Handle

-- The descriptors 1 and 2.
pub data Fd : Type 0 where
  stdout stderr : Fd

pub record Run : Type 0 where
  pub handles : Handles
  pub given : List Written

abbrev pub handle_of : Handles → Fd → Handle
handle_of hs stdout = hs.out
handle_of hs stderr = hs.err

abbrev pub with_handle : Handles → Fd → Handle → Handles
with_handle hs stdout h = record hs { out = h }
with_handle hs stderr h = record hs { err = h }

-- `write_console n` and `write_file n` are what WriteConsoleW and WriteFile take in the call of `os_write`
-- with the number `n`.
module _ (write_console : ℕ → List Units → Units → Bool) (write_file : ℕ → Bytes → Bool) where
  -- The calls of `os_write` in order.
  unfoldable pub writes : ℕ → Handles → List (Fd × Bytes) → Run
  unfolding os_write
  writes n hs [] = record { handles = hs; given = [] }
  writes n hs ((fd, s) ∷ ws) =
      let w = os_write (write_console n) (write_file n) (handle_of hs fd) s in
      let r = writes (n + 1) (with_handle hs fd w.handle) ws in record r { given = w ∷ r.given }

-- `ExitProcess(ctx->handles[1].err || ctx->handles[2].err)`
unfoldable pub exit_status : Handles → ℕ
exit_status hs = if hs.out.err || hs.err.err then 1 else 0
