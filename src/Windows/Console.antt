-- ===== src/Windows/Console.antt =====
-- `os_write` of main_windows.c, with the buffer in front of a console. WriteConsoleW and WriteFile
-- are parameters that say whether a call succeeds.
pub mod Given
pub mod Writes
use u_config.Base.{
  ℕ, zero, suc, ◌+◌, ◌-◌, Bool, true, false, not, ◌&&◌, [], ◌∷◌, ◌++◌, Bytes, List, ltb, ◌==◌,
  if◌then◌else◌, length,
}
use u_config.Windows.Unicode.{Units, utf8decode, utf16encode}

-- `countof(b->buf)`
abbrev pub buf_cap : ℕ
buf_cap = 256

-- `written` are the texts that WriteConsoleW was called with, in order.
pub record U16buf : Type 0 where
  pub buf : Units
  pub err : Bool
  pub written : List Units

unfoldable pub newconsole : U16buf
newconsole = record { buf = []; err = false; written = [] }

-- An entry of `handles`.
pub record Handle : Type 0 where
  pub isconsole : Bool
  pub err : Bool

-- What `os_write` gave to the console and to the file.
pub record Written : Type 0 where
  pub handle : Handle
  pub console : List Units
  pub file : List Bytes

-- `write_console before text`: whether a call behind the calls `before` takes the text; `write_file s`:
-- whether WriteFile does.
module _ (write_console : List Units → Units → Bool) where
  unfoldable pub flushconsole : U16buf → U16buf
  flushconsole b =
      if not b.err && not (length b.buf == 0)
      then record {
        buf = [];
        err = not (write_console b.written b.buf);
        written = b.written ++ (b.buf ∷ []);
      }
      else record b { buf = [] }

  -- `b->buf+b->len`
  unfoldable pub put_units : U16buf → Units → U16buf
  put_units b units = record b { buf = b.buf ++ units }

  unfoldable pub printc32 : U16buf → ℕ → U16buf
  unfolding flushconsole put_units utf16encode
  printc32 b rune =
      if ltb (buf_cap - 2) (length b.buf)
      then put_units (flushconsole b) (utf16encode rune)
      else put_units b (utf16encode rune)

  -- A round takes a byte at least.
  unfoldable pub console_loop : ℕ → U16buf → Bytes → U16buf
  unfolding printc32 utf8decode
  console_loop f b [] = b
  console_loop zero b (c ∷ s) = b
  console_loop (suc f) b (c ∷ s) =
      let state = utf8decode (c ∷ s) in console_loop f (printc32 b state.rune) state.tail

  unfoldable pub console_write : Bytes → U16buf
  unfolding console_loop flushconsole newconsole
  console_write s = flushconsole (console_loop (length s) newconsole s)

  unfoldable pub os_write : (Bytes → Bool) → Handle → Bytes → Written
  unfolding console_write
  os_write write_file h s =
      if h.err
      then record { handle = h; console = []; file = [] }
      else if h.isconsole
      then record {
        handle = record h { err = (console_write s).err };
        console = (console_write s).written;
        file = [];
      }
      else record { handle = record h { err = not (write_file s) }; console = []; file = s ∷ [] }
