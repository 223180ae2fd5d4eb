-- ===== src/Windows/Console/Writes.antt =====
-- What a console is given of a string.
use mathlib.Core.Path.{subst}
use u_config.Base.{
  ◌&&◌, ℕ, zero, suc, ◌-◌, ◌≤◌, ◌<◌, Bool, true, false, not, [], ◌∷◌, ◌++◌, Bytes, List, ltb, ◌==◌,
  length, ◌≡◌, refl, sym, ap, ◌∙◌, inl, inr, arith, Bool-cases, length-append,
}
use u_config.Output.Chunks.{joined, AreChunks, joined-append, AreChunks-append}
use u_config.Windows.Unicode.{Units, utf8decode, utf16encode, wide_loop, towide}
use u_config.Windows.Unicode.Texts.{text16}
use u_config.Windows.Console.{
  buf_cap, U16buf, newconsole, flushconsole, put_units, printc32, console_loop, console_write,
}
use u_config.Windows.Console.Given.{
  IsWhole, AreWhole, AreWhole-append, text16-append, length-utf16encode, Keeps, Keeps-put,
  Keeps-flush, Keeps-drop, Keeps-none, all_taken, all_taken-append,
}

-- The buffer where `whole` is what was put into it.
record IsConsole (write_console : List Units → Units → Bool) (whole : Units) (b : U16buf)
    : Type 0 where
  chunks : AreChunks buf_cap b.written
  pieces : AreWhole b.written
  room : length b.buf ≤ buf_cap
  piece : IsWhole b.buf
  keeps : Keeps b.err (joined b.written) b.buf whole
  reported : b.err ≡ not (all_taken write_console [] b.written)

eq_nil : (w : Units) → length w ≡ 0 → w ≡ []
eq_nil [] h = refl
eq_nil (u ∷ w) h = ground arith

IsWhole-nil : IsWhole []
IsWhole-nil = ([], unfold text16 in refl)

module _ (write_console : List Units → Units → Bool) where
  drop_failed :
      (whole : Units) (b : U16buf)
      → b.err ≡ true
      → IsConsole write_console whole b
      → IsConsole write_console whole (record b { buf = [] })
  drop_failed whole b e h = record {
    chunks = h.chunks;
    pieces = h.pieces;
    room = omega arith;
    piece = IsWhole-nil;
    reported = h.reported;
    keeps = Keeps-drop b.err (joined b.written) b.buf whole e h.keeps;
  }

  flush_full :
      (whole : Units) (b : U16buf)
      → b.err ≡ false
      → 0 < length b.buf
      → IsConsole write_console whole b
      → IsConsole write_console whole (record {
        buf = [];
        err = not (write_console b.written b.buf);
        written = b.written ++ (b.buf ∷ []);
      })
  flush_full whole b e n h =
      let all = Keeps-none b.err (joined b.written) b.buf whole e h.keeps in
      record {
        chunks = AreChunks-append buf_cap b.written b.buf h.chunks n h.room;
        pieces = AreWhole-append b.written b.buf h.pieces h.piece;
        room = omega arith;
        reported =
            let all : all_taken write_console [] b.written ≡ true = ground (arith, h.reported) in
            ap not (
              sym (
                all_taken-append write_console [] b.written b.buf
                ∙ ap (λ t. t && write_console b.written b.buf) all));
        piece = IsWhole-nil;
        keeps =
            rw (joined-append b.written b.buf)
              (Keeps-flush (write_console b.written b.buf) (joined b.written) b.buf whole all);
      }

  flush_empty :
      (whole : Units) (b : U16buf)
      → length b.buf ≡ 0
      → IsConsole write_console whole b
      → IsConsole write_console whole (record b { buf = [] })
  flush_empty whole b n h =
      let e : b.buf ≡ [] = eq_nil b.buf n in
      record {
        chunks = h.chunks;
        pieces = h.pieces;
        room = omega arith;
        piece = IsWhole-nil;
        reported = h.reported;
        keeps = subst (λ buf. Keeps b.err (joined b.written) buf whole) e h.keeps;
      }

  flushconsole-IsConsole :
      (whole : Units) (b : U16buf)
      → IsConsole write_console whole b
      → IsConsole write_console whole (flushconsole write_console b)
  unfolding flushconsole
  flushconsole-IsConsole whole b h = elim (Bool-cases b.err) [
    | inl e ↦ rw e (
        subst
          (λ x. IsConsole write_console whole (record { buf = []; err = x; written = b.written })) e
          (drop_failed whole b e h))
    | inr e ↦ elim (Bool-cases (length b.buf == 0)) [
      | inl n ↦
          rw (e, n)
            (subst
              (λ x.
                IsConsole write_console whole (record { buf = []; err = x; written = b.written }))
              e (flush_empty whole b (ground arith) h))
      | inr n ↦ rw (e, n) (flush_full whole b e (ground arith) h)
    ]
  ]

  flushconsole_buf : (b : U16buf) → (flushconsole write_console b).buf ≡ []
  unfolding flushconsole
  flushconsole_buf b = ground arith

  put_units-IsConsole :
      (whole : Units) (b : U16buf) (rune : ℕ)
      → length b.buf ≤ buf_cap - 2
      → IsConsole write_console whole b
      → IsConsole write_console
          (whole ++ utf16encode rune)
          (put_units write_console b (utf16encode rune))
  unfolding put_units
  put_units-IsConsole whole b rune l h =
      let (runes, e) = h.piece in
      let (_, two) = length-utf16encode rune in
      record {
        chunks = h.chunks;
        pieces = h.pieces;
        room = omega (arith, length-append b.buf (utf16encode rune), two, l);
        piece = (
          runes ++ (rune ∷ []),
          ap (λ w. w ++ utf16encode rune) e ∙ sym (text16-append runes rune),
        );
        reported = h.reported;
        keeps = Keeps-put b.err (joined b.written) b.buf whole (utf16encode rune) h.keeps;
      }

  printc32-IsConsole :
      (whole : Units) (b : U16buf) (rune : ℕ)
      → IsConsole write_console whole b
      → IsConsole write_console (whole ++ utf16encode rune) (printc32 write_console b rune)
  unfolding printc32
  printc32-IsConsole whole b rune h = elim (Bool-cases (ltb (buf_cap - 2) (length b.buf))) [
    | inl full ↦
        let empty = flushconsole_buf b in
        rw full (
          put_units-IsConsole whole (flushconsole write_console b) rune (rw empty (omega arith))
            (flushconsole-IsConsole whole b h))
    | inr room ↦ rw room (put_units-IsConsole whole b rune (ground arith) h)
  ]

  console_loop-IsConsole :
      (f : ℕ) (whole : Units) (b : U16buf) (s : Bytes)
      → IsConsole write_console whole b
      → IsConsole write_console (wide_loop f whole s) (console_loop write_console f b s)
  unfolding console_loop wide_loop
  console_loop-IsConsole f whole b [] h = h
  console_loop-IsConsole zero whole b (c ∷ s) h = h
  console_loop-IsConsole (suc f) whole b (c ∷ s) h =
      let d = utf8decode (c ∷ s) in
      console_loop-IsConsole f (whole ++ utf16encode d.rune) (printc32 write_console b d.rune)
        d.tail (printc32-IsConsole whole b d.rune h)

  newconsole-IsConsole : IsConsole write_console [] newconsole
  unfolding newconsole
  newconsole-IsConsole = record {
    chunks = tt;
    pieces = tt;
    room = omega arith;
    piece = IsWhole-nil;
    reported = unfold all_taken in refl;
    keeps = refl;
  }

  -- Whichever calls succeed, a string is given to the console in texts of at least one and at most 256
  -- units that split no code point, and an error is recorded if and only if one of the calls failed. If
  -- none did, the texts are the UTF-16 of the string, in order and without a gap; otherwise they are a
  -- beginning of it.
  pub console_write-Keeps :
      (s : Bytes)
      → AreChunks buf_cap (console_write write_console s).written
        × AreWhole (console_write write_console s).written
        × ((console_write write_console s).err
            ≡ not (all_taken write_console [] (console_write write_console s).written))
        × Keeps
            (console_write write_console s).err
            (joined (console_write write_console s).written)
            []
            (towide s)
  unfolding console_write towide
  console_write-Keeps s =
      let b = console_loop write_console (length s) newconsole s in
      let h =
        flushconsole-IsConsole (towide s) b
          (console_loop-IsConsole (length s) [] newconsole s newconsole-IsConsole) in
      (
        h.chunks,
        h.pieces,
        h.reported,
        subst
            (λ buf.
              Keeps (flushconsole write_console b).err
                (joined (flushconsole write_console b).written) buf (towide s))
            (flushconsole_buf b) h.keeps,
      )
