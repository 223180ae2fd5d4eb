-- ===== src/Windows/Session/Status.antt =====
-- The exit status tells whether all that was written was taken.
use mathlib.Core.Path.{subst}
use u_config.Base.{
  ℕ, ◌+◌, ◌<◌, Bool, true, false, not, ◌&&◌, ◌||◌, [], ◌∷◌, Bytes, List, ◌≡◌, refl, sym, ap, ◌∙◌,
  arith, Bool-cases, inl, inr, append-nil,
}
use u_config.Output.Chunks.{joined}
use u_config.Windows.Unicode.{Units, towide}
use u_config.Windows.Console.{Handle, Written, console_write, os_write}
use u_config.Windows.Console.Given.{all_taken, Keeps}
use u_config.Windows.Console.Writes.{console_write-Keeps}
use u_config.Windows.Session.{
  Handles, Fd, stdout, stderr, Run, handle_of, with_handle, writes, exit_status,
}

-- The output is the whole string: to a console in UTF-16, in some number of calls, or to a file at once.
abbrev pub IsWhole : Bool → Bytes → Written → Type 0
IsWhole true s w = (joined w.console ≡ towide s) × (w.file ≡ [])
IsWhole false s w = (w.file ≡ s ∷ []) × (w.console ≡ [])

abbrev pub AllWhole : Handles → List (Fd × Bytes) → List Written → Type 0
AllWhole hs [] given = given ≡ []
AllWhole hs (w ∷ ws) [] = 0 < 0
AllWhole hs ((fd, s) ∷ ws) (g ∷ given) =
    IsWhole (handle_of hs fd).isconsole s g × AllWhole hs ws given

abbrev console_handle : Bool → Handle
console_handle err = record { isconsole = true; err = err }

abbrev failed : Handles → Bool
failed hs = hs.out.err || hs.err.err

Keeps-whole :
    (err : Bool) (given whole : Units) → err ≡ false → Keeps err given [] whole → given ≡ whole
Keeps-whole true given whole e h = cc
Keeps-whole false given whole e h = sym (append-nil given) ∙ h

module _ (write_console : List Units → Units → Bool) (write_file : Bytes → Bool) where
  -- Whether all calls of the system for a string succeed.
  abbrev pub takes : Bool → Bytes → Bool
  takes true s = all_taken write_console [] (console_write write_console s).written
  takes false s = write_file s

  -- A string that is taken leaves the handle as it was, and one that is not sets its flag.
  os_write-takes :
      (h : Handle) (s : Bytes)
      → h.err ≡ false
      → (os_write write_console write_file h s).handle
        ≡ record h { err = not (takes h.isconsole s) }
  unfolding os_write
  os_write-takes h s e = elim (Bool-cases h.isconsole) [
    | inl c ↦
        let (chunks, pieces, reported, keeps) = console_write-Keeps write_console s in
        rw (e, c) (ap console_handle reported)
    | inr c ↦ rw (e, c) refl
  ]

  os_write-IsWhole :
      (h : Handle) (s : Bytes)
      → h.err ≡ false
      → takes h.isconsole s ≡ true
      → IsWhole h.isconsole s (os_write write_console write_file h s)
  unfolding os_write
  os_write-IsWhole h s e t = elim (Bool-cases h.isconsole) [
    | inl c ↦
        let (chunks, pieces, reported, keeps) = console_write-Keeps write_console s in
        let all : all_taken write_console [] (console_write write_console s).written ≡ true =
          ap (λ b. takes b s) (sym c) ∙ t in
        rw (e, c)
          (
            Keeps-whole (console_write write_console s).err _ (towide s) (reported ∙ ap not all)
                keeps,
            refl,
          )
    | inr c ↦ rw (e, c) (refl, refl)
  ]

  os_write_failed :
      (h : Handle) (s : Bytes) → h.err ≡ true → (os_write write_console write_file h s).handle ≡ h
  unfolding os_write
  os_write_failed h s e = rw e refl

-- What the run is to end with, where all calls of the system succeed and where one fails.
abbrev pub Ends : Bool → Handles → List (Fd × Bytes) → Run → Type 0
Ends true hs ws r = (exit_status r.handles ≡ 0) × AllWhole hs ws r.given
Ends false hs ws r = exit_status r.handles ≡ 1

module _ (write_console : ℕ → List Units → Units → Bool) (write_file : ℕ → Bytes → Bool) where
  -- Whether all calls of the system succeed for all strings.
  abbrev pub all_take : ℕ → Handles → List (Fd × Bytes) → Bool
  all_take n hs [] = true
  all_take n hs ((fd, s) ∷ ws) =
      takes (write_console n) (write_file n) (handle_of hs fd).isconsole s && all_take (n + 1) hs ws

  failed_step :
      (n : ℕ) (hs : Handles) (fd : Fd) (s : Bytes)
      → failed hs ≡ true
      → failed
          (with_handle hs fd (os_write (write_console n) (write_file n) (handle_of hs fd) s).handle)
        ≡ true
  failed_step n hs stdout s h = elim (Bool-cases hs.out.err) [
    | inl e ↦ rw (os_write_failed (write_console n) (write_file n) hs.out s e) h
    | inr e ↦ ground arith
  ]
  failed_step n hs stderr s h = elim (Bool-cases hs.err.err) [
    | inl e ↦ rw (os_write_failed (write_console n) (write_file n) hs.err s e) h
    | inr e ↦ ground arith
  ]

  writes-failed :
      (ws : List (Fd × Bytes)) (n : ℕ) (hs : Handles)
      → failed hs ≡ true
      → exit_status (writes write_console write_file n hs ws).handles ≡ 1
  unfolding writes exit_status
  writes-failed [] n hs h = rw h refl
  writes-failed ((fd, s) ∷ ws) n hs h = writes-failed ws (n + 1) _ (failed_step n hs fd s h)

  failed_other :
      (n : ℕ) (hs : Handles) (fd : Fd) (s : Bytes)
      → (handle_of hs fd).err ≡ false
      → takes (write_console n) (write_file n) (handle_of hs fd).isconsole s ≡ false
      → failed
          (with_handle hs fd (os_write (write_console n) (write_file n) (handle_of hs fd) s).handle)
        ≡ true
  failed_other n hs stdout s e t =
      rw (os_write-takes (write_console n) (write_file n) hs.out s e, t) refl
  failed_other n hs stderr s e t =
      rw (os_write-takes (write_console n) (write_file n) hs.err s e, t) (ground arith)

  same_handles :
      (n : ℕ) (hs : Handles) (fd : Fd) (s : Bytes)
      → (handle_of hs fd).err ≡ false
      → takes (write_console n) (write_file n) (handle_of hs fd).isconsole s ≡ true
      → with_handle hs fd (os_write (write_console n) (write_file n) (handle_of hs fd) s).handle
        ≡ hs
  same_handles n hs stdout s e t =
      rw (os_write-takes (write_console n) (write_file n) hs.out s e, t)
        (ap (λ err. record hs { out = record (hs.out) { err = err } }) (sym e))
  same_handles n hs stderr s e t =
      rw (os_write-takes (write_console n) (write_file n) hs.err s e, t)
        (ap (λ err. record hs { err = record (hs.err) { err = err } }) (sym e))

  Ends-next :
      (b : Bool) (hs : Handles) (fd : Fd) (s : Bytes) (ws : List (Fd × Bytes)) (w : Written)
      (r : Run)
      → IsWhole (handle_of hs fd).isconsole s w
      → Ends b hs ws r
      → Ends b hs ((fd, s) ∷ ws) (record r { given = w ∷ r.given })
  Ends-next true hs fd s ws w r h (status, all) = (status, (h, all))
  Ends-next false hs fd s ws w r h status = status

  -- Where no write failed yet: if all calls of the system for all strings that are written succeed, then
  -- each string went out whole, to a console in UTF-16 and to a file at once, and the exit status is 0;
  -- if any of the calls fails, then the exit status is 1, whatever is written afterwards.
  pub writes-Ends :
      (ws : List (Fd × Bytes)) (n : ℕ) (hs : Handles)
      → hs.out.err ≡ false
      → hs.err.err ≡ false
      → Ends (all_take n hs ws) hs ws (writes write_console write_file n hs ws)
  unfolding writes exit_status
  writes-Ends [] n hs o e = (rw (o, e) refl, refl)
  writes-Ends ((fd, s) ∷ ws) n hs o e =
      let clear : (handle_of hs fd).err ≡ false = handle_clear hs fd o e in
      elim (Bool-cases (takes (write_console n) (write_file n) (handle_of hs fd).isconsole s)) [
        | inl t ↦
            let w = os_write (write_console n) (write_file n) (handle_of hs fd) s in
            let same = same_handles n hs fd s clear t in
            rw t (
              Ends-next (all_take (n + 1) hs ws) hs fd s ws w _
                (os_write-IsWhole (write_console n) (write_file n) (handle_of hs fd) s clear t)
                (subst
                  (λ hs'.
                    Ends (all_take (n + 1) hs ws) hs ws
                      (writes write_console write_file (n + 1) hs' ws))
                  (sym same) (writes-Ends ws (n + 1) hs o e)))
        | inr f ↦ rw f (writes-failed ws (n + 1) _ (failed_other n hs fd s clear f))
      ]
    where
      handle_clear :
          (hs : Handles) (fd : Fd)
          → hs.out.err ≡ false
          → hs.err.err ≡ false
          → (handle_of hs fd).err ≡ false
      handle_clear hs stdout o e = o
      handle_clear hs stderr o e = e
