-- ===== src/Tests/Memory.antt =====
-- Runs and witnesses of strings in memory and of the writes of a run on Windows.
use u_config.Base.{
  Bool, true, false, ℕ, if◌then◌else◌, [], ◌∷◌, Bytes, ◌==◌, codes, ◌≡◌, refl, arith, inl,
}
use u_config.Arena.{Arena, Memory}
use u_config.Arena.Copy.{Slice, newmembuf, duplicate}
use u_config.Arena.Copy.Buffer.{Prints, print_all, print_all-IsPrinted}
use u_config.Arena.Copy.Duplicate.{Duplicates, duplicate-IsCopy}
use u_config.Windows.Console.{console_write, os_write as console_or_file}
use u_config.Windows.Session.{Handles, Run, stdout, stderr, writes, exit_status}
use u_config.Windows.Session.Status.{Ends, all_take, writes-Ends}

-- A memory that holds "ab" at 10, and an arena.
abbrev memory : Memory
memory x = if x == 10 then b'a' else if x == 11 then b'b' else 0xff

abbrev space : Arena
space = record { beg = 100; end = 200 }

abbrev ab : Slice
ab = record { s = 10; len = 2 }

print_all-IsPrinted_example :
    Prints space (ab ∷ ab ∷ []) memory (print_all (newmembuf space) (ab ∷ ab ∷ []) memory)
print_all-IsPrinted_example =
    print_all-IsPrinted space (ab ∷ ab ∷ []) memory (omega arith)
      (inl (omega arith), (inl (omega arith), tt))

duplicate-IsCopy_example : Duplicates space ab memory (duplicate space ab memory)
duplicate-IsCopy_example = duplicate-IsCopy space ab memory (omega arith) (inl (omega arith))

-- Standard output is a file, standard error a console; both can be written to.
abbrev handles : Handles
handles = record {
  out = record { isconsole = false; err = false };
  err = record { isconsole = true; err = false };
}

abbrev run_of : (ℕ → Bytes → Bool) → Run
run_of write_file =
    writes (λ n before w. true) write_file 0 handles
      ((stdout, codes "-la\n") ∷ (stderr, codes "x") ∷ [])

file_fails : exit_status (run_of (λ n s. false)).handles ≡ 1
unfolding writes exit_status console_or_file console_write
file_fails = refl

writes-Ends_example :
    Ends
      (all_take
        (λ n before w. true)
        (λ n s. true)
        0
        handles
        ((stdout, codes "-la\n") ∷ (stderr, codes "x") ∷ []))
      handles
      ((stdout, codes "-la\n") ∷ (stderr, codes "x") ∷ [])
      (run_of (λ n s. true))
writes-Ends_example =
    writes-Ends (λ n before w. true) (λ n s. true)
      ((stdout, codes "-la\n") ∷ (stderr, codes "x") ∷ []) 0 handles refl refl
