-- ===== src/Writer/System.antt =====
-- The arguments for system directories, which are left out.
use u_config.Base.{
  ℕ, zero, suc, ◌≤◌, [], ◌∷◌, ◌++◌, Bytes, List, length, Option, none, some, ◌≡◌, refl, sym, ap,
  ◌∙◌, arith, append-nil, append_assoc,
}
use mathlib.Core.Path.{subst}
use u_config.S8.{s8cut}
use u_config.S8.Cuts.{length-s8cut_tail}
use u_config.Encode.{s8pathencode}
use u_config.Dequote.{dequote}
use u_config.Args.{Args}
use u_config.Args.Positions.{Holds, excludearg-Holds}
use u_config.Search.Laws.{keep, components, components-nil, components-s8cut}
use u_config.Writer.{
  FieldWriter, whole_argument, exclude_whole, exclude_dir, insertsyspath_loop, insertsyspath,
}

abbrev pub as_list : Option Bytes → List Bytes
as_list none = []
as_list (some arg) = arg ∷ []

-- The argument that `dequote` reads of a directory behind its flag, where it is one argument.
abbrev pub system_arg : ℕ → Bytes → List Bytes
system_arg flag dir = as_list (whole_argument (dequote (b'-' ∷ flag ∷ s8pathencode dir)))

abbrev pub system_args : ℕ → List Bytes → List Bytes
system_args flag [] = []
system_args flag (dir ∷ dirs) = system_arg flag dir ++ system_args flag dirs

exclude_whole-Holds :
    (excluded : List Bytes) (args : Args) (arg : Option Bytes)
    → Holds excluded [] args
    → Holds (excluded ++ as_list arg) [] (exclude_whole args arg)
unfolding exclude_whole
exclude_whole-Holds excluded args none h =
    subst (λ e. Holds e [] args) (sym (append-nil excluded)) h
exclude_whole-Holds excluded args (some arg) h = excludearg-Holds excluded args arg h

exclude_dir-Holds :
    (excluded : List Bytes) (flag : ℕ) (args : Args) (dir : Bytes) (dirs : List Bytes)
    → Holds excluded [] args
    → (before : List Bytes) × Holds before [] (exclude_dir flag args dir)
      × (before ++ system_args flag dirs ≡ excluded ++ system_args flag (keep dir dirs))
unfolding exclude_dir
exclude_dir-Holds excluded flag args [] dirs h = (excluded, h, refl)
exclude_dir-Holds excluded flag args (x ∷ dir) dirs h =
    let arg = whole_argument (dequote (b'-' ∷ flag ∷ s8pathencode (x ∷ dir))) in
    (
      excluded ++ as_list arg,
      exclude_whole-Holds excluded args arg h,
      append_assoc excluded (as_list arg) (system_args flag dirs),
    )

no_dirs :
    (excluded : List Bytes) (args : Args) (delim flag : ℕ)
    → Holds excluded [] args
    → Holds (excluded ++ system_args flag (components delim [])) [] args
no_dirs excluded args delim flag h =
    subst (λ e. Holds e [] args)
      (sym (
        ap (λ dirs. excluded ++ system_args flag dirs) (components-nil delim)
        ∙ append-nil excluded))
      h

insertsyspath_loop-Holds :
    (f : ℕ) (excluded : List Bytes) (args : Args) (path : Bytes) (delim flag : ℕ)
    → length path ≤ f
    → Holds excluded [] args
    → Holds
        (excluded ++ system_args flag (components delim path))
        []
        (insertsyspath_loop f args path delim flag)
unfolding insertsyspath_loop
insertsyspath_loop-Holds zero excluded args [] delim flag l h = no_dirs excluded args delim flag h
insertsyspath_loop-Holds (suc f) excluded args [] delim flag l h =
    no_dirs excluded args delim flag h
insertsyspath_loop-Holds zero excluded args (x ∷ path) delim flag l h = ground arith
insertsyspath_loop-Holds (suc f) excluded args (x ∷ path) delim flag l h =
    let c = s8cut (x ∷ path) delim in
    let (before, held, same) =
      exclude_dir-Holds excluded flag args c.head (components delim c.tail) h in
    subst (λ e. Holds e [] (insertsyspath_loop f (exclude_dir flag args c.head) c.tail delim flag))
      (same
        ∙ ap (λ dirs. excluded ++ system_args flag dirs) (sym (components-s8cut delim (x ∷ path))))
      (insertsyspath_loop-Holds f before (exclude_dir flag args c.head) c.tail delim flag
        (omega (arith, l, length-s8cut_tail x path delim)) held)

-- A writer that held no argument excludes those of the nonempty components of the path.
pub insertsyspath-Holds :
    (w : FieldWriter) (path : Bytes) (delim flag : ℕ)
    → Holds [] [] w.args
    → Holds (system_args flag (components delim path)) [] (insertsyspath w path delim flag).args
unfolding insertsyspath
insertsyspath-Holds w path delim flag h =
    insertsyspath_loop-Holds (length path) [] w.args path delim flag (omega arith) h
