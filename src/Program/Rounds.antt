-- ===== src/Program/Rounds.antt =====
-- Loops of src/u-config.c that end silently in the model where their rounds are too few.
use u_config.Base.{
  ℕ, suc, zero, ◌+◌, ◌≤◌, [], ◌∷◌, Bytes, ◌≡◌, refl, arith, length, drop, ◌==◌, length-drop,
  Bool-cases, inl, inr,
}
use u_config.S8.{s8cut}
use u_config.S8.Cuts.{length-s8cut_tail}
use u_config.Args.{Args}
use u_config.Search.{Search, append_dir, appendpath_loop, appendpath}
use u_config.Writer.{FieldWriter, exclude_dir, insertsyspath_loop, insertsyspath}
use u_config.Package.{escaped, strip_loop, stripescapes}

strip_loop-bound :
    (f g : ℕ) (s : Bytes) → length s ≤ f → length s ≤ g → strip_loop f s ≡ strip_loop g s
unfolding strip_loop
strip_loop-bound f g [] h k = refl
strip_loop-bound zero g (b ∷ s) h k = ground arith
strip_loop-bound (suc f) zero (b ∷ s) h k = ground arith
strip_loop-bound (suc f) (suc g) (b ∷ s) h k =
    let next = strip_loop-bound f g s (omega (arith, h)) (omega (arith, k)) in
    let r = escaped (b ∷ s) in
    elim (Bool-cases (r == 0)) [
      | inl e ↦ rw (e, next) refl
      | inr n ↦
          let size = length-drop r (b ∷ s) in
          let past = strip_loop-bound f g (drop r (b ∷ s)) (ground arith) (ground arith) in
          rw (n, past, next) refl
    ]

appendpath_loop-bound :
    (f g : ℕ) (dirs : Search) (path : Bytes)
    → length path ≤ f
    → length path ≤ g
    → appendpath_loop f dirs path ≡ appendpath_loop g dirs path
unfolding appendpath_loop
appendpath_loop-bound zero zero dirs path h k = refl
appendpath_loop-bound zero (suc g) dirs [] h k = refl
appendpath_loop-bound (suc f) zero dirs [] h k = refl
appendpath_loop-bound (suc f) (suc g) dirs [] h k = refl
appendpath_loop-bound zero (suc g) dirs (x ∷ path) h k = ground arith
appendpath_loop-bound (suc f) zero dirs (x ∷ path) h k = ground arith
appendpath_loop-bound (suc f) (suc g) dirs (x ∷ path) h k =
    let c = s8cut (x ∷ path) dirs.delim in
    let l = length-s8cut_tail x path dirs.delim in
    appendpath_loop-bound f g (append_dir dirs c.head) c.tail (omega (arith, l, h))
      (omega (arith, l, k))

insertsyspath_loop-bound :
    (f g : ℕ) (args : Args) (path : Bytes) (delim flag : ℕ)
    → length path ≤ f
    → length path ≤ g
    → insertsyspath_loop f args path delim flag ≡ insertsyspath_loop g args path delim flag
unfolding insertsyspath_loop
insertsyspath_loop-bound zero zero args path delim flag h k = refl
insertsyspath_loop-bound zero (suc g) args [] delim flag h k = refl
insertsyspath_loop-bound (suc f) zero args [] delim flag h k = refl
insertsyspath_loop-bound (suc f) (suc g) args [] delim flag h k = refl
insertsyspath_loop-bound zero (suc g) args (x ∷ path) delim flag h k = ground arith
insertsyspath_loop-bound (suc f) zero args (x ∷ path) delim flag h k = ground arith
insertsyspath_loop-bound (suc f) (suc g) args (x ∷ path) delim flag h k =
    let c = s8cut (x ∷ path) delim in
    let l = length-s8cut_tail x path delim in
    insertsyspath_loop-bound f g (exclude_dir flag args c.head) c.tail delim flag
      (omega (arith, l, h)) (omega (arith, l, k))

-- The rounds that `stripescapes`, `appendpath` and `insertsyspath` give their loops, which would end
-- silently where they are too few, are enough: no number of rounds from the length of the string on changes
-- the result.
pub stripescapes_rounds :
    (more : ℕ) (s path : Bytes) (dirs : Search) (w : FieldWriter) (delim flag : ℕ)
    → (stripescapes s ≡ strip_loop (length s + more) s)
      × (appendpath dirs path ≡ appendpath_loop (length path + more) dirs path)
      × ((insertsyspath w path delim flag).args
          ≡ insertsyspath_loop (length path + more) w.args path delim flag)
unfolding stripescapes appendpath insertsyspath
stripescapes_rounds more s path dirs w delim flag = (
  strip_loop-bound (length s) (length s + more) s (omega arith) (omega arith),
  appendpath_loop-bound (length path) (length path + more) dirs path (omega arith) (omega arith),
  insertsyspath_loop-bound (length path) (length path + more) w.args path delim flag (omega arith)
      (omega arith),
)
