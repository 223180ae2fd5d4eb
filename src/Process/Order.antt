-- ===== src/Process/Order.antt =====
-- The order in which `process` works, by recursion: what a specification requires is worked on whole
-- before the specification behind it.
use u_config.Base.{
  ℕ, zero, suc, ◌+◌, ◌-◌, [], ◌∷◌, Bytes, List, length, Result, ok, out_of_fuel, ◌>>=◌, true,
}
use u_config.Spec.{Pkgspec}
use u_config.Load.{Filemap, Flags}
use u_config.Process.{Pkgs, no_pkgs, Processor, Procstate, visit, prepend_new}

module _ (os_mapfile : Bytes → Filemap) (proc : Processor) where
  -- The specifications of an entry at the index `top`. `enter_all` works on the entries that a visit
  -- pushes, given the height of the stack that they make.
  unfoldable pub specs_with :
      (Pkgs → List Procstate → ℕ → Result Pkgs) → ℕ → Pkgs → List Pkgspec → ℕ → Flags → Result Pkgs
  specs_with enter_all top t [] depth flags = ok t
  specs_with enter_all top t (spec ∷ specs) depth flags = do
    v ← visit os_mapfile proc t spec top (depth + 1) flags
    t' ← enter_all v.pkgs v.entries (length v.entries + suc top)
    specs_with enter_all top (prepend_new t' v.newpkg) specs depth flags

  -- Entries that stand on one another, the top first, on a stack of height `h`, to `n` levels.
  unfoldable pub entries_at : ℕ → Pkgs → List Procstate → ℕ → Result Pkgs
  unfolding specs_with
  entries_at n t [] h = ok t
  entries_at zero t (s ∷ entries) h = out_of_fuel
  entries_at (suc n) t (s ∷ entries) h = do
    t' ← specs_with (entries_at n) (h - 1) (prepend_new t s.newpkg) s.specs s.depth s.flags
    entries_at (suc n) t' entries (h - 1)

  -- The packages of the specifications of the command line. The array of the stack has 256 entries.
  unfoldable pub traversal : List Pkgspec → Result Pkgs
  unfolding entries_at specs_with
  traversal specs =
      specs_with (entries_at 255) 0 no_pkgs specs 0 (record { direct = true; public = true })
