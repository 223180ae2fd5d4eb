-- ===== src/Wasm/Preopens.antt =====
-- The directories that the host has opened.
use u_config.Base.{
  ℕ, zero, suc, ◌+◌, ◌<◌, [], ◌∷◌, ◌++◌, Bytes, List, codes, length, Option, none, some, ok, ◌>>=◌,
  ◌≡◌, refl, ap, ◌∙◌, arith,
}
use u_config.Wasm.{Dirfd, preopened, dir_of, with_preopen, preopens_loop, find_preopens}
use u_config.Wasm.Paths.{slashes, EndsFree, dir_of-preopened}

-- The descriptors from one on are open with these names, and the next is not.
abbrev pub Opened : (ℕ → Option Bytes) → ℕ → List Bytes → Type 0
Opened prestat fd [] = prestat fd ≡ none
Opened prestat fd (name ∷ names) = (prestat fd ≡ some name) × Opened prestat (fd + 1) names

-- The directories of these names with the descriptors from one on, each with the name but for the slashes
-- at its end.
abbrev pub AreOpen : ℕ → List Bytes → List Dirfd → Type 0
AreOpen fd [] dirs = dirs ≡ []
AreOpen fd (name ∷ names) [] = 0 < 0
AreOpen fd (name ∷ names) (d ∷ dirs) =
    (d.fd ≡ fd)
    × EndsFree (dir_of d)
    × (d.path ≡ dir_of d ++ codes "/")
    × ((k : ℕ) × (name ≡ dir_of d ++ slashes k))
    × AreOpen (fd + 1) names dirs

module _ (prestat : ℕ → Option Bytes) where
  preopens_loop-Opened :
      (names : List Bytes) (f fd : ℕ)
      → Opened prestat fd names
      → length names < f
      → (dirs : List Dirfd) × (preopens_loop prestat f fd ≡ ok dirs) × AreOpen fd names dirs
  unfolding preopens_loop with_preopen
  preopens_loop-Opened names zero fd h l = ground arith
  preopens_loop-Opened [] (suc f) fd h l =
      ([], ap (λ name. with_preopen name fd (preopens_loop prestat f)) h, refl)
  preopens_loop-Opened (name ∷ names) (suc f) fd (e, h) l =
      let (dirs, found, open_dirs) = preopens_loop-Opened names f (fd + 1) h (omega (arith, l)) in
      let (free, path, trimmed) = dir_of-preopened name fd in
      (
        preopened name fd ∷ dirs,
        ap (λ name. with_preopen name fd (preopens_loop prestat f)) e
            ∙ ap (λ r. r >>= λ dirs. ok (preopened name fd ∷ dirs)) found,
        (unfold preopened in refl, free, path, trimmed, open_dirs),
      )

  -- Where the descriptors from 3 on are open with a list of names and the next one is not, `find_preopens`
  -- ends within one round more than there are names. It returns them in order with their descriptors,
  -- each with exactly one slash in place of those at its end.
  pub find_preopens-AreOpen :
      (names : List Bytes) (fuel : ℕ)
      → Opened prestat 3 names
      → length names < fuel
      → (dirs : List Dirfd) × (find_preopens prestat fuel ≡ ok dirs) × AreOpen 3 names dirs
  unfolding find_preopens
  find_preopens-AreOpen names fuel h l = preopens_loop-Opened names fuel 3 h l
