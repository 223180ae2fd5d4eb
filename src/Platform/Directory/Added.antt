-- ===== src/Platform/Directory/Added.antt =====
-- The files of a listing, name by name.
use u_config.Base.{
  [], ◌∷◌, ◌++◌, Bytes, List, codes, ◌≡◌, refl, sym, ◌∙◌, append_assoc, append-nil, Bool-cases, inl,
  inr,
}
use u_config.Platform.{endswith, listing_loop}
use u_config.Platform.Directory.{add_package}

-- The packages of a list of names, behind those that are there.
unfoldable pub added : List Bytes → List Bytes → List Bytes
unfolding add_package
added files [] = files
added files (name ∷ names) = added (add_package files name) names

pub added-listing : (names files : List Bytes) → added files names ≡ files ++ listing_loop names
unfolding added add_package listing_loop
added-listing [] files = sym (append-nil files)
added-listing (name ∷ names) files = elim (Bool-cases (endswith name (codes ".pc"))) [
  | inl e ↦ rw e (
      added-listing names (files ++ (name ∷ []))
      ∙ append_assoc files (name ∷ []) (listing_loop names))
  | inr n ↦ rw n (added-listing names files)
]

pub added-append : (a b files : List Bytes) → added files (a ++ b) ≡ added (added files a) b
unfolding added
added-append [] b files = refl
added-append (name ∷ a) b files = added-append a b (add_package files name)
