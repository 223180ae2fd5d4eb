-- ===== src/Windows/Startup/Directories.antt =====
-- The directories that are searched on Windows.
use u_config.Base.{
  ℕ, suc, ◌<◌, length, length-append, [], ◌∷◌, ◌++◌, Bytes, List, ◌≡◌, refl, ap, sym, ◌∙◌, inl, inr,
  ◌==◌, Bool-cases, codes, Option, none, append_assoc, arith,
}
use u_config.S8.Cuts.{Lacks, lacks, Lacks-lacks}
use u_config.Search.{newsearch, appendpath}
use u_config.Search.Laws.{
  keep, components, components-cut, components-whole, appendpath-components, appendpath-delim,
}
use u_config.Settings.{start}
use u_config.Windows.Unicode.{Units}
use u_config.Windows.Startup.{
  slash_of, normalize, installdir, makepath, fromenv, or_empty, fixed_path, windows_config,
}

normalize-append : (s t : Bytes) → normalize (s ++ t) ≡ normalize s ++ normalize t
unfolding normalize
normalize-append [] t = refl
normalize-append (c ∷ s) t = ap (◌∷◌ (slash_of c)) (normalize-append s t)

Lacks-append : (delim : ℕ) (s t : Bytes) → Lacks delim s → Lacks delim t → Lacks delim (s ++ t)
Lacks-append delim [] t h k = k
Lacks-append delim (c ∷ s) t (n, h) k = (n, Lacks-append delim s t h k)

-- No byte becomes a semicolon.
Lacks-normalize : (s : Bytes) → Lacks b';' s → Lacks b';' (normalize s)
unfolding normalize slash_of
Lacks-normalize [] h = tt
Lacks-normalize (c ∷ s) (n, h) = elim (Bool-cases (c == b'\\')) [
  | inl e ↦ rw e (refl, Lacks-normalize s h)
  | inr e ↦ rw e (n, Lacks-normalize s h)
]

keep_some : (dir : Bytes) (rest : List Bytes) → 0 < length dir → keep dir rest ≡ dir ∷ rest
keep_some [] rest h = ground arith
keep_some (x ∷ dir) rest h = refl

length-normalize : (s : Bytes) → length (normalize s) ≡ length s
unfolding normalize
length-normalize [] = refl
length-normalize (c ∷ s) = ap suc (length-normalize s)

normalize_semicolon : (b : Bytes) → normalize (codes ";" ++ b) ≡ b';' ∷ normalize b
unfolding normalize slash_of
normalize_semicolon b = refl

components-two :
    (a b : Bytes)
    → Lacks b';' a
    → Lacks b';' b
    → 0 < length a
    → 0 < length b
    → components b';' (normalize (a ++ (codes ";" ++ b))) ≡ normalize a ∷ normalize b ∷ []
components-two a b ha hb na nb =
    ap (components b';')
      (normalize-append a (codes ";" ++ b) ∙ ap (λ r. normalize a ++ r) (normalize_semicolon b))
    ∙ components-cut b';' (normalize a) (normalize b) (Lacks-normalize a ha)
    ∙ ap (keep (normalize a)) (
        components-whole b';' (normalize b) (Lacks-normalize b hb)
        ∙ keep_some (normalize b) [] (omega (arith, length-normalize b, nb)))
    ∙ keep_some (normalize a) (normalize b ∷ []) (omega (arith, length-normalize a, na))

-- A directory below the one that the program is installed in.
abbrev pub below : Bytes → Units → Bytes → Bytes
below prefix exe end = installdir exe ++ (prefix ++ end)

Lacks-below :
    (prefix : Bytes) (exe : Units) (end : Bytes)
    → Lacks b';' (installdir exe)
    → Lacks b';' prefix
    → Lacks b';' end
    → Lacks b';' (below prefix exe end)
Lacks-below prefix exe end h k l =
    Lacks-append b';' (installdir exe) (prefix ++ end) h (Lacks-append b';' prefix end k l)

length-below :
    (prefix : Bytes) (exe : Units) (end : Bytes)
    → 0 < length end
    → 0 < length (below prefix exe end)
length-below prefix exe end h =
    omega (arith, h, length-append (installdir exe) (prefix ++ end), length-append prefix end)

-- `makepath` joins two directories with a semicolon.
makepath-below :
    (prefix : Bytes) (exe : Units) (lib share : Bytes)
    → makepath (installdir exe) (prefix ++ lib) (prefix ++ share)
      ≡ below prefix exe lib ++ (codes ";" ++ below prefix exe share)
unfolding makepath
makepath-below prefix exe lib share = sym (append_assoc (installdir exe) (prefix ++ lib) _)

-- On Windows, where PKG_CONFIG_LIBDIR is not set and neither the directory of the installation nor the
-- prefix of the build has a semicolon, the options start with these search directories, in this order:
-- the nonempty components of PKG_CONFIG_PATH with slashes for backslashes, then lib/pkgconfig and
-- share/pkgconfig below the installation, with slashes too.
pub start-windows_config :
    (prefix : Bytes) (exe : Units) (variable : Bytes → Option Units)
    → Lacks b';' (installdir exe)
    → Lacks b';' prefix
    → fromenv variable (codes "PKG_CONFIG_LIBDIR") ≡ none
    → (start (windows_config prefix exe variable)).search.list
      ≡ components b';' (normalize (or_empty (fromenv variable (codes "PKG_CONFIG_PATH"))))
        ++ (normalize (below prefix exe (codes "/lib/pkgconfig"))
            ∷ normalize (below prefix exe (codes "/share/pkgconfig"))
            ∷ [])
unfolding start windows_config fixed_path newsearch
start-windows_config prefix exe variable h k e =
    let env = normalize (or_empty (fromenv variable (codes "PKG_CONFIG_PATH"))) in
    let dirs = appendpath (newsearch b';') env in
    let lib = below prefix exe (codes "/lib/pkgconfig") in
    let share = below prefix exe (codes "/share/pkgconfig") in
    let two : components b';' (normalize (lib ++ (codes ";" ++ share)))
        ≡ normalize lib ∷ normalize share ∷ [] =
      components-two lib share
        (Lacks-below prefix exe (codes "/lib/pkgconfig") h k
          (Lacks-lacks b';' (codes "/lib/pkgconfig") (unfold lacks in refl)))
        (Lacks-below prefix exe (codes "/share/pkgconfig") h k
          (Lacks-lacks b';' (codes "/share/pkgconfig") (unfold lacks in refl)))
        (length-below prefix exe (codes "/lib/pkgconfig") (omega arith))
        (length-below prefix exe (codes "/share/pkgconfig") (omega arith)) in
    rw (e, makepath-below prefix exe (codes "/lib/pkgconfig") (codes "/share/pkgconfig"))
      (appendpath-components dirs (normalize (lib ++ (codes ";" ++ share)))
        ∙ rw
            (appendpath-delim (newsearch b';') env, two, appendpath-components (newsearch b';') env)
            refl)
