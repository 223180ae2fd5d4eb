-- ===== src/Search/Laws.antt =====
-- The search list holds the nonempty components of the paths it was given, in order.
use mathlib.Core.Path.{subst}
use u_config.Base.{
  ℕ, zero, suc, ◌≤◌, [], ◌∷◌, ◌++◌, Bytes, List, ◌≡◌, refl, ap, sym, ◌∙◌, inl, inr, ◌==◌,
  if◌then◌else◌, length, some, none, arith, append-nil, append_assoc, ◌≢◌,
}
use u_config.S8.{s8cut}
use u_config.S8.Cuts.{Lacks, s8cut_lem, length-s8cut_tail}
use u_config.Search.{
  Search, newsearch, append, append_dir, appendpath_loop, appendpath, transplant, prepend_to,
  prependpath, with_list,
}

-- A component that is read whole is kept unless it is empty.
abbrev pub keep : Bytes → List Bytes → List Bytes
keep [] rest = rest
keep (x ∷ dir) rest = (x ∷ dir) ∷ rest

-- The components of a path, byte by byte; `read` is what was read of the one at hand.
pub components_from : ℕ → Bytes → Bytes → List Bytes
components_from delim read [] = keep read []
components_from delim read (c ∷ path) =
    if c == delim
    then keep read (components_from delim [] path)
    else components_from delim (read ++ (c ∷ [])) path

unfoldable pub components : ℕ → Bytes → List Bytes
unfolding components_from
components delim path = components_from delim [] path

components_from-free :
    (delim : ℕ) (dir read rest : Bytes)
    → Lacks delim dir
    → components_from delim read (dir ++ rest) ≡ components_from delim (read ++ dir) rest
unfolding components_from
components_from-free delim [] read rest h = rw append-nil
components_from-free delim (c ∷ dir) read rest h =
    rw h.0 (components_from-free delim dir (read ++ (c ∷ [])) rest h.1 ∙ rw append_assoc)

pub components-cut :
    (delim : ℕ) (dir rest : Bytes)
    → Lacks delim dir
    → components delim (dir ++ (delim ∷ rest)) ≡ keep dir (components delim rest)
unfolding components
components-cut delim dir rest h =
    components_from-free delim dir [] (delim ∷ rest) h ∙ (unfold components_from in ground arith)

pub components-whole :
    (delim : ℕ) (dir : Bytes) → Lacks delim dir → components delim dir ≡ keep dir []
unfolding components
components-whole delim dir h =
    ap (components_from delim []) (sym (append-nil dir)) ∙ components_from-free delim dir [] [] h

append_dir-keep :
    (dirs : Search) (dir : Bytes) (rest : List Bytes)
    → (append_dir dirs dir).list ++ rest ≡ dirs.list ++ keep dir rest
unfolding append_dir append
append_dir-keep dirs [] rest = refl
append_dir-keep dirs (x ∷ dir) rest = append_assoc dirs.list _ rest

append_dir-delim : (dirs : Search) (dir : Bytes) → (append_dir dirs dir).delim ≡ dirs.delim
unfolding append_dir
append_dir-delim dirs [] = refl
append_dir-delim dirs (x ∷ dir) = refl

pub components-nil : (delim : ℕ) → components delim [] ≡ []
components-nil delim = unfold components components_from in refl

-- The cut of one round against the components of the whole.
pub components-s8cut :
    (delim : ℕ) (path : Bytes)
    → components delim path
      ≡ keep (s8cut path delim).head (components delim (s8cut path delim).tail)
components-s8cut delim path =
    let c = s8cut_lem path delim in
    elim c.parts [
      | inl (_, e) ↦ ap (components delim) e ∙ components-cut delim _ _ c.head_free
      | inr (_, h, t) ↦
          components-whole delim path (subst (Lacks delim) h c.head_free)
          ∙ cc (h, t, components-nil delim)
    ]

appendpath_loop-components :
    (f : ℕ) (dirs : Search) (path : Bytes)
    → length path ≤ f
    → (appendpath_loop f dirs path).list ≡ dirs.list ++ components dirs.delim path
unfolding appendpath_loop
appendpath_loop-components zero dirs [] h =
    unfold components components_from in sym (append-nil dirs.list)
appendpath_loop-components (suc f) dirs [] h =
    unfold components components_from in sym (append-nil dirs.list)
appendpath_loop-components zero dirs (x ∷ path) h = absurd (omega arith)
appendpath_loop-components (suc f) dirs (x ∷ path) h =
    let c = s8cut (x ∷ path) dirs.delim in
    appendpath_loop-components f (append_dir dirs c.head) c.tail
      (omega (arith, length-s8cut_tail x path dirs.delim))
    ∙ ap (λ d. (append_dir dirs c.head).list ++ components d c.tail) (append_dir-delim dirs c.head)
    ∙ append_dir-keep dirs c.head _
    ∙ ap (λ r. dirs.list ++ r) (sym (components-s8cut dirs.delim (x ∷ path)))

appendpath_loop-delim :
    (f : ℕ) (dirs : Search) (path : Bytes) → (appendpath_loop f dirs path).delim ≡ dirs.delim
unfolding appendpath_loop
appendpath_loop-delim zero dirs path = refl
appendpath_loop-delim (suc f) dirs [] = refl
appendpath_loop-delim (suc f) dirs (x ∷ path) =
    let c = s8cut (x ∷ path) dirs.delim in
    appendpath_loop-delim f (append_dir dirs c.head) c.tail ∙ append_dir-delim dirs c.head

pub appendpath-delim : (dirs : Search) (path : Bytes) → (appendpath dirs path).delim ≡ dirs.delim
unfolding appendpath
appendpath-delim dirs path = appendpath_loop-delim (length path) dirs path

-- Appending a path adds its nonempty components behind the directories that are there.
pub appendpath-components :
    (dirs : Search) (path : Bytes)
    → (appendpath dirs path).list ≡ dirs.list ++ components dirs.delim path
unfolding appendpath
appendpath-components dirs path = appendpath_loop-components (length path) dirs path (omega arith)

appendpath-newsearch :
    (delim : ℕ) (path : Bytes) → (appendpath (newsearch delim) path).list ≡ components delim path
unfolding newsearch
appendpath-newsearch delim path = appendpath-components (newsearch delim) path

prepend_to-components :
    (list : List Bytes) (delim : ℕ) (path : Bytes)
    → components delim path ≢ []
    → prepend_to list delim path ≡ some (components delim path ++ list)
unfolding prepend_to
prepend_to-components [] delim path h =
    ap some (appendpath-newsearch delim path ∙ sym (append-nil _))
prepend_to-components (d ∷ list) delim path h =
    rw (appendpath-newsearch delim path) (unfold transplant in ground arith)

-- Prepending a path puts its nonempty components in front of the directories that are there, if it
-- has any.
pub prependpath-components :
    (dirs : Search) (path : Bytes)
    → components dirs.delim path ≢ []
    → prependpath dirs path ≡ some (record dirs { list = components dirs.delim path ++ dirs.list })
unfolding prependpath
prependpath-components dirs path h =
    ap (with_list dirs) (prepend_to-components dirs.list dirs.delim path h)

prepend_to-null :
    (list : List Bytes) (delim : ℕ) (path : Bytes)
    → list ≢ []
    → components delim path ≡ []
    → prepend_to list delim path ≡ none
unfolding prepend_to
prepend_to-null [] delim path n h = absurd (n refl)
prepend_to-null (d ∷ list) delim path n h =
    ap (λ t. transplant t (d ∷ list)) (appendpath-newsearch delim path ∙ h)
    ∙ (unfold transplant in refl)

-- A path with no component, such as the empty one of `--with-path=`, makes `prependpath` write
-- through a null pointer wherever the list is not empty.
pub prependpath_null :
    (dirs : Search) (path : Bytes)
    → dirs.list ≢ []
    → components dirs.delim path ≡ []
    → prependpath dirs path ≡ none
unfolding prependpath
prependpath_null dirs path n h = ap (with_list dirs) (prepend_to-null dirs.list dirs.delim path n h)
