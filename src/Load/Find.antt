-- ===== src/Load/Find.antt =====
-- What a package that was found has, and where it was found.
use mathlib.Core.Path.{subst}
use u_config.Base.{
  false, [], ◌∷◌, ◌++◌, Bytes, List, ◌≡◌, ◌≢◌, refl, ◌∙◌, arith, codes, Option, none, some, ok,
  >>=-eq-ok,
}
use u_config.S8.{s8equals, cuttail}
use u_config.S8.Laws.{s8equals_refl}
use u_config.Encode.{s8pathencode}
use u_config.FilePaths.{dirname, buildpath}
use u_config.Trie.{find}
use u_config.Env.{find-bind}
use u_config.Package.{Fields, Parsed, parsepackage}
use u_config.Load.{
  Filemap, found, not_found, Pkg, read_file, readpackage, Source, search_loop, locate_file,
  parsed_or_fail, missing_field, complete, located, findpackage,
}

-- The three fields that must be there, the file's text, and the variable for its directory.
pub record IsComplete (p : Pkg) : Type 0 where
  pub name : p.fields.name ≢ none
  pub version : p.fields.version ≢ none
  pub description : p.fields.description ≢ none
  pub contents : p.contents ≢ none
  pub pcfiledir : find (codes "pcfiledir") p.env ≡ some (some (s8pathencode (dirname p.path)))

complete-missing : (p q : Pkg) (m : Option Bytes) → complete p m ≡ ok q → (p ≡ q) × (m ≡ none)
unfolding complete
complete-missing p q none h = (ground arith, refl)
complete-missing p q (some f) h = cc

missing_field-none :
    (p : Fields)
    → missing_field p ≡ none
    → (p.name ≢ none) × (p.version ≢ none) × (p.description ≢ none)
unfolding missing_field
missing_field-none p h = ground arith

located-IsComplete :
    (s : Source) (r : Parsed) → missing_field r.fields ≡ none → IsComplete (located s r)
located-IsComplete s r h =
    let (n, v, d) = missing_field-none r.fields h in
    unfold located in
    record {
      name = n;
      version = v;
      description = d;
      contents = λ e. ground arith;
      pcfiledir =
          find-bind (codes "pcfiledir") (codes "pcfiledir") (s8pathencode (dirname s.path)) r.env
          ∙ rw (s8equals_refl (codes "pcfiledir")) refl;
    }

-- A package that `findpackage` returns is complete.
pub findpackage-IsComplete :
    (os_mapfile : Bytes → Filemap) (dirs : List Bytes) (realname : Bytes) (p : Pkg)
    → findpackage os_mapfile dirs realname ≡ ok p
    → IsComplete p
unfolding findpackage
findpackage-IsComplete os_mapfile dirs realname p h =
    let (s, e, h1) = >>=-eq-ok (locate_file os_mapfile dirs realname) _ h in
    let (r, e1, h2) = >>=-eq-ok (parsed_or_fail s.path (parsepackage s.contents)) _ h1 in
    let (same, none_missing) = complete-missing (located s r) p _ h2 in
    subst IsComplete same (located-IsComplete s r (unfold located in none_missing))

-- The files of a package's name under some directories, none of which is there.
abbrev pub AreMissing : (Bytes → Filemap) → Bytes → List Bytes → Type 0
AreMissing os_mapfile realname [] = Unit {0}
AreMissing os_mapfile realname (dir ∷ dirs) =
    (os_mapfile (buildpath dir realname) ≡ not_found) × AreMissing os_mapfile realname dirs

-- The first directory that has the file decides, whatever stands behind it.
pub search_loop_first :
    (os_mapfile : Bytes → Filemap) (realname text dir : Bytes) (before after : List Bytes)
    → s8equals realname (codes "pkg-config") ≡ false
    → AreMissing os_mapfile realname before
    → os_mapfile (buildpath dir realname) ≡ found text
    → search_loop os_mapfile (before ++ (dir ∷ after)) realname
      ≡ ok (record {
        path = cuttail (buildpath dir realname) 1;
        realname = realname;
        contents = text;
      })
unfolding search_loop readpackage read_file
search_loop_first os_mapfile realname text dir [] after n m h = rw n (rw (h, read_file) refl)
search_loop_first os_mapfile realname text dir (d ∷ before) after n m h =
    rw n (rw (m.0, read_file) (search_loop_first os_mapfile realname text dir before after n m.1 h))
