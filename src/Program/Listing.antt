-- ===== src/Program/Listing.antt =====
-- `list` of src/u-config.c. The platform's `os_listing` and `os_mapfile` are parameters.
use u_config.Base.{
  ℕ, zero, suc, ◌-◌, Bool, [], ◌∷◌, ◌++◌, Bytes, List, length, ltb, if◌then◌else◌, codes,
}
use u_config.S8.{cuttail}
use u_config.FilePaths.{buildpath}
use u_config.Env.{Env}
use u_config.Expand
use u_config.Expand.{Expansion, done, stopped}
use u_config.Expand.Machine.{expand}
use u_config.Package.{Parsed, ParseResult, parse_ok, dupfield, dupvariable, parsepackage}
use u_config.Load.{Filemap, found, not_found, read_error, text_of}
use u_config.Program.{next}

-- Without the extension.
unfoldable pub listed_name : Bytes → Bytes
unfolding cuttail
listed_name file = if ltb 3 (length file) then cuttail file 3 else file

-- `for (iz i = name.len; i < 30; i++)`
abbrev pub spaces : ℕ → Bytes
spaces zero = []
spaces (suc n) = b' ' ∷ spaces n

-- What is printed for a package file that was parsed.
unfoldable pub list_package : Env → Bool → Bytes → Parsed → Expansion
unfolding expand
list_package g all name r =
    if all
    then next (done (name ++ (spaces (30 - length name) ++ codes " "))) (
        next (expand g r.env [] (text_of r.fields.name)) (
          next (done (codes " - "))
            (next (expand g r.env [] (text_of r.fields.description)) (done (codes "\n")))))
    else done (name ++ codes "\n")

-- A file that cannot be read or parsed is skipped.
unfoldable pub list_parsed : Env → Bool → Bytes → ParseResult → Expansion
unfolding list_package
list_parsed g all name (parse_ok r) = list_package g all name r
list_parsed g all name (dupfield key) = done []
list_parsed g all name (dupvariable key) = done []
list_parsed g all name ParseResult.out_of_fuel = Expand.out_of_fuel

unfoldable pub list_mapped : Env → Bool → Bytes → Filemap → Expansion
unfolding list_parsed parsepackage
list_mapped g all name (found contents) = list_parsed g all name (parsepackage contents)
list_mapped g all name not_found = done []
list_mapped g all name read_error = done []

module _ (os_listing : Bytes → List Bytes) (os_mapfile : Bytes → Filemap) where
  unfoldable pub list_files : Env → Bool → Bytes → List Bytes → Expansion
  unfolding list_mapped listed_name buildpath
  list_files g all dir [] = done []
  list_files g all dir (file ∷ files) =
      let name = listed_name file in
      next (list_mapped g all name (os_mapfile (buildpath dir name))) (list_files g all dir files)

  unfoldable pub list : Env → List Bytes → Bool → Expansion
  unfolding list_files
  list g [] all = done []
  list g (dir ∷ dirs) all =
      next (list_files g all dir (os_listing (dir ++ (0 ∷ [])))) (list g dirs all)
