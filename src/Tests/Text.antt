-- ===== src/Tests/Text.antt =====
-- Byte strings, paths, versions, encodings, tries and search lists.
use u_config.Base.{ℕ, [], ◌∷◌, ◌≡◌, ◌↔◌, refl, codes, none, some}
use u_config.Base.Sign.{pos}
use u_config.S8.{nexttoken}
use u_config.Version.{compareversions}
use u_config.Version.Key.{version_key}
use u_config.Version.Lex.{lex}
use u_config.Version.Order.{compareversions-lex, compareversions_eq_iff}
use u_config.FilePaths.{dirname}
use u_config.S8.{pathsep}
use u_config.Search.{Search, prependpath}
use u_config.Search.Laws.{components, prependpath_null}
use u_config.Trie.{Trie, leaf, insert, s8hash}
use u_config.Env.{Env, bind}

runs_of_digits : compareversions (codes "1.10") (codes "1.9") ≡ some (pos 1)
unfolding compareversions
runs_of_digits = refl

leading_zero : compareversions (codes "1.01") (codes "1.1") ≡ some (pos 1)
unfolding compareversions
leading_zero = refl

token : (nexttoken (codes " ,a >= 2")).head ≡ codes "a"
unfolding nexttoken
token = refl

parent : dirname (codes "/usr/lib/x.pc") ≡ codes "/usr/lib"
unfolding dirname pathsep
parent = refl

hash_of_a : s8hash (codes "a") ≡ 0xe40c292c
unfolding s8hash
hash_of_a = refl

compareversions-lex_example :
    compareversions (codes "1.2") (codes "1.10")
    ≡ some (lex (version_key (codes "1.2")) (version_key (codes "1.10")))
compareversions-lex_example = compareversions-lex (codes "1.2") (codes "1.10")

compareversions_eq_iff_example :
    (compareversions (codes "1.01") (codes "1.1") ≡ some (pos 0)) ↔ (codes "1.01" ≡ codes "1.1")
compareversions_eq_iff_example = compareversions_eq_iff (codes "1.01") (codes "1.1")

abbrev one_dir : Search
one_dir = record { list = codes "/z" ∷ []; delim = b':' }

prependpath_null_example : prependpath one_dir [] ≡ none
unfolding components
prependpath_null_example = prependpath_null one_dir [] (λ e. cc) refl

abbrev small : Trie ℕ
small = insert (codes "a") 1 leaf

abbrev local : Env
local = bind (codes "x") (codes "1") leaf
