-- ===== src/Tests/Arguments.antt =====
-- Arguments: quotes, repeated arguments and their output.
use u_config.Base.{false, [], ◌∷◌, ◌++◌, Bytes, List, ◌≡◌, refl, codes, some}
use u_config.Dequote.{double, outside, dequote_loop, dequote}
use u_config.Dequote.Laws.{dequote_backslash}
use u_config.Dequote.Safe.{IsSafe, dequote-IsSafe}
use u_config.Trie.{find, insert, assign}
use u_config.Args.{Args, no_args, appendarg, excludearg}
use u_config.Args.Positions.{Holds, no_args-Holds, appendarg-Holds, excludearg-Holds}
use u_config.Writer.{FieldWriter, any, writeargs}
use u_config.Writer.Fields.{append_all, append_all-Holds}

quoted :
    dequote (codes " '-I/a b' -lm") ≡ some (record { arg = codes "-I/a\\ b"; tail = codes " -lm" })
unfolding dequote
quoted = refl

dequote-IsSafe_example : IsSafe (codes "-I/a\\ b")
unfolding dequote
dequote-IsSafe_example =
    dequote-IsSafe (codes "'-I/a b'") (record { arg = codes "-I/a\\ b"; tail = [] }) refl

dequote_backslash_example :
    dequote_loop double false [] (codes "\\\"b")
    ≡ dequote_loop outside false ([] ++ codes "\\\\") (codes "b")
dequote_backslash_example = dequote_backslash [] (codes "b")

-- Two libraries, one of them twice, behind an excluded directory.
abbrev listed : List Bytes
listed = codes "-I/a" ∷ codes "-lz" ∷ codes "-I/b" ∷ codes "-lz" ∷ codes "-I/b" ∷ []

abbrev excluding : Args
excluding = excludearg no_args (codes "-I/a")

excluding-Holds : Holds (codes "-I/a" ∷ []) [] excluding
excluding-Holds = excludearg-Holds [] no_args (codes "-I/a") no_args-Holds

appendarg-Holds_example :
    Holds (codes "-I/a" ∷ []) ([] ++ (codes "-lz" ∷ [])) (appendarg excluding (codes "-lz"))
appendarg-Holds_example =
    appendarg-Holds (codes "-I/a" ∷ []) [] excluding (codes "-lz") excluding-Holds

abbrev gathered : Args
gathered = append_all excluding listed

gathered-Holds : Holds (codes "-I/a" ∷ []) listed gathered
gathered-Holds = append_all-Holds (codes "-I/a" ∷ []) [] listed excluding excluding-Holds

abbrev writer : FieldWriter
writer = record { args = gathered; filter = any; msvc = false; delim = 0 }

written : writeargs writer 0 ≡ record { out = codes "-I/b -lz"; argcount = 2 }
unfolding writeargs appendarg excludearg find insert assign
written = refl
