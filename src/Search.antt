-- ===== src/Search.antt =====
-- The list of search directories of src/u-config.c: `appendpath` and `prependpath`.
pub mod Laws
use u_config.Base.{
  ℕ, zero, suc, Bool, true, false, [], ◌∷◌, ◌++◌, Bytes, List, if◌then◌else◌, length, Option, none,
  some,
}
use u_config.S8.{s8cut}

-- `s8list` by its strings; `append` adds at the tail pointer.
pub record Search : Type 0 where
  pub list : List Bytes
  pub delim : ℕ

unfoldable pub newsearch : ℕ → Search
newsearch delim = record { list = []; delim = delim }

unfoldable pub append : List Bytes → Bytes → List Bytes
append list str = list ++ (str ∷ [])

-- `if (dir.len) append(&dirs->list, dir, perm);`
unfoldable pub append_dir : Search → Bytes → Search
unfolding append
append_dir dirs [] = dirs
append_dir dirs (x ∷ dir) = record dirs { list = append dirs.list (x ∷ dir) }

-- `while (path.len)`: every round cuts a byte off at least, so that the length is enough fuel.
unfoldable pub appendpath_loop : ℕ → Search → Bytes → Search
unfolding s8cut append_dir
appendpath_loop zero dirs path = dirs
appendpath_loop (suc f) dirs [] = dirs
appendpath_loop (suc f) dirs (x ∷ path) =
    let c = s8cut (x ∷ path) dirs.delim in appendpath_loop f (append_dir dirs c.head) c.tail

unfoldable pub appendpath : Search → Bytes → Search
unfolding appendpath_loop
appendpath dirs path = appendpath_loop (length path) dirs path

-- `none` is the write through the tail pointer of a list that nothing was appended to, a null
-- pointer.
unfoldable pub transplant : List Bytes → List Bytes → Option (List Bytes)
transplant [] rest = none
transplant (d ∷ front) rest = some ((d ∷ front) ++ rest)

unfoldable pub prepend_to : List Bytes → ℕ → Bytes → Option (List Bytes)
unfolding appendpath transplant newsearch
prepend_to [] delim path = some (appendpath (newsearch delim) path).list
prepend_to (d ∷ list) delim path = transplant (appendpath (newsearch delim) path).list (d ∷ list)

unfoldable pub with_list : Search → Option (List Bytes) → Option Search
with_list dirs none = none
with_list dirs (some list) = some (record dirs { list = list })

unfoldable pub prependpath : Search → Bytes → Option Search
unfolding prepend_to with_list
prependpath dirs path = with_list dirs (prepend_to dirs.list dirs.delim path)
