-- ===== src/Wasm/Directory/Serves.antt =====
-- The listing of a directory over all calls of fd_readdir.
use u_config.Base.{
  ℕ, zero, suc, ◌<◌, [], ◌∷◌, ◌++◌, Bytes, List, length, Option, some, ◌≡◌, refl, sym, ap, ◌∙◌,
  arith, length-append, append_assoc,
}
use u_config.Platform.{os_listing}
use u_config.Platform.Directory.Added.{added, added-listing, added-append}
use u_config.Wasm.Directory.{entries_loop, Listing, listed, with_entries, with_reply, readdir_loop}
use u_config.Wasm.Directory.Entries.{
  Entry, AreEntries, entries_bytes, names_of, last_cookie, IsPart, entries_loop-entries_bytes,
  length-some_entries,
}

-- The replies of the host from a cookie on: a call gives one whole entry at least, and perhaps the
-- beginning of the next one; behind the last entry it gives nothing.
abbrev pub Serves : (ℕ → Option Bytes) → ℕ → List (List Entry × Bytes) → Type 0
Serves fd_readdir cookie [] = fd_readdir cookie ≡ some []
Serves fd_readdir cookie ((es, part) ∷ replies) =
    (fd_readdir cookie ≡ some (entries_bytes es ++ part))
    × (0 < length es)
    × AreEntries es
    × IsPart part
    × Serves fd_readdir (last_cookie cookie es) replies

abbrev pub all_names : List (List Entry × Bytes) → List Bytes
all_names [] = []
all_names ((es, part) ∷ replies) = names_of es ++ all_names replies

with_reply-some :
    (reply behind : Bytes) (files : List Bytes) (cookie : ℕ) (next : List Bytes → ℕ → Listing)
    → 0 < length reply
    → with_reply (some reply) behind files cookie next
      ≡ with_entries
          (entries_loop (length reply) files cookie (reply ++ behind) (length reply) 0)
          next
unfolding with_reply
with_reply-some [] behind files cookie next h = ground arith
with_reply-some (c ∷ reply) behind files cookie next h = refl

module _ (fd_readdir : ℕ → Option Bytes) (behind : ℕ → Bytes) where
  readdir_loop_reply :
      (es : List Entry) (part : Bytes) (f : ℕ) (files : List Bytes) (cookie : ℕ)
      → fd_readdir cookie ≡ some (entries_bytes es ++ part)
      → 0 < length es
      → AreEntries es
      → IsPart part
      → readdir_loop fd_readdir behind (suc f) files cookie
        ≡ readdir_loop fd_readdir behind f (added files (names_of es)) (last_cookie cookie es)
  unfolding readdir_loop
  readdir_loop_reply es part f files cookie e n h p =
      let next = readdir_loop fd_readdir behind f in
      let reply = entries_bytes es ++ part in
      let size = length-append (entries_bytes es) part in
      let less = length-some_entries es n h in
      ap (λ r. with_reply r (behind cookie) files cookie next) e
      ∙ with_reply-some reply (behind cookie) files cookie next (omega (arith, size, less))
      ∙ ap (λ b. with_entries (entries_loop (length reply) files cookie b (length reply) 0) next)
          (append_assoc (entries_bytes es) part (behind cookie))
      ∙ ap (λ r. with_entries r next)
          (entries_loop-entries_bytes es (length reply) files cookie [] part (behind cookie)
            (length reply) h p (omega (arith, size, less)) (omega (arith, size)))
      ∙ (unfold with_entries in refl)

  readdir_loop-all_names :
      (replies : List (List Entry × Bytes)) (f : ℕ) (files : List Bytes) (cookie : ℕ)
      → Serves fd_readdir cookie replies
      → length replies < f
      → readdir_loop fd_readdir behind f files cookie ≡ listed (added files (all_names replies))
  unfolding added readdir_loop with_reply
  readdir_loop-all_names replies zero files cookie h l = ground arith
  readdir_loop-all_names [] (suc f) files cookie h l =
      ap (λ r. with_reply r (behind cookie) files cookie (readdir_loop fd_readdir behind f)) h
  readdir_loop-all_names ((es, part) ∷ replies) (suc f) files cookie (e, n, hs, p, h) l =
      readdir_loop_reply es part f files cookie e n hs p
      ∙ readdir_loop-all_names replies f (added files (names_of es)) (last_cookie cookie es) h
          (omega (arith, l))
      ∙ ap listed (sym (added-append (names_of es) (all_names replies) files))

  -- Where the host serves the entries of a directory, in any number of replies, each with one whole entry
  -- at least and perhaps cut off in the name of the next, and whatever stands in memory behind a reply,
  -- the loop ends within one call more than there are such replies, and lists the packages that POSIX
  -- lists for the names of these entries, in the same order.
  pub readdir_loop-os_listing :
      (replies : List (List Entry × Bytes)) (fuel : ℕ)
      → Serves fd_readdir 0 replies
      → length replies < fuel
      → readdir_loop fd_readdir behind fuel [] 0 ≡ listed (os_listing (some (all_names replies)))
  unfolding os_listing
  readdir_loop-os_listing replies fuel h l =
      readdir_loop-all_names replies fuel [] 0 h l
      ∙ ap listed (added-listing (all_names replies) [])
