-- ===== src/Platform/Directory/Records.antt =====
-- The listing of a directory whose records are as getdents64 is documented to write them.
use u_config.Base.{
  ℕ, zero, suc, ◌≤◌, ◌<◌, [], ◌∷◌, ◌++◌, Bytes, List, length, drop, some, Result, ok, ◌>>=◌, ◌≡◌,
  refl, sym, ap, ◌∙◌, arith, drop-append_at, append_assoc, length-append,
}
use u_config.S8.{s8fromcstr}
use u_config.S8.Cuts.{Lacks}
use u_config.Platform.{os_listing}
use u_config.Platform.Little.{little, little-append}
use u_config.Platform.Directory.Added.{added, added-listing, added-append}
use u_config.Platform.Directory.{
  dents_len, dents_name, add_package, dents_loop, with_records, getdents_loop, linux_listing,
}

-- A record: the inode and the offset, the length, the type, the name and its terminator, and what fills
-- the record up.
pub record Dirent : Type 0 where
  pub numbers : Bytes
  pub size : Bytes
  pub kind : ℕ
  pub name : Bytes
  pub fill : Bytes

abbrev pub bytes_of : Dirent → Bytes
bytes_of d = d.numbers ++ (d.size ++ (d.kind ∷ (d.name ++ (0 ∷ d.fill))))

pub record IsDirent (d : Dirent) : Type 0 where
  pub numbers : length d.numbers ≡ 16
  pub size : length d.size ≡ 2
  pub len : little 2 d.size ≡ length (bytes_of d)
  pub name : Lacks 0 d.name

abbrev pub AreDirents : List Dirent → Type 0
AreDirents [] = Unit {0}
AreDirents (d ∷ ds) = IsDirent d × AreDirents ds

abbrev pub batch_bytes : List Dirent → Bytes
batch_bytes [] = []
batch_bytes (d ∷ ds) = bytes_of d ++ batch_bytes ds

abbrev pub names_of : List Dirent → List Bytes
names_of [] = []
names_of (d ∷ ds) = d.name ∷ names_of ds

s8fromcstr-name : (s t : Bytes) → Lacks 0 s → s8fromcstr (s ++ (0 ∷ t)) ≡ s
unfolding s8fromcstr
s8fromcstr-name [] t h = refl
s8fromcstr-name (c ∷ s) t (n, h) = rw n (ap (◌∷◌ c) (s8fromcstr-name s t h))

module _ (d : Dirent) (rest : Bytes) (h : IsDirent d) where
  behind_numbers :
      drop 16 (bytes_of d ++ rest) ≡ d.size ++ ((d.kind ∷ (d.name ++ (0 ∷ d.fill))) ++ rest)
  behind_numbers =
      ap (drop 16) (append_assoc d.numbers _ rest)
      ∙ drop-append_at 16 d.numbers _ h.numbers
      ∙ append_assoc d.size _ rest

  dents_len-bytes_of : dents_len (bytes_of d ++ rest) ≡ length (bytes_of d)
  unfolding dents_len
  dents_len-bytes_of = ap (little 2) behind_numbers ∙ little-append 2 d.size _ h.size ∙ h.len

  -- What stands before the name.
  front : Bytes
  front = d.numbers ++ (d.size ++ (d.kind ∷ []))

  length-front : length front ≡ 19
  unfolding front
  length-front = omega (
    arith,
    length-append d.numbers (d.size ++ (d.kind ∷ [])),
    length-append d.size (d.kind ∷ []),
    h.numbers,
    h.size,
  )

  dents_name-bytes_of : dents_name (bytes_of d ++ rest) ≡ d.name
  unfolding dents_name front
  dents_name-bytes_of =
      let parts : bytes_of d ++ rest ≡ front ++ (d.name ++ (0 ∷ (d.fill ++ rest))) =
        simp append_assoc in
      ap (λ s. s8fromcstr (drop 19 s)) parts
      ∙ ap s8fromcstr (drop-append_at 19 front _ length-front)
      ∙ s8fromcstr-name d.name (d.fill ++ rest) h.name

length-bytes_of : (d : Dirent) → 0 < length (bytes_of d)
length-bytes_of d = omega (
  arith,
  length-append d.numbers (d.size ++ (d.kind ∷ (d.name ++ (0 ∷ d.fill)))),
  length-append d.size (d.kind ∷ (d.name ++ (0 ∷ d.fill))),
)

dents_loop_step :
    (f : ℕ) (files : List Bytes) (buf : Bytes)
    → 0 < length buf
    → dents_loop (suc f) files buf
      ≡ dents_loop f (add_package files (dents_name buf)) (drop (dents_len buf) buf)
unfolding dents_loop
dents_loop_step f files [] h = ground arith
dents_loop_step f files (c ∷ buf) h = refl

dents_loop_end : (f : ℕ) (files : List Bytes) → dents_loop f files [] ≡ ok files
unfolding dents_loop
dents_loop_end zero files = refl
dents_loop_end (suc f) files = refl

dents_loop-batch_bytes :
    (f : ℕ) (ds : List Dirent) (files : List Bytes)
    → AreDirents ds
    → length (batch_bytes ds) ≤ f
    → dents_loop f files (batch_bytes ds) ≡ ok (added files (names_of ds))
unfolding added
dents_loop-batch_bytes f [] files h l = dents_loop_end f files
dents_loop-batch_bytes zero (d ∷ ds) files h l =
    ground (arith, length-append (bytes_of d) (batch_bytes ds), length-bytes_of d)
dents_loop-batch_bytes (suc f) (d ∷ ds) files (h, hs) l =
    let size = length-append (bytes_of d) (batch_bytes ds) in
    let some_bytes = length-bytes_of d in
    dents_loop_step f files (bytes_of d ++ batch_bytes ds) (omega (arith, size, some_bytes))
    ∙ ap
        (λ n.
          dents_loop f (add_package files (dents_name (bytes_of d ++ batch_bytes ds)))
            (drop n (bytes_of d ++ batch_bytes ds)))
        (dents_len-bytes_of d (batch_bytes ds) h)
    ∙ ap (λ s. dents_loop f (add_package files (dents_name (bytes_of d ++ batch_bytes ds))) s)
        (drop-append_at (length (bytes_of d)) (bytes_of d) (batch_bytes ds) refl)
    ∙ ap (λ name. dents_loop f (add_package files name) (batch_bytes ds))
        (dents_name-bytes_of d (batch_bytes ds) h)
    ∙ dents_loop-batch_bytes f ds (add_package files d.name) hs (omega (arith, size, some_bytes, l))

-- The replies of the kernel from a call on: records, one at least in a call, and nothing at the end.
abbrev pub Serves : (ℕ → Bytes) → ℕ → List (List Dirent) → Type 0
Serves getdents n [] = getdents n ≡ []
Serves getdents n (ds ∷ batches) =
    (getdents n ≡ batch_bytes ds)
    × (0 < length ds)
    × AreDirents ds
    × Serves getdents (suc n) batches

abbrev pub all_names : List (List Dirent) → List Bytes
all_names [] = []
all_names (ds ∷ batches) = names_of ds ++ all_names batches

with_records-some :
    (buf : Bytes) (files : List Bytes) (next : List Bytes → Result (List Bytes))
    → 0 < length buf
    → with_records buf files next ≡ (dents_loop (length buf) files buf >>= next)
unfolding with_records
with_records-some [] files next h = ground arith
with_records-some (c ∷ buf) files next h = refl

module _ (getdents : ℕ → Bytes) where
  getdents_loop-all_names :
      (batches : List (List Dirent)) (f n : ℕ) (files : List Bytes)
      → Serves getdents n batches
      → length batches < f
      → getdents_loop getdents f n files ≡ ok (added files (all_names batches))
  unfolding added getdents_loop
  getdents_loop-all_names [] zero n files h l = ground arith
  getdents_loop-all_names [] (suc f) n files h l =
      ap (λ buf. with_records buf files (getdents_loop getdents f (suc n))) h
      ∙ (unfold with_records in refl)
  getdents_loop-all_names (ds ∷ batches) zero n files h l = ground arith
  getdents_loop-all_names ([] ∷ batches) (suc f) n files (e, some_records, ds, h) l = ground arith
  getdents_loop-all_names ((d ∷ ds) ∷ batches) (suc f) n files (e, some_records, hs, h) l =
      let size = length-append (bytes_of d) (batch_bytes ds) in
      let some_bytes = length-bytes_of d in
      ap (λ buf. with_records buf files (getdents_loop getdents f (suc n))) e
      ∙ with_records-some (batch_bytes (d ∷ ds)) files (getdents_loop getdents f (suc n))
          (omega (arith, size, some_bytes))
      ∙ ap (λ r. r >>= λ files'. getdents_loop getdents f (suc n) files')
          (dents_loop-batch_bytes (length (batch_bytes (d ∷ ds))) (d ∷ ds) files hs (omega arith))
      ∙ getdents_loop-all_names batches f (suc n) (added files (names_of (d ∷ ds))) h
          (omega (arith, l))
      ∙ ap ok (sym (added-append (names_of (d ∷ ds)) (all_names batches) files))

  -- Where the kernel serves the records of a directory, in any number of calls with any number of records
  -- each, and one more round than there are such calls is allowed, Linux lists the packages that POSIX
  -- lists for the names of these records, in the same order.
  pub linux_listing-os_listing :
      (batches : List (List Dirent)) (fuel : ℕ)
      → Serves getdents 0 batches
      → length batches < fuel
      → linux_listing fuel (some getdents) ≡ ok (os_listing (some (all_names batches)))
  unfolding linux_listing os_listing
  linux_listing-os_listing batches fuel h l =
      getdents_loop-all_names batches fuel 0 [] h l ∙ ap ok (added-listing (all_names batches) [])
