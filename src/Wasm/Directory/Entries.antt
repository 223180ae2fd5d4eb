-- ===== src/Wasm/Directory/Entries.antt =====
-- The listing of a directory whose entries are as fd_readdir is documented to write them.
use u_config.Base.{
  ℕ, zero, suc, ◌+◌, ◌^◌, ◌≤◌, ◌<◌, true, false, [], ◌∷◌, ◌++◌, Bytes, List, if◌then◌else◌, length,
  take, drop, ltb, leb, ◌≡◌, ◌⊎◌, refl, sym, ap, ◌∙◌, arith, inl, inr, append_assoc, length-append,
  length-take, drop-append_at, drop-append, take-append,
}
use u_config.Platform.Little.{little, little-append}
use u_config.Platform.Directory.{add_package}
use u_config.Platform.Directory.Added.{added}
use u_config.Wasm.Directory.{scanned, entries_loop}

pub record Entry : Type 0 where
  pub cookie : Bytes
  pub inode : Bytes
  pub size : Bytes
  pub kind : Bytes
  pub name : Bytes

abbrev pub header_of : Entry → Bytes
header_of e = e.cookie ++ (e.inode ++ (e.size ++ e.kind))

abbrev pub bytes_of : Entry → Bytes
bytes_of e = header_of e ++ e.name

pub record IsEntry (e : Entry) : Type 0 where
  pub cookie : length e.cookie ≡ 8
  pub inode : length e.inode ≡ 8
  pub size : length e.size ≡ 4
  pub kind : length e.kind ≡ 4
  pub len : little 4 e.size ≡ length e.name
  pub bounded : length e.name < 2 ^ 31

length-header_of : (e : Entry) → IsEntry e → length (header_of e) ≡ 24
length-header_of e h = omega (
  arith,
  length-append e.cookie (e.inode ++ (e.size ++ e.kind)),
  length-append e.inode (e.size ++ e.kind),
  length-append e.size e.kind,
  h.cookie,
  h.inode,
  h.size,
  h.kind,
)

-- What the loop reads where an entry begins.
module _ (e : Entry) (rest : Bytes) (h : IsEntry e) where
  size-header_of : little 4 (drop 16 (header_of e ++ rest)) ≡ length e.name
  size-header_of =
      let parts : header_of e ++ rest ≡ (e.cookie ++ e.inode) ++ (e.size ++ (e.kind ++ rest)) =
        simp append_assoc in
      let front = length-append e.cookie e.inode in
      ap (λ s. little 4 (drop 16 s)) parts
      ∙ ap (little 4)
          (drop-append_at 16 (e.cookie ++ e.inode) _ (omega (arith, front, h.cookie, h.inode)))
      ∙ little-append 4 e.size _ h.size
      ∙ h.len

  cookie-header_of : little 8 (header_of e ++ rest) ≡ little 8 e.cookie
  cookie-header_of =
      ap (little 8) (append_assoc e.cookie _ rest) ∙ little-append 8 e.cookie _ h.cookie

  name-bytes_of : take (length e.name) (drop 24 (bytes_of e ++ rest)) ≡ e.name
  name-bytes_of =
      ap (λ s. take (length e.name) (drop 24 s)) (append_assoc (header_of e) e.name rest)
      ∙ ap (take (length e.name)) (drop-append_at 24 (header_of e) _ (length-header_of e h))
      ∙ take-append e.name rest

entries_loop_step :
    (f : ℕ) (files : List Bytes) (cookie : ℕ) (buf : Bytes) (len off size : ℕ)
    → little 4 (drop 16 (drop off buf)) ≡ size
    → size < 2 ^ 31
    → off < len
    → entries_loop (suc f) files cookie buf len off ≡ (
        if ltb len (off + 24 + size)
        then scanned files cookie
        else entries_loop f
            (add_package files (take size (drop 24 (drop off buf))))
            (little 8 (drop off buf))
            buf
            len
            (off + 24 + size))
unfolding entries_loop
entries_loop_step f files cookie buf len off size e l m =
    let more : leb len off ≡ false = ground arith in
    let small : ltb size (2 ^ 31) ≡ true = ground arith in rw (e, more, small) refl

abbrev pub AreEntries : List Entry → Type 0
AreEntries [] = Unit {0}
AreEntries (e ∷ es) = IsEntry e × AreEntries es

abbrev pub entries_bytes : List Entry → Bytes
entries_bytes [] = []
entries_bytes (e ∷ es) = bytes_of e ++ entries_bytes es

abbrev pub names_of : List Entry → List Bytes
names_of [] = []
names_of (e ∷ es) = e.name ∷ names_of es

abbrev pub last_cookie : ℕ → List Entry → ℕ
last_cookie cookie [] = cookie
last_cookie cookie (e ∷ es) = last_cookie (little 8 e.cookie) es

-- The end of a reply behind its whole entries: nothing, or an entry that is cut off in its name.
abbrev pub IsPart : Bytes → Type 0
IsPart part =
    (part ≡ [])
    ⊎ ((e : Entry) × (n : ℕ) × IsEntry e
        × (n < length e.name)
        × (part ≡ header_of e ++ take n e.name))

length-bytes_of : (e : Entry) → IsEntry e → length (bytes_of e) ≡ 24 + length e.name
length-bytes_of e h = omega (arith, length-append (header_of e) e.name, length-header_of e h)

module _ (files : List Bytes) (cookie : ℕ) (before behind : Bytes) where
  -- A reply that ends where an entry would begin, and one that ends in an entry.
  entries_loop-IsPart :
      (f : ℕ) (part : Bytes) (len : ℕ)
      → IsPart part
      → 0 < f
      → len ≡ length before + length part
      → entries_loop f files cookie (before ++ (part ++ behind)) len (length before)
        ≡ scanned files cookie
  unfolding entries_loop
  entries_loop-IsPart zero part len h p l = ground arith
  entries_loop-IsPart (suc f) part len (inl e) p l =
      let none_left : leb len (length before) ≡ true = ground (arith, ap length e) in
      rw none_left refl
  entries_loop-IsPart (suc f) part len (inr (e, n, h, short, cut)) p l =
      let buf = before ++ (part ++ behind) in
      let at : drop (length before) buf ≡ header_of e ++ (take n e.name ++ behind) =
        drop-append before (part ++ behind)
        ∙ ap (λ s. s ++ behind) cut
        ∙ append_assoc (header_of e) (take n e.name) behind in
      let size : little 4 (drop 16 (drop (length before) buf)) ≡ length e.name =
        ap (λ s. little 4 (drop 16 s)) at ∙ size-header_of e (take n e.name ++ behind) h in
      let total = ap length cut ∙ length-append (header_of e) (take n e.name) in
      let head = length-header_of e h in
      let over : ltb len (length before + 24 + length e.name) ≡ true =
        ground (arith, total, head, length-take n e.name) in
      entries_loop_step f files cookie buf len (length before) (length e.name) size h.bounded
        (omega (arith, total, head, l))
      ∙ rw over refl

module _ (e : Entry) (rest : Bytes) (before : Bytes) (h : IsEntry e) where
  buffer_at : drop (length before) (before ++ (bytes_of e ++ rest)) ≡ bytes_of e ++ rest
  buffer_at = drop-append before (bytes_of e ++ rest)

  size_at :
      little 4 (drop 16 (drop (length before) (before ++ (bytes_of e ++ rest)))) ≡ length e.name
  size_at =
      ap (λ s. little 4 (drop 16 s)) (buffer_at ∙ append_assoc (header_of e) e.name rest)
      ∙ size-header_of e (e.name ++ rest) h

  cookie_at : little 8 (drop (length before) (before ++ (bytes_of e ++ rest))) ≡ little 8 e.cookie
  cookie_at =
      ap (little 8) (buffer_at ∙ append_assoc (header_of e) e.name rest)
      ∙ cookie-header_of e (e.name ++ rest) h

  name_at :
      take (length e.name) (drop 24 (drop (length before) (before ++ (bytes_of e ++ rest))))
      ≡ e.name
  name_at = ap (λ s. take (length e.name) (drop 24 s)) buffer_at ∙ name-bytes_of e rest h

  -- One entry that is whole.
  entries_loop_entry :
      (f : ℕ) (files : List Bytes) (cookie len : ℕ)
      → length before + length (bytes_of e) ≤ len
      → entries_loop (suc f) files cookie (before ++ (bytes_of e ++ rest)) len (length before)
        ≡ entries_loop f
            (add_package files e.name)
            (little 8 e.cookie)
            ((before ++ bytes_of e) ++ rest)
            len
            (length (before ++ bytes_of e))
  entries_loop_entry f files cookie len l =
      let buf = before ++ (bytes_of e ++ rest) in
      let total = length-bytes_of e h in
      let fits : ltb len (length before + 24 + length e.name) ≡ false = ground (arith, total) in
      let end : length before + 24 + length e.name ≡ length (before ++ bytes_of e) =
        omega (arith, total, length-append before (bytes_of e)) in
      entries_loop_step f files cookie buf len (length before) (length e.name) size_at h.bounded
        (omega (arith, total, l))
      ∙ rw fits refl
      ∙ ap
          (λ name.
            entries_loop f (add_package files name) (little 8 (drop (length before) buf)) buf len
              (length before + 24 + length e.name))
          name_at
      ∙ ap
          (λ c.
            entries_loop f (add_package files e.name) c buf len
              (length before + 24 + length e.name))
          cookie_at
      ∙ ap (λ off. entries_loop f (add_package files e.name) (little 8 e.cookie) buf len off) end
      ∙ ap
          (λ b.
            entries_loop f (add_package files e.name) (little 8 e.cookie) b len
              (length (before ++ bytes_of e)))
          (sym (append_assoc before (bytes_of e) rest))

pub entries_loop-entries_bytes :
    (es : List Entry) (f : ℕ) (files : List Bytes) (cookie : ℕ) (before part behind : Bytes)
    (len : ℕ)
    → AreEntries es
    → IsPart part
    → length es < f
    → len ≡ length before + (length (entries_bytes es) + length part)
    → entries_loop f files cookie
        (before ++ (entries_bytes es ++ (part ++ behind)))
        len
        (length before)
      ≡ scanned (added files (names_of es)) (last_cookie cookie es)
unfolding added
entries_loop-entries_bytes [] f files cookie before part behind len h p l m =
    entries_loop-IsPart files cookie before behind f part len p (omega (arith, l))
      (omega (arith, m))
entries_loop-entries_bytes (e ∷ es) zero files cookie before part behind len h p l m = ground arith
entries_loop-entries_bytes (e ∷ es) (suc f) files cookie before part behind len (h, hs) p l m =
    let rest = entries_bytes es ++ (part ++ behind) in
    let size = length-append (bytes_of e) (entries_bytes es) in
    let front = length-append before (bytes_of e) in
    ap (λ s. entries_loop (suc f) files cookie (before ++ s) len (length before))
      (append_assoc (bytes_of e) (entries_bytes es) (part ++ behind))
    ∙ entries_loop_entry e rest before h f files cookie len (omega (arith, size, m))
    ∙ entries_loop-entries_bytes es f (add_package files e.name) (little 8 e.cookie)
        (before ++ bytes_of e) part behind len hs p (omega (arith, l))
        (omega (arith, size, front, m))

pub length-entries_bytes : (es : List Entry) → AreEntries es → length es ≤ length (entries_bytes es)
length-entries_bytes [] h = omega arith
length-entries_bytes (e ∷ es) (h, hs) = omega (
  arith,
  length-append (bytes_of e) (entries_bytes es),
  length-bytes_of e h,
  length-entries_bytes es hs,
)

pub length-some_entries :
    (es : List Entry) → 0 < length es → AreEntries es → length es < length (entries_bytes es)
length-some_entries [] n h = ground arith
length-some_entries (e ∷ es) n (h, hs) = omega (
  arith,
  length-append (bytes_of e) (entries_bytes es),
  length-bytes_of e h,
  length-entries_bytes es hs,
)
