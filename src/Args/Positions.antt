-- ===== src/Args/Positions.antt =====
-- The positions that the trie holds, against the list of arguments.
use u_config.Base.{
  ℕ, ◌+◌, Bool, true, false, ◌&&◌, ◌||◌, [], ◌∷◌, ◌++◌, Bytes, List, ◌≡◌, refl, arith,
  if◌then◌else◌, length, length-append, ap, sym, ◌∙◌, Option, none, some, codes, Bool-cases, inl,
  inr,
}
use u_config.Base.Sign.{ℤ, pos, negsuc, is_zero}
use u_config.S8.{s8equals, startswith}
use u_config.S8.Laws.{s8equals_refl, s8equals_iff}
use u_config.Search.{append}
use u_config.Trie.{Trie, find, insert}
use u_config.Trie.Laws.{find-insert, find-assign, find-leaf, overwrite}
use u_config.Args.{Args, no_args, dedupable, position_in, place, appendarg, excludearg}
use u_config.Args.Index.{
  mem, first_index, last_index, mem-concat, first_index-concat, last_index-concat,
}

-- The position of `a` once the arguments `excluded` were left out and `l` were appended.
abbrev pub position_of : List Bytes → List Bytes → Bytes → Option ℤ
position_of excluded l a =
    if dedupable a && mem a l && startswith a (codes "-l")
    then some (pos (1 + last_index a l))
    else if mem a excluded
    then some (negsuc 0)
    else if dedupable a && mem a l
    then some (pos (1 + first_index a l))
    else none

pub record Holds (excluded l : List Bytes) (args : Args) : Type 0 where
  pub list : args.list ≡ l
  pub count : args.count ≡ length l
  pub positions : (a : Bytes) → find a args.positions ≡ position_of excluded l a

-- The position that `place` leaves behind.
abbrev placed : Bytes → ℕ → Option ℤ → ℤ
placed b position found =
    if is_zero (position_in found) || startswith b (codes "-l")
    then pos (1 + position)
    else position_in found

find-place_found :
    (b a : Bytes) (t : Trie ℤ)
    → find a (insert b (pos 0) t)
      ≡ (if s8equals b a then some (position_in (find b t)) else find a t)
find-place_found b a t = ground (arith, find-insert b a (pos 0) t)

find-place :
    (b a : Bytes) (position : ℕ) (t : Trie ℤ)
    → find a (place b position t)
      ≡ (if s8equals b a then some (placed b position (find b t)) else find a t)
unfolding place
find-place b a position t =
    let own : position_in (find b (insert b (pos 0) t)) ≡ position_in (find b t) =
      ap position_in (find-place_found b b t) ∙ rw (s8equals_refl b) refl in
    rw own (elim (Bool-cases (is_zero (position_in (find b t)) || startswith b (codes "-l"))) [
      | inl e ↦ rw e (
          find-assign b a (pos (1 + position)) (insert b (pos 0) t)
          ∙ rw (find-place_found b b t, s8equals_refl b, find-place_found b a t)
              (same_or _ _ _ (s8equals b a)))
      | inr e ↦ rw e (find-place_found b a t)
    ])
  where
    same_or :
        (x y z : Option ℤ) (c : Bool)
        → (if c then x else (if c then y else z)) ≡ (if c then x else z)
    same_or x y z true = refl
    same_or x y z false = refl

position_of-other :
    (excluded l : List Bytes) (b a : Bytes)
    → s8equals b a ≡ false
    → position_of excluded (l ++ (b ∷ [])) a ≡ position_of excluded l a
position_of-other excluded l b a e =
    ground (arith, mem-concat a b l, first_index-concat a b l, last_index-concat a b l)

position_of-same :
    (excluded l : List Bytes) (a : Bytes)
    → dedupable a ≡ true
    → some (placed a (length l) (position_of excluded l a)) ≡ position_of excluded (l ++ (a ∷ [])) a
position_of-same excluded l a d =
    ground
      (arith, mem-concat a a l, first_index-concat a a l, last_index-concat a a l, s8equals_refl a)

-- An argument that may be repeated has no position of its own.
position_of-plain :
    (excluded l m : List Bytes) (a : Bytes)
    → dedupable a ≡ false
    → position_of excluded l a ≡ position_of excluded m a
position_of-plain excluded l m a d = rw d refl

find-appendarg :
    (excluded l : List Bytes) (args : Args) (b a : Bytes)
    → Holds excluded l args
    → find a (appendarg args b).positions ≡ position_of excluded (l ++ (b ∷ [])) a
unfolding appendarg
find-appendarg excluded l args b a h = elim (Bool-cases (dedupable b)) [
  | inl d ↦ rw d (
      find-place b a args.count args.positions
      ∙ rw (h.positions b, h.positions a, h.count)
          (elim (Bool-cases (s8equals b a)) [
            | inl e ↦
                let same : b ≡ a = (s8equals_iff b a).0 e in
                rw e (rw (← same) (position_of-same excluded l b d))
            | inr e ↦ rw e (sym (position_of-other excluded l b a e))
          ]))
  | inr d ↦ rw d (
      h.positions a ∙ elim (Bool-cases (s8equals b a)) [
        | inl e ↦
            let same : b ≡ a = (s8equals_iff b a).0 e in
            position_of-plain excluded l (l ++ (b ∷ [])) a (rw same at d)
        | inr e ↦ sym (position_of-other excluded l b a e)
      ])
]

-- If the record of the last positions holds of the arguments that were written, then it holds after
-- one more argument is appended, with the excluded arguments as they were.
pub appendarg-Holds :
    (excluded l : List Bytes) (args : Args) (b : Bytes)
    → Holds excluded l args
    → Holds excluded (l ++ (b ∷ [])) (appendarg args b)
appendarg-Holds excluded l args b h = record {
  list = unfold appendarg append in ground (arith, h.list);
  count = unfold appendarg in omega (arith, h.count, length-append l (b ∷ []));
  positions = λ a. find-appendarg excluded l args b a h;
}

-- Leaving arguments out, before any is appended.
pub no_args-Holds : Holds [] [] no_args
no_args-Holds = record {
  list = refl;
  count = refl;
  positions = λ a. find-leaf a ∙ (unfold mem in ground arith);
}

position_of-nil :
    (excluded : List Bytes) (a : Bytes)
    → position_of excluded [] a ≡ (if mem a excluded then some (negsuc 0) else none)
unfolding mem
position_of-nil excluded a = ground arith

find-excludearg :
    (excluded : List Bytes) (args : Args) (b a : Bytes)
    → Holds excluded [] args
    → find a (excludearg args b).positions ≡ position_of (excluded ++ (b ∷ [])) [] a
unfolding excludearg
find-excludearg excluded args b a h =
    let own : find b (insert b (pos 0) args.positions)
        ≡ some (position_in (find b args.positions)) =
      find-place_found b b args.positions ∙ rw (s8equals_refl b) refl in
    find-assign b a (negsuc 0) (insert b (pos 0) args.positions)
    ∙ rw
        (
          own,
          find-place_found b a args.positions,
          h.positions a,
          position_of-nil excluded a,
          position_of-nil (excluded ++ (b ∷ [])) a,
          mem-concat a b excluded,
        )
        (cases (s8equals b a) (mem a excluded))
  where
    cases :
        (c m : Bool)
        → ◌≡◌ {A = Option ℤ}
            (if c
              then overwrite (some (position_in (find b args.positions))) (negsuc 0)
              else (if c
                  then some (position_in (find b args.positions))
                  else (if m then some (negsuc 0) else none)))
            (if m || c then some (negsuc 0) else none)
    cases c m = ground arith

-- Before an argument is written, if the record of the last positions holds of the excluded arguments,
-- then it holds after one more argument is excluded.
pub excludearg-Holds :
    (excluded : List Bytes) (args : Args) (b : Bytes)
    → Holds excluded [] args
    → Holds (excluded ++ (b ∷ [])) [] (excludearg args b)
excludearg-Holds excluded args b h = record {
  list = unfold excludearg in h.list;
  count = unfold excludearg in h.count;
  positions = λ a. find-excludearg excluded args b a h;
}
