-- ===== src/Ranges.antt =====
-- delete_range of mbbsd/record.c, on a directory of posts: a file of records fileheader_t (of
-- include/pttstruct.h), whose fields are all bytes and stand without gaps.
pub mod Posts
use Prim.Native.Nat.{bit_and}
use openptt.Prelude.{
  ℕ, zero, suc, ◌+◌, Bool, true, false, Option, none, some, List, [], ◌∷◌, ◌++◌, ltb, ◌==◌,
  if◌then◌else◌, ◌&&◌, ◌||◌, not, length, drop, get_or,
}
use openptt.Prelude.Bytes.{Bytes, str_eq, strn_case_eq}
use openptt.Text.{subject}
use openptt.Records.{
  Fs, Code, succeeded, failed, Answers, created, store, new_fn, lock_fn, read_rec, swap_in,
}

-- The places of the fields, with FNLEN, IDLEN and TTLEN.
abbrev pub fnlen : ℕ
fnlen = 33

abbrev pub title_at : ℕ
title_at = 33 + 1 + 14 + 6

abbrev pub filemode_at : ℕ
filemode_at = title_at + 65 + 4

-- sizeof(fileheader_t)
abbrev pub header_size : ℕ
header_size = filemode_at + 1

-- The C string at the front.
abbrev pub cstr : Bytes → Bytes
cstr [] = []
cstr (c ∷ s) = if c == 0 then [] else c ∷ cstr s

abbrev pub filename : Bytes → Bytes
filename r = cstr r

abbrev pub title_of : Bytes → Bytes
title_of r = cstr (drop title_at r)

abbrev pub filemode : Bytes → ℕ
filemode r = get_or r filemode_at 0

-- Up to the last slash of a path, and with it. (The code needs a slash there.)
abbrev pub dir_of : Bytes → Bytes
dir_of [] = []
dir_of (c ∷ s) = elim (dir_of s) as (λ _. Bytes) [
  | [] ↦ if c == b'/' then c ∷ [] else []
  | d ∷ ds ↦ c ∷ d ∷ ds
]

-- The test of delete_range for a post to stay: it is outside the range, or is marked, in the digest
-- or a directory; and if a title is given, it is not the post's.
unfoldable pub stays : (id1 id2 : ℕ) → Option Bytes → (is_dir : Bool) → (count : ℕ) → Bytes → Bool
unfolding str_eq subject
stays id1 id2 title is_dir count r =
    (ltb count id1
      || ltb id2 count
      || not (bit_and (filemode r) 2 == 0)
      || not (bit_and (filemode r) 4 == 0)
      || is_dir)
    && elim title as (λ _. Bool) [
      | none ↦ true
      | some t ↦ not (str_eq (subject t) (subject (title_of r)))
    ]

-- How the loop of delete_range ends.
pub data RangeCopy : Type 0 where
  range_copied : Bytes → Fs → RangeCopy
  range_failed : Fs → RangeCopy
  range_endless : RangeCopy

-- The loop of delete_range.
unfoldable pub range_loop :
    (fuel id1 id2 : ℕ)
    → Option Bytes
    → (dir : Bytes) → (count : ℕ) → (ℕ → Bool)
    → (inp out : Bytes) → Fs
    → RangeCopy
unfolding store
range_loop zero id1 id2 title dir count ok inp out fs = range_endless
range_loop (suc fuel) id1 id2 title dir count ok inp out fs = elim (read_rec header_size inp) [
  | none ↦ range_copied out fs
  | some (r, rest) ↦
      let path = dir ++ filename r in
      elim (stays id1 id2 title (fs.is_dir path) count r) [
        | true ↦ elim (ok count) [
          | true ↦ range_loop fuel id1 id2 title dir (count + 1) ok rest (out ++ r) fs
          | false ↦ range_failed fs
        ]
        | false ↦ range_loop fuel id1 id2 title dir (count + 1) ok rest out (store path none fs)
      ]
]

-- The two renames, where the loop may have unlinked one of the files.
unfoldable pub finish : Answers → Bytes → (old out : Bytes) → Fs → Code × Fs
unfolding store swap_in
finish a p old out fs = elim (fs.files p) [
  | none ↦ (failed, fs)
  | some _ ↦ elim (fs.files (new_fn p)) [
    | none ↦ swap_in (record a { renames_new = false }) p old out fs
    | some _ ↦ swap_in a p old out (store (new_fn p) (some out) fs)
  ]
]

-- delete_range; `none` is a loop that does not end.
pub delete_range : Answers → Bytes → (id1 id2 : ℕ) → Option Bytes → Fs → Option (Code × Fs)
unfolding store range_loop finish
delete_range a p id1 id2 title fs =
    if not a.lock_opens
    then some (failed, fs)
    else (let fs = store (lock_fn p) (some (created (lock_fn p) fs)) fs in
        elim (fs.files p) [
          | none ↦ some (failed, fs)
          | some b ↦ elim (fs.files (new_fn p)) [
            | some _ ↦ some (failed, fs)
            | none ↦
                if not a.new_opens
                then some (failed, fs)
                else (elim (range_loop (suc (length b)) id1 id2 title (dir_of p) 1 a.writes b []
                    (store (new_fn p) (some []) fs)) [
                      | range_copied out fs' ↦ some (finish a p b out fs')
                      | range_failed fs' ↦ some (failed, store (new_fn p) none fs')
                      | range_endless ↦ none
                    ])
          ]
        ])
