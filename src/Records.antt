-- ===== src/Records.antt =====
-- mbbsd/record.c: files of records of one size. A file is its bytes, and a path that names no file
-- has `none`. What the system answers to a call that may fail for reasons outside the files is a
-- record of `Answers`. Locks, which one process alone never waits for, are left out.
pub mod Slices
pub mod Access
pub mod Delete
pub mod Shift
use openptt.Prelude.{
  ℕ, zero, suc, ◌+◌, ◌-◌, ◌*◌, ◌/◌, ◌%◌, Bool, true, false, Option, none, some, List, [], ◌∷◌, ◌++◌,
  ltb, leb, ◌==◌, if◌then◌else◌, ◌&&◌, ◌||◌, not, length, take, drop, replicate,
}
use openptt.Prelude.Bytes.{Bytes, codes, str_eq, strn_case_eq}

pub record Fs : Type 0 where
  pub files : Bytes → Option Bytes
  pub is_dir : Bytes → Bool

-- 0 and -1.
pub data Code : Type 0 where
  succeeded failed : Code

-- What the system answers: may the lock file and the new file be opened, does the write of the
-- record that is read as number `n` succeed, do the two renames.
pub record Answers : Type 0 where
  pub lock_opens : Bool
  pub new_opens : Bool
  pub writes : ℕ → Bool
  pub renames_old : Bool
  pub renames_new : Bool

abbrev pub update : (Bytes → Option Bytes) → Bytes → Option Bytes → Bytes → Option Bytes
update f p v q = if str_eq p q then v else f q

unfoldable pub store : Bytes → Option Bytes → Fs → Fs
unfolding str_eq
store p v fs = record fs { files = update fs.files p v }

-- read(fd, buf, size) == size, with what follows in the file.
abbrev pub read_rec : ℕ → Bytes → Option (Bytes × Bytes)
read_rec size b = if leb size (length b) then some (take size b, drop size b) else none

-- The same after lseek to `at`.
abbrev pub read_at : (size pos : ℕ) → Bytes → Option Bytes
read_at size pos b = if leb (pos + size) (length b) then some (take size (drop pos b)) else none

-- write after lseek to `pos`; a gap beyond the end reads as zeros.
abbrev pub write_at : ℕ → Bytes → Bytes → Bytes
write_at pos r b = take pos (b ++ replicate (pos - length b) 0) ++ (r ++ drop (pos + length r) b)

-- st.st_size / size of an existing file.
pub get_num_records : Bytes → ℕ → Fs → ℕ
get_num_records p size fs = elim (fs.files p) [ none ↦ 0 | some b ↦ length b / size ]

-- get_record; `none` is -1. With id < 1 the file is not opened, and the reads fail.
pub get_record : Bytes → ℕ → ℕ → Fs → Option Bytes
get_record p size zero fs = none
get_record p size (suc id) fs = elim (fs.files p) [
  | none ↦ none
  | some b ↦ read_at size (size * id) b
]

-- get_records: the number of whole records read, and the bytes in the buffer.
pub get_records : Bytes → (size id number : ℕ) → Fs → Option (ℕ × Bytes)
get_records p size zero number fs = none
get_records p size (suc id) number fs = elim (fs.files p) [
  | none ↦ none
  | some b ↦ let got = take (size * number) (drop (size * id) b) in some (length got / size, got)
]

-- The contents that open with O_CREAT finds.
abbrev pub created : Bytes → Fs → Bytes
created p fs = elim (fs.files p) [ none ↦ [] | some b ↦ b ]

-- substitute_record of a record `r` with length `size`; `opens` is the system's answer.
pub substitute_record : Bool → Bytes → Bytes → ℕ → Fs → Code × Fs
unfolding store
substitute_record opens p r zero fs = (failed, fs)
substitute_record opens p r (suc id) fs =
    if opens
    then (succeeded, store p (some (write_at (length r * id) r (created p fs))) fs)
    else (failed, fs)

-- do_append
pub do_append : Bool → Bytes → Bytes → Fs → Code × Fs
unfolding store
do_append opens p r fs =
    if opens then (succeeded, store p (some (created p fs ++ r)) fs) else (failed, fs)

-- nolfilename
abbrev pub new_fn : Bytes → Bytes
new_fn p = p ++ codes ".new"

abbrev pub old_fn : Bytes → Bytes
old_fn p = p ++ codes ".old"

abbrev pub lock_fn : Bytes → Bytes
lock_fn p = p ++ codes ".lock"

-- How a copying loop ends: with the new file's bytes, by a failing write, or not at all.
pub data Copy : Type 0 where
  copied : Bytes → Copy
  write_failed endless : Copy

-- The loop of delete_record.
unfoldable pub copy_others : (fuel size id count : ℕ) → (ℕ → Bool) → (inp out : Bytes) → Copy
copy_others zero size id count ok inp out = endless
copy_others (suc fuel) size id count ok inp out = elim (read_rec size inp) [
  | none ↦ copied out
  | some (r, rest) ↦ elim (id == count) [
    | true ↦ copy_others fuel size id (count + 1) ok rest out
    | false ↦ elim (ok count) [
      | true ↦ copy_others fuel size id (count + 1) ok rest (out ++ r)
      | false ↦ write_failed
    ]
  ]
]

-- The two renames that end delete_record and delete_range.
unfoldable pub swap_in : Answers → Bytes → (old new : Bytes) → Fs → Code × Fs
swap_in a p old new fs =
    if a.renames_old
    then (let moved = store p none (store (old_fn p) (some old) fs) in
        if a.renames_new
        then (succeeded, store (new_fn p) none (store p (some new) moved))
        else (failed, moved))
    else (failed, fs)

-- delete_record; `none` is a loop that does not end, as with size 0.
unfoldable pub delete_record : Answers → Bytes → (size id : ℕ) → Fs → Option (Code × Fs)
delete_record a p size id fs =
    if not a.lock_opens
    then some (failed, fs)
    else (let fs = store (lock_fn p) (some (created (lock_fn p) fs)) fs in
        elim (fs.files p) [
          | none ↦ some (failed, fs)
          | some b ↦ elim (fs.files (new_fn p)) [
            | some _ ↦ some (failed, fs)
            | none ↦
                if not a.new_opens
                then some (failed, fs)
                else (elim (copy_others (suc (length b)) size id 1 a.writes b []) [
                  | copied out ↦ some (swap_in a p b out (store (new_fn p) (some out) fs))
                  | write_failed ↦ some (failed, store (new_fn p) none fs)
                  | endless ↦ none
                ])
          ]
        ])

-- search_rec: the number of the first record that passes the check, or 0.
unfoldable pub search_loop : (fuel size ans : ℕ) → (Bytes → Bool) → Bytes → Option ℕ
search_loop zero size ans check b = none
search_loop (suc fuel) size ans check b = elim (read_rec size b) [
  | none ↦ some 0
  | some (r, rest) ↦ elim (check r) [
    | true ↦ some (ans + 1)
    | false ↦ search_loop fuel size (ans + 1) check rest
  ]
]

unfoldable pub search_rec : Bytes → ℕ → (Bytes → Bool) → Fs → Option ℕ
search_rec p size check fs = elim (fs.files p) [
  | none ↦ some 0
  | some b ↦ search_loop (suc (length b)) size 0 check b
]

-- The loop of delete_file that moves records one place down, from `src * size` to `dst * size`,
-- until `left` are moved or a read or a write fails. `writes` is whether the write to a place succeeds;
-- one that fails writes nothing.
unfoldable pub shift_down : (writes : ℕ → Bool) → (left size src dst : ℕ) → Bytes → Bytes
shift_down writes zero size src dst b = b
shift_down writes (suc left) size src dst b = elim (read_at size (src * size) b) [
  | none ↦ b
  | some r ↦ elim (writes dst) [
    | true ↦ shift_down writes left size (src + 1) (dst + 1) (write_at (dst * size) r b)
    | false ↦ b
  ]
]

-- The number, from `ent` on, of the first record that passes the check.
unfoldable pub scan : (fuel size ent : ℕ) → (Bytes → Bool) → Bytes → Option ℕ
scan zero size ent check b = none
scan (suc fuel) size ent check b = elim (read_rec size b) [
  | none ↦ none
  | some (r, rest) ↦ elim (check r) [
    | true ↦ some ent
    | false ↦ scan fuel size (ent + 1) check rest
  ]
]

abbrev pub check_at : (size pos : ℕ) → (Bytes → Bool) → Bytes → Bool
check_at size pos check b = elim (read_at size pos b) [ none ↦ false | some r ↦ check r ]

-- delete_file on the contents of the file; `none` is -1. The first loop moves record `i` to `i - 1`,
-- the second record `i + 1` to `i`, both from `i = ent` on.
-- The file loses its last place also where a write has failed.
pub delete_in : (writes : ℕ → Bool) → (size ent : ℕ) → (Bytes → Bool) → Bytes → Option Bytes
delete_in writes size ent check b =
    let n = length b / size in
    if check_at size (size * (ent - 1)) check b
    then some (take (size * (n - 1)) (shift_down writes (n - ent) size ent (ent - 1) b))
    else (elim (scan (suc (length b)) size 1 check b) [
      | none ↦ none
      | some m ↦ some (take (size * (n - 1)) (shift_down writes (n - m) size (m + 1) m b))
    ])

pub delete_file : (writes : ℕ → Bool) → Bytes → (size ent : ℕ) → (Bytes → Bool) → Fs → Code × Fs
unfolding store
delete_file writes p size zero check fs = (failed, fs)
delete_file writes p size (suc ent) check fs = elim (fs.files p) [
  | none ↦ (failed, fs)
  | some b ↦ elim (delete_in writes size (suc ent) check b) [
    | none ↦ (failed, fs)
    | some b' ↦ (succeeded, store p (some b') fs)
  ]
]
