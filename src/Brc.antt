-- ===== src/Brc.antt =====
-- mbbsd/board.c: what a user has read. For each board the file .boardrc holds the times of the posts
-- read, latest first: a record of BRC_STRLEN bytes of name, a byte with the number of times, and the
-- times as ints of four bytes, the low byte first. Times are not negative.
pub mod Times
pub mod Codec
pub mod Saved
pub mod Items
pub mod File
use openptt.Prelude.{
  ℕ, zero, suc, ◌+◌, ◌-◌, ◌*◌, ◌/◌, ◌%◌, Bool, true, false, Option, none, some, List, [], ◌∷◌, ◌++◌,
  ltb, leb, ◌==◌, if◌then◌else◌, ◌&&◌, ◌||◌, not, length, take, drop, get_or, replicate,
}
use openptt.Prelude.Bytes.{Bytes, str_eq}
use openptt.Ranges.{cstr}

-- BRC_STRLEN, BRC_MAXNUM, BRC_MAXSIZE and BRC_ITEMSIZE.
abbrev pub brc_strlen : ℕ
brc_strlen = 15

abbrev pub brc_maxnum : ℕ
brc_maxnum = 80

abbrev pub brc_maxsize : ℕ
brc_maxsize = 24576

abbrev pub brc_itemsize : ℕ
brc_itemsize = 336

-- The bytes of the first `num` ints at `b`; behind the end of the file the code reads what is there, and
-- the model stops.
unfoldable pub get_ints : (num : ℕ) → Bytes → List ℕ
get_ints (suc num) (a ∷ b ∷ c ∷ d ∷ s) = (a + 256 * b + 65536 * c + 16777216 * d) ∷ get_ints num s
get_ints num s = []

abbrev pub put_int : ℕ → Bytes → Bytes
put_int t s = t % 256 ∷ t / 256 % 256 ∷ t / 65536 % 256 ∷ t / 16777216 % 256 ∷ s

unfoldable pub put_ints : List ℕ → Bytes
put_ints [] = []
put_ints (t ∷ ts) = put_int t (put_ints ts)

-- brc_getrecord: the name, the times, and what follows.
unfoldable pub brc_getrecord : Bytes → Bytes × List ℕ × Bytes
unfolding get_ints
brc_getrecord b =
    let num = get_or b brc_strlen 0 in
    let ints = drop (brc_strlen + 1) b in
    (
      cstr (take brc_strlen b),
      get_ints (if ltb brc_maxnum num then brc_maxnum else num) ints,
      drop (num * 4) ints,
    )

-- The loop of brc_putrecord that takes expired times off the end, but not the first.
unfoldable pub fresh_part : (expire : ℕ) → (num : ℕ) → List ℕ → ℕ
fresh_part expire zero ts = zero
fresh_part expire (suc num) ts = elim (ltb 0 num && ltb (get_or ts num 0) expire) [
  | true ↦ fresh_part expire num ts
  | false ↦ suc num
]

-- strncpy of a name into BRC_STRLEN bytes.
abbrev pub put_name : Bytes → Bytes
put_name name = take brc_strlen name ++ replicate (brc_strlen - length name) 0

-- brc_putrecord, the bytes it writes.
unfoldable pub brc_putrecord : (expire : ℕ) → (name : Bytes) → List ℕ → Bytes
unfolding fresh_part put_ints
brc_putrecord expire name [] = []
brc_putrecord expire name (t ∷ ts) =
    if ltb expire t
    then (let all = length (t ∷ ts) in
        let num = fresh_part expire (if ltb brc_maxnum all then brc_maxnum else all) (t ∷ ts) in
        put_name name ++ (num ∷ put_ints (take num (t ∷ ts))))
    else []

pub record Brc : Type 0 where
  pub expire_time : ℕ
  pub changed : Bool
  -- brc_buf up to brc_size, and its first byte, which may be an old one where brc_size is 0.
  pub buf : Bytes
  pub first : ℕ
  pub name : Bytes
  pub list : List ℕ
  pub currboard : Bytes
  pub userlevel : ℕ
  -- The user's file .boardrc.
  pub file : Option Bytes

-- May a record begin here?
abbrev pub at_record : Bytes → Bool
at_record [] = false
at_record (c ∷ s) = leb b' ' c && leb c b'z'

-- The loop of brc_update over the old file.
unfoldable pub update_loop : (fuel expire : ℕ) → (currboard tmp out : Bytes) → Bytes
unfolding brc_getrecord brc_putrecord str_eq
update_loop zero expire currboard tmp out = out
update_loop (suc fuel) expire currboard tmp out = elim (at_record tmp) [
  | true ↦
      let (name, times, rest) = brc_getrecord tmp in
      update_loop fuel expire currboard rest (
        if str_eq name (take brc_strlen currboard)
        then out
        else out ++ brc_putrecord expire name times)
  | false ↦ out
]

abbrev pub contents : Option Bytes → Bytes
contents none = []
contents (some b) = b

-- The bytes that brc_update writes. Each round of its loop passes a record.
unfoldable pub updated : Brc → Bytes
unfolding update_loop brc_putrecord
updated s =
    let tmp = take (brc_maxsize - brc_itemsize) (contents s.file) in
    update_loop (suc (length tmp)) s.expire_time s.currboard tmp
      (brc_putrecord s.expire_time s.name s.list)

-- brc_update, where the file can be opened for writing.
unfoldable pub brc_update : Brc → Brc
unfolding updated
brc_update s =
    if s.changed && not (s.userlevel == 0)
    then (let out = updated s in
        record s { buf = out; first = get_or out 0 s.first; file = some out; changed = false })
    else s

-- read_brc_buf
unfoldable pub read_brc_buf : Brc → Brc
read_brc_buf s =
    if s.first == 0
    then (let b = take brc_maxsize (contents s.file) in
        record s { buf = b; first = get_or b 0 s.first })
    else s

-- The loop of brc_initial: the record of the board, or the last one read and whether it was found.
unfoldable pub initial_loop : (fuel : ℕ) → (board b name : Bytes) → List ℕ → Bool × Bytes × List ℕ
unfolding brc_getrecord str_eq
initial_loop zero board b name times = (false, name, times)
initial_loop (suc fuel) board b name times = elim (at_record b) [
  | true ↦
      let (name', times', rest) = brc_getrecord b in
      elim (str_eq name' (take brc_strlen board)) [
        | true ↦ (true, name', times')
        | false ↦ initial_loop fuel board rest name' times'
      ]
  | false ↦ (false, name, times)
]

-- brc_initial, with its result. The board's number and attributes, which it also looks up, are left out.
unfoldable pub brc_initial : Bytes → Brc → ℕ × Brc
unfolding str_eq brc_update read_brc_buf initial_loop
brc_initial board s =
    if str_eq s.currboard board
    then (length s.list, s)
    else (let s = read_brc_buf (record (brc_update s) { currboard = board }) in
        let (found, name, times) = initial_loop (suc (length s.buf)) board s.buf s.name s.list in
        if found
        then (length times, record s { name = name; list = times })
        else (0, record s { name = take brc_strlen board; list = 1 ∷ [] }))

-- atoi; a negative number counts as 0, which expires like it.
unfoldable pub atoi_digits : ℕ → Bytes → ℕ
atoi_digits n [] = n
atoi_digits n (c ∷ s) = elim (leb b'0' c && leb c b'9') [
  | true ↦ atoi_digits (n * 10 + (c - b'0')) s
  | false ↦ n
]

-- The time in the name of a post, M.time.A.
unfoldable pub post_time : Bytes → ℕ
unfolding atoi_digits
post_time fname = atoi_digits 0 (drop 2 fname)

-- The loop of brc_addlist: a time goes before the first that is earlier, and nothing happens where it
-- is found. `none` is a loop that runs to the end of the list.
unfoldable pub insert_time : (ftime : ℕ) → List ℕ → Option (Bool × List ℕ)
insert_time ftime [] = none
insert_time ftime (t ∷ ts) = elim (ftime == t) [
  | true ↦ some (false, t ∷ ts)
  | false ↦ elim (ltb t ftime) [
    | true ↦ some (true, ftime ∷ t ∷ ts)
    | false ↦ elim (insert_time ftime ts) [ none ↦ none | some (c, ts') ↦ some (c, t ∷ ts') ]
  ]
]

abbrev pub add_last : (ftime : ℕ) → List ℕ → Bool × List ℕ
add_last ftime ts = if ltb (length ts) brc_maxnum then (true, ts ++ ftime ∷ []) else (false, ts)

-- What brc_addlist does to the list, and whether it sets brc_changed. A full list loses its last time.
unfoldable pub add_time : (ftime : ℕ) → List ℕ → Bool × List ℕ
unfolding insert_time
add_time ftime [] = (true, ftime ∷ [])
add_time ftime (t ∷ ts) =
    if (length ts == 0) && ltb ftime t
    then (false, t ∷ ts)
    else (elim (insert_time ftime (t ∷ ts)) as (λ _. Bool × List ℕ) [
      | some (c, ts') ↦ (c, take brc_maxnum ts')
      | none ↦ add_last ftime (t ∷ ts)
    ])

-- brc_addlist
unfoldable pub brc_addlist : Bytes → Brc → Brc
unfolding post_time add_time
brc_addlist fname s =
    let ftime = post_time fname in
    if s.userlevel == 0
    then s
    else (if leb ftime s.expire_time
        then s
        else (let (c, times) = add_time ftime s.list in
            record s { list = times; changed = s.changed || c }))

-- The loop of brc_unread and brc_unread_time.
unfoldable pub later_loop : (ftime : ℕ) → List ℕ → Bool
later_loop ftime [] = false
later_loop ftime (t ∷ ts) =
    if ltb t ftime then true else (if ftime == t then false else later_loop ftime ts)

-- brc_unread_time, with the list of the current board.
unfoldable pub brc_unread_time : (ftime : ℕ) → Brc → Bool
unfolding later_loop
brc_unread_time ftime s =
    if leb ftime s.expire_time
    then false
    else (if length s.list == 0 then true else later_loop ftime s.list)

unfoldable pub brc_unread : Bytes → Brc → Bool
unfolding post_time brc_unread_time
brc_unread fname s = brc_unread_time (post_time fname) s
