-- ===== src/Expire.antt =====
-- util/expire.c: old posts are taken out of the directory of a board. A directory is the list of its
-- headers.
pub mod Keeping
pub mod Bounds
use openptt.Prelude.{
  ℕ, zero, suc, ◌+◌, ◌-◌, ◌*◌, Bool, true, false, Option, none, some, List, [], ◌∷◌, ◌==◌, ◌&&◌,
  ◌||◌, not, if◌then◌else◌, ltb, leb, length, drop,
}
use openptt.Prelude.Bytes.{Bytes}
use openptt.Boards.{has_bit}
use openptt.Screen.Colours.{atoi}

-- struct life
pub record Life : Type 0 where
  pub days : ℕ
  pub maxp : ℕ
  pub minp : ℕ

-- fileheader_t: the fields used here.
pub record Header : Type 0 where
  pub filename : Bytes
  pub owner : Bytes
  pub filemode : ℕ

-- FILE_MARKED
abbrev pub file_marked : ℕ
file_marked = 2

-- head.owner[0] == '-'
abbrev pub is_cancelled : Bytes → Bool
is_cancelled [] = false
is_cancelled (c ∷ _) = c == b'-'

-- The choice of `keep`, with `total` headers left.
unfoldable pub keeps : Life → (duetime total : ℕ) → Header → Bool
keeps brd duetime total head =
    if is_cancelled head.owner
    then false
    else (if has_bit head.filemode file_marked || leb total brd.minp
        then true
        else (if ltb (atoi (drop 2 head.filename)) duetime || ltb brd.maxp total
            then false
            else true))

-- What the loop has done: the headers written, the files unlinked, and whether no write failed.
pub record Expired : Type 0 where
  pub kept : List Header
  pub unlinked : List Bytes
  pub complete : Bool

-- The loop of expire, where the first `writes` writes succeed.
unfoldable pub expire_loop : (writes : ℕ) → Life → (duetime total : ℕ) → List Header → Expired
unfolding keeps
expire_loop writes brd duetime total [] = record { kept = []; unlinked = []; complete = true }
expire_loop writes brd duetime total (head ∷ heads) = elim (keeps brd duetime total head) [
  | true ↦ elim writes [
    | zero ↦ record { kept = []; unlinked = []; complete = false }
    | suc w ↦
        let rest = expire_loop w brd duetime total heads in record rest { kept = head ∷ rest.kept }
  ]
  | false ↦
      let rest = expire_loop writes brd duetime (total - 1) heads in
      record rest { unlinked = head.filename ∷ rest.unlinked }
]

abbrev pub is_read : List Header → Bool
is_read [] = false
is_read (_ ∷ _) = true

-- What the system answers: may the new file be opened, how many writes succeed, and do the renames of
-- the old and of the new directory. A write is whole or fails.
pub record Answers : Type 0 where
  pub new_opens : Bool
  pub writes : ℕ
  pub renames_old : Bool
  pub renames_new : Bool

-- The directory after the renames: none where only the first one is done.
abbrev pub renamed : Answers → (kept index : List Header) → Option (List Header)
renamed a kept index =
    if a.renames_old then (if a.renames_new then some kept else none) else some index

-- expire for a board whose directory can be opened: the directory afterwards, and the files unlinked. A
-- time before 1970 is 0.
unfoldable pub expire : Answers → (now : ℕ) → Life → List Header → Option (List Header) × List Bytes
unfolding expire_loop
expire a now brd index =
    if a.new_opens
    then (let r = expire_loop a.writes brd (now - brd.days * 24 * 60 * 60) (length index) index in
        (if is_read index && r.complete then renamed a r.kept index else some index, r.unlinked))
    else (some index, [])
