-- ===== src/Posts.antt =====
-- mbbsd/bbs.c: marks on posts. A directory of posts is the list of its headers; opening and writing it
-- succeeds. MODE_ETC, which stands for another directory in place of the board's, is left out.
pub mod Marks
use Prim.Native.Nat.{bit_xor, bit_or}
use openptt.Prelude.{
  ℕ, zero, suc, ◌+◌, ◌-◌, Bool, true, false, Option, none, some, List, [], ◌∷◌, ◌++◌, ◌==◌, ◌&&◌,
  ◌||◌, not, if◌then◌else◌,
}
use openptt.Prelude.Bytes.{Bytes, str_eq}
use openptt.Boards.{has_bit, has_perm, perm_sysop, User}
use openptt.Text.{not_alnum}

-- FILE_MARKED, FILE_DIGEST, FILE_TAGED and FILE_SOLVED
abbrev pub file_marked : ℕ
file_marked = 2

abbrev pub file_digest : ℕ
file_digest = 4

abbrev pub file_taged : ℕ
file_taged = 8

abbrev pub file_solved : ℕ
file_solved = 16

-- fileheader_t
pub record Fileheader : Type 0 where
  pub filename : Bytes
  pub savemode : ℕ
  pub owner : Bytes
  pub date : Bytes
  pub title : Bytes
  pub filemode : ℕ

-- The directories of a board: of its posts, of the posts found by a search (the file SR.userid), and of
-- the digest.
pub record Dirs : Type 0 where
  pub board : List Fileheader
  pub found : List Fileheader
  pub digest : List Fileheader

-- The fields of currmode that count here.
pub record Mode : Type 0 where
  pub is_board : Bool
  pub is_digest : Bool
  pub is_select : Bool

pub data Done : Type 0 where
  donothing : Done
  part_redraw : Done
  pos_next : Done

-- invalid_brdname
unfoldable pub invalid_tail : Bytes → Bool
invalid_tail [] = false
invalid_tail (ch ∷ brd) =
    (not_alnum ch && not (ch == b'_') && not (ch == b'-') && not (ch == b'.')) || invalid_tail brd

pub invalid_brdname : Bytes → Bool
unfolding invalid_tail
invalid_brdname [] = true
invalid_brdname (ch ∷ brd) = not_alnum ch || invalid_tail brd

-- The loop of getindex, with `now` headers read.
unfoldable pub index_loop : (now : ℕ) → (fname : Bytes) → List Fileheader → ℕ
index_loop now fname [] = 0
index_loop now fname (fhdr ∷ dir) =
    if str_eq fhdr.filename fname then now + 1 else index_loop (now + 1) fname dir

unfoldable pub getindex : (fname : Bytes) → List Fileheader → ℕ
unfolding index_loop
getindex fname dir = index_loop 0 fname dir

-- A header of zeros, as a write behind the end leaves them.
abbrev pub no_header : Fileheader
no_header = record { filename = []; savemode = 0; owner = []; date = []; title = []; filemode = 0 }

unfoldable pub put_at : (k : ℕ) → Fileheader → List Fileheader → List Fileheader
put_at zero fhdr [] = fhdr ∷ []
put_at (suc k) fhdr [] = no_header ∷ put_at k fhdr []
put_at zero fhdr (_ ∷ dir) = fhdr ∷ dir
put_at (suc k) fhdr (h ∷ dir) = h ∷ put_at k fhdr dir

-- substitute_record of the record `id`.
unfoldable pub substitute : (fhdr : Fileheader) → (id : ℕ) → List Fileheader → List Fileheader
unfolding put_at
substitute fhdr zero dir = dir
substitute fhdr (suc k) dir = put_at k fhdr dir

-- substitute_record in `direct`, the directory that the user reads.
unfoldable pub in_direct : Mode → (fhdr : Fileheader) → (ent : ℕ) → Dirs → Dirs
unfolding substitute
in_direct m fhdr ent dirs =
    if m.is_select
    then record dirs { found = substitute fhdr ent dirs.found }
    else (if m.is_digest
        then record dirs { digest = substitute fhdr ent dirs.digest }
        else record dirs { board = substitute fhdr ent dirs.board })

-- setbdir, getindex and substitute_record: the directory of the board, or of the digest.
unfoldable pub in_board : Mode → (fhdr : Fileheader) → Dirs → Dirs
unfolding substitute getindex
in_board m fhdr dirs =
    if m.is_digest
    then record dirs { digest = substitute fhdr (getindex fhdr.filename dirs.digest) dirs.digest }
    else record dirs { board = substitute fhdr (getindex fhdr.filename dirs.board) dirs.board }

-- fhdr->filemode ^= bit
abbrev pub toggle : (bit : ℕ) → Fileheader → Fileheader
toggle bit fhdr = record fhdr { filemode = bit_xor fhdr.filemode bit }

-- filemode & ~bit, for a single bit
abbrev pub without : (bit mode : ℕ) → ℕ
without bit mode = if has_bit mode bit then mode - bit else mode

unfoldable pub mark_post : Mode → (ent : ℕ) → (fhdr : Fileheader) → Dirs → Done × Dirs
unfolding in_direct
mark_post m ent fhdr dirs =
    if m.is_board
    then (part_redraw, in_direct m (toggle file_marked fhdr) ent dirs)
    else (donothing, dirs)

unfoldable pub solve_post : User → Mode → (ent : ℕ) → (fhdr : Fileheader) → Dirs → Done × Dirs
unfolding in_direct
solve_post user m ent fhdr dirs =
    if has_perm perm_sysop user
    then (part_redraw, in_direct m (toggle file_solved fhdr) ent dirs)
    else (donothing, dirs)

-- post_tag, where `reads` is currstat == READING. The search result is written in any mode.
unfoldable pub post_tag :
    (reads : Bool) → Mode → (ent : ℕ) → (fhdr : Fileheader) → Dirs → Done × Dirs
unfolding in_board substitute
post_tag reads m ent fhdr dirs =
    if not reads || m.is_board
    then (let h = toggle file_taged fhdr in
        let dirs' = in_board m h dirs in
        (pos_next, record dirs' { found = substitute h ent dirs'.found }))
    else (donothing, dirs)

-- The header of a post after good_post.
abbrev pub in_digest : Fileheader → Fileheader
in_digest fhdr =
    if has_bit fhdr.filemode file_digest
    then record fhdr { filemode = without file_digest fhdr.filemode }
    else record fhdr { filemode = bit_or (without file_marked fhdr.filemode) file_digest }

abbrev pub g_name : Bytes → Bytes
g_name [] = b'G' ∷ []
g_name (_ ∷ s) = b'G' ∷ s

-- The directory of the digest after it, where `is_there` is whether the file for the digest exists.
abbrev pub digest_with : (is_there : Bool) → Fileheader → List Fileheader → List Fileheader
digest_with is_there fhdr digest =
    if has_bit fhdr.filemode file_digest || is_there
    then digest
    else digest ++ record fhdr { filename = g_name fhdr.filename; savemode = 0; filemode = 0 } ∷ []

-- good_post, without the link to the file.
unfoldable pub good_post :
    (is_there : Bool) → Mode → (ent : ℕ) → (fhdr : Fileheader) → Dirs → Done × Dirs
unfolding in_direct in_board
good_post is_there m ent fhdr dirs =
    if m.is_digest || not m.is_board
    then (donothing, dirs)
    else (let h = in_digest fhdr in
        let with_digest = record dirs { digest = digest_with is_there fhdr dirs.digest } in
        let dirs' = in_direct m h ent with_digest in
        (part_redraw, if m.is_select then in_board m h dirs' else dirs'))
