-- ===== src/Boards.antt =====
-- The boards: getbnum and haspostperm of mbbsd/cache.c, Ben_Perm of mbbsd/board.c, is_BM and belong of
-- mbbsd/stuff.c. The board cache is the list of its boards; `belong` reads the list of the first
-- words of a file's lines.
pub mod Posting
use Prim.Native.Nat.{bit_and, bit_or}
use openptt.Prelude.{
  ℕ, zero, suc, ◌+◌, ◌-◌, Bool, true, false, List, [], ◌∷◌, ◌==◌, if◌then◌else◌, ◌&&◌, ◌||◌, not,
  get_or,
}
use openptt.Prelude.Bytes.{Bytes, codes, str_case_eq}
use openptt.Text.{is_ubm}

-- PERM_POST, PERM_BM, PERM_SYSOP, PERM_VIOLATELAW, BRD_HIDE and BRD_POSTMASK.
abbrev pub perm_post : ℕ
perm_post = 8

abbrev pub perm_bm : ℕ
perm_bm = 1024

abbrev pub perm_sysop : ℕ
perm_sysop = 16384

abbrev pub perm_violatelaw : ℕ
perm_violatelaw = 131072

abbrev pub brd_hide : ℕ
brd_hide = 16

abbrev pub brd_postmask : ℕ
brd_postmask = 32

-- cuser
pub record User : Type 0 where
  pub userid : Bytes
  pub userlevel : ℕ

pub record Board : Type 0 where
  pub brdname : Bytes
  pub bm : Bytes
  pub brdattr : ℕ
  pub level : ℕ

-- The files that a board has with names in them, fn_visable and fn_water.
pub record Files : Type 0 where
  pub visable : Bytes → List Bytes
  pub water : Bytes → List Bytes

abbrev pub has_bit : ℕ → ℕ → Bool
has_bit a x = not (bit_and a x == 0)

-- HAS_PERM
unfoldable pub has_perm : ℕ → User → Bool
has_perm x user = if x == 0 then true else has_bit user.userlevel x

unfoldable pub belong : List Bytes → Bytes → Bool
belong [] key = false
belong (w ∷ ws) key = str_case_eq w key || belong ws key

-- is_BM, which raises the level of a moderator.
unfoldable pub is_bm : Bytes → User → Bool × User
is_bm list user =
    if is_ubm list user.userid
    then (true, record user { userlevel = bit_or user.userlevel perm_bm })
    else (false, user)

-- Ben_Perm
unfoldable pub ben_perm : Files → Board → User → ℕ × User
unfolding has_perm is_bm belong
ben_perm files b user =
    if has_perm perm_sysop user
    then (1, user)
    else (let (moderates, user') = is_bm b.bm user in
        if moderates
        then (1, user')
        else (if has_bit b.brdattr brd_hide
            then (if belong (files.visable b.brdname) user'.userid
                then (1, user')
                else (if has_bit b.brdattr brd_postmask then (0, user') else (2, user')))
            else (if not (b.level == 0)
                  && not (has_bit b.brdattr brd_postmask)
                  && not (has_perm b.level user')
                then (0, user')
                else (1, user'))))

-- The loop of getbnum from board `i` on.
unfoldable pub number_loop : ℕ → Files → Bytes → List Board → User → ℕ × User
unfolding ben_perm
number_loop i files name [] user = (0, user)
number_loop i files name (b ∷ bs) user =
    let (perm, user') = ben_perm files b user in
    elim (not (perm == 0) && str_case_eq name b.brdname) [
      | true ↦ (i + 1, user')
      | false ↦ number_loop (i + 1) files name bs user'
    ]

unfoldable pub getbnum : Files → Bytes → List Board → User → ℕ × User
unfolding number_loop
getbnum files name bs user = number_loop 0 files name bs user

abbrev pub no_board : Board
no_board = record { brdname = []; bm = []; brdattr = 0; level = 0 }

abbrev pub is_default : Bytes → Bool
is_default name = str_case_eq name (codes "SYSOP") || str_case_eq name (codes "PttLaw")

-- The end of haspostperm, on the board found. `i & ~PERM_POST` clears that bit.
unfoldable pub board_allows : Board → User → Bool
unfolding has_perm
board_allows b user =
    if has_bit b.brdattr brd_hide
    then true
    else (if has_perm perm_violatelaw user
        then has_bit b.level perm_violatelaw
        else has_perm (b.level - bit_and b.level perm_post) user)

unfoldable pub haspostperm : Files → Bytes → List Board → User → Bool × User
unfolding belong has_perm getbnum board_allows
haspostperm files name bs user =
    if belong (files.water name) user.userid
    then (false, user)
    else (if is_default name
        then (true, user)
        else (if not (has_perm perm_post user)
            then (false, user)
            else (let (i, user') = getbnum files name bs user in
                if i == 0
                then (false, user')
                else (board_allows (get_or bs (i - 1) no_board) user', user'))))
