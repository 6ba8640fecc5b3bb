-- ===== src/Homes.antt =====
-- mbbsd/stuff.c: the paths of users and boards, and userid_is_BM.
pub mod Dirs
pub mod Managers
use openptt.Prelude.{
  ℕ, zero, suc, ◌+◌, Bool, true, false, Option, none, some, List, [], ◌∷◌, ◌++◌, ltb, ◌==◌,
  if◌then◌else◌, ◌&&◌, ◌||◌, length, drop, get_or, take,
}
use openptt.Prelude.Bytes.{Bytes, codes, strn_case_eq}
use openptt.Ranges.{dir_of}
use openptt.Text.{after_slash, is_printed}

-- STR_DOTDIR
abbrev pub str_dotdir : Bytes
str_dotdir = codes ".DIR"

-- %c of an empty name writes a zero, which ends the string.
unfoldable pub sethomepath : (userid : Bytes) → Bytes
sethomepath [] = codes "home/"
sethomepath (c ∷ s) = codes "home/" ++ (c ∷ []) ++ codes "/" ++ (c ∷ s)

-- With the format str_home_file.
unfoldable pub sethomefile : (userid fname : Bytes) → Bytes
sethomefile [] fname = codes "home/"
sethomefile (c ∷ s) fname = codes "home/" ++ (c ∷ []) ++ codes "/" ++ (c ∷ s) ++ codes "/" ++ fname

pub sethomedir : (userid : Bytes) → Bytes
sethomedir userid = sethomefile userid str_dotdir

pub sethomeman : (userid : Bytes) → Bytes
sethomeman userid = sethomefile userid (codes "man")

pub setapath : (boardname : Bytes) → Bytes
setapath boardname = codes "man/boards/" ++ boardname

pub setadir : (path : Bytes) → Bytes
setadir path = path ++ codes "/" ++ str_dotdir

pub setbpath : (boardname : Bytes) → Bytes
setbpath boardname = codes "boards/" ++ boardname

-- With the format str_board_file.
unfoldable pub setbfile : (boardname fname : Bytes) → Bytes
setbfile boardname fname = codes "boards/" ++ boardname ++ codes "/" ++ fname

-- setbdir, with the two bits of currmode and fn_mandex.
unfoldable pub setbdir : (etc digest : Bool) → (fn_mandex boardname : Bytes) → Bytes
unfolding setbfile
setbdir etc digest fn_mandex boardname =
    setbfile boardname (if etc then codes ".ETC" else (if digest then fn_mandex else str_dotdir))

-- setdirpath
unfoldable pub setdirpath : (direct fname : Bytes) → Bytes
setdirpath direct fname = dir_of direct ++ fname

-- The byte behind a name that userid_is_BM takes for its end.
abbrev pub stops_name : Bytes → Bool
stops_name [] = true
stops_name (c ∷ s) = c == b'/' || c == b']'

-- The loop of userid_is_BM. Each round but the last passes a '/'.
unfoldable pub userid_loop : (fuel : ℕ) → (userid list : Bytes) → Bool
unfolding strn_case_eq after_slash
userid_loop zero userid list = false
userid_loop (suc fuel) userid list =
    let more = elim (after_slash list) as (λ _. Bool) [
      | none ↦ false
      | some r ↦ userid_loop fuel userid r
    ] in
    if strn_case_eq (length userid) list userid && stops_name (drop (length userid) list)
    then true
    else more

pub userid_is_bm : (userid list : Bytes) → Bool
unfolding userid_loop
userid_is_bm userid list =
    if is_printed list then userid_loop (suc (length list)) userid list else false
