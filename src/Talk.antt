-- ===== src/Talk.antt =====
-- mbbsd/talk.c and count_ulist of mbbsd/cache.c: who is a friend of whom, and who sees whom.
pub mod Seeing
pub mod Paging
pub mod Pickup
pub mod Picking
pub mod Searching
pub mod Order
use Prim.Native.Nat.{bit_or}
use openptt.Prelude.{
  ℕ, ◌+◌, Bool, true, false, Option, none, some, List, [], ◌∷◌, ◌==◌, ◌&&◌, ◌||◌, not,
  if◌then◌else◌, replicate,
}
use openptt.Prelude.Bytes.{Bytes}
use openptt.Boards.{has_bit, perm_sysop}

-- PERM_SEECLOAK, PERM_DENYPOST and FRIEND_FLAG
abbrev pub perm_seecloak : ℕ
perm_seecloak = 128

abbrev pub perm_denypost : ℕ
perm_denypost = 512

abbrev pub friend_flag : ℕ
friend_flag = 16

-- userinfo_t: the fields used here. The arrays are lists of all their cells.
pub record Userinfo : Type 0 where
  pub uid : ℕ
  pub pid : ℕ
  pub userlevel : ℕ
  pub invisible : Bool
  pub userid : Bytes
  pub friend : List ℕ
  pub reject : List ℕ
  pub brc_id : ℕ
  pub mode : ℕ
  pub pager : ℕ
  pub chatid : Bytes
  pub from : Bytes
  pub mind : ℕ
  pub lastact : ℕ

-- An entry of zeros.
abbrev pub blank : Userinfo
blank = record {
  uid = 0;
  pid = 0;
  userlevel = 0;
  invisible = false;
  userid = [];
  friend = replicate 256 0;
  reject = replicate 32 0;
  brc_id = 0;
  mode = 0;
  pager = 0;
  chatid = [];
  from = [];
  mind = 0;
  lastact = 0;
}

-- `while((hit = *p++)) if(unum == hit) break`: `none` where it leaves the array.
unfoldable pub scan : (unum : ℕ) → List ℕ → Option Bool
scan unum [] = none
scan unum (hit ∷ cells) = elim (hit == 0) [
  | true ↦ some false
  | false ↦ elim (unum == hit) [ true ↦ some true | false ↦ scan unum cells ]
]

abbrev pub add_bit : (bit : ℕ) → Bool → ℕ → ℕ
add_bit bit true hit = bit_or hit bit
add_bit bit false hit = hit

-- `me` is currutmp, with usernum for its uid. IFH is 2, HFM 4.
unfoldable pub is_friend : (me ui : Userinfo) → Option ℕ
unfolding scan
is_friend me ui = elim (scan ui.uid me.friend) [
  | none ↦ none
  | some mine ↦ elim (scan me.uid ui.friend) [
    | none ↦ none
    | some his ↦ some (
        add_bit 4 his
          (add_bit 1 (not (me.brc_id == 0) && ui.brc_id == me.brc_id) (if mine then 2 else 0)))
  ]
]

-- PERM_HIDE
unfoldable pub perm_hide : Userinfo → Bool
perm_hide u = has_bit u.userlevel perm_sysop && has_bit u.userlevel perm_denypost

unfoldable pub is_rejected : (me ui : Userinfo) → Option ℕ
unfolding perm_hide scan
is_rejected me ui =
    if perm_hide ui then some 0 else (elim (scan ui.uid me.reject) as (λ _. Option ℕ) [
      | none ↦ none
      | some mine ↦ elim (scan me.uid ui.reject) [
        | none ↦ none
        | some his ↦ some (add_bit 2 his (if mine then 1 else 0))
      ]
    ])

abbrev pub is_nameless : Bytes → Bool
is_nameless [] = true
is_nameless (_ ∷ _) = false

-- isvisible, where `level` is cuser.userlevel. HISREJ is 2, HISFRI 4.
unfoldable pub isvisible : (level : ℕ) → (me uentp : Userinfo) → (isfri isrej : ℕ) → Bool
unfolding perm_hide
isvisible level me uentp isfri isrej =
    if is_nameless uentp.userid
    then false
    else (if perm_hide uentp && not (perm_hide me)
        then false
        else (if has_bit level perm_sysop
            then true
            else (if uentp.invisible
                  && not (has_bit level perm_seecloak)
                  && not (has_bit isrej 2 && has_bit isfri 4)
                then false
                else not (has_bit isrej 2 && not (has_bit isfri 4)))))

-- Is an entry counted by count_ulist? `uflag` is cuser.uflag.
unfoldable pub counts : (level uflag : ℕ) → (me uentp : Userinfo) → (isfri isrej : ℕ) → Bool
unfolding isvisible
counts level uflag me uentp isfri isrej = not (
    uentp.pid == 0
    || not (isvisible level me uentp isfri isrej)
    || (has_bit uflag friend_flag && (isfri == 0 || (has_bit isrej 1 && not (has_bit isfri 2)))))

-- count_ulist, with `rtv` entries counted.
unfoldable pub count_ulist : (rtv level uflag : ℕ) → (me : Userinfo) → List Userinfo → Option ℕ
unfolding is_friend is_rejected counts
count_ulist rtv level uflag me [] = some rtv
count_ulist rtv level uflag me (e ∷ es) = elim (is_friend me e) [
  | none ↦ none
  | some isfri ↦ elim (is_rejected me e) [
    | none ↦ none
    | some isrej ↦
        count_ulist (if counts level uflag me e isfri isrej then rtv + 1 else rtv) level uflag me es
  ]
]
