-- ===== src/Menu.antt =====
-- domenu of mbbsd/menu.c: the cursor of a menu, and which items may be run. What the functions of the
-- items and the other calls return is in `Calls`.
pub mod Cursor
pub mod Turns
use openptt.Prelude.{
  ℕ, zero, suc, ◌+◌, ◌-◌, Bool, true, false, Option, none, some, List, [], ◌∷◌, ◌++◌, ◌==◌, ◌&&◌,
  ◌||◌, not, if◌then◌else◌, ltb, leb, length, get_or,
}
use openptt.Prelude.Bytes.{Bytes}
use openptt.Boards.{has_bit}
use openptt.Input.{key_up, key_down, key_left, key_right, key_home}

-- KEY_END, KEY_PGUP and KEY_PGDN
abbrev pub key_end : ℕ
key_end = 516

abbrev pub key_pgup : ℕ
key_pgup = 517

abbrev pub key_pgdn : ℕ
key_pgdn = 518

-- MMENU, MAIL, TMENU, XMENU and XMODE
abbrev pub mmenu : ℕ
mmenu = 1

abbrev pub mail : ℕ
mail = 3

abbrev pub tmenu : ℕ
tmenu = 4

abbrev pub xmenu : ℕ
xmenu = 6

abbrev pub xmode : ℕ
xmode = 19

-- commands_t, without its function.
pub record Item : Type 0 where
  pub level : ℕ
  pub desc : Bytes

-- The item at a place of the table. Behind the end stands the item without a description.
abbrev pub no_item : Item
no_item = record { level = 0; desc = [] }

abbrev pub item_at : List Item → ℕ → Item
item_at table i = get_or table i no_item

-- HAS_PERM(cmdtable[i].level), where `level` is cuser.userlevel.
unfoldable pub is_allowed : (level : ℕ) → List Item → (i : ℕ) → Bool
is_allowed level table i =
    if (item_at table i).level == 0 then true else has_bit level (item_at table i).level

-- `do { if(++i > total) i = 0; } while(...)` with `j` for i + 1. `none` where the fuel runs out.
unfoldable pub go_down : (fuel total : ℕ) → (ok : ℕ → Bool) → (j : ℕ) → Option ℕ
go_down zero total ok j = none
go_down (suc fuel) total ok j =
    let i = (if ltb total j then 0 else j) in
    let rest = go_down fuel total ok (i + 1) in if ok i then some i else rest

-- `do { if(--i < 0) i = total; } while(...)`
unfoldable pub go_up : (fuel total : ℕ) → (ok : ℕ → Bool) → (i : ℕ) → Option ℕ
go_up zero total ok i = none
go_up (suc fuel) total ok i =
    let k = (if i == 0 then total else i - 1) in
    let rest = go_up fuel total ok k in if ok k then some k else rest

-- `while(++i <= total) if(cmdtable[i].desc[1] == cmd) break;`, from the place `i` on.
unfoldable pub by_key : (cmd i : ℕ) → List Item → ℕ
by_key cmd i [] = i
by_key cmd i (item ∷ items) = if get_or item.desc 1 0 == cmd then i else by_key cmd (i + 1) items

-- The number of items up to `n` items that are shown.
unfoldable pub shown : (n : ℕ) → (ok : ℕ → Bool) → ℕ
shown zero ok = 0
shown (suc n) ok = (if ok n then 1 else 0) + shown n ok

pub record State : Type 0 where
  pub lastcmdptr : ℕ
  pub pos : ℕ
  pub refscreen : Bool
  pub currstat : ℕ
  pub cmd0 : ℕ
  -- the items whose functions have been called, the last one first
  pub ran : List ℕ

-- The value of an item's function.
pub data Err : Type 0 where
  quit : Err
  easy : Err
  easy_next : Err
  minus_one : Err
  other : Err

-- What the functions called by one turn return: the function of the item, mail_man and chkmailbox.
pub record Calls : Type 0 where
  pub err : Err
  pub full : Bool
  pub box : Bool

-- One turn ends the menu or goes on.
pub data Turn : Type 0 where
  return : Turn
  next : State → Turn

-- The end of the body, for the item `i`. `continue` leaves the cursor.
unfoldable pub settle : (level : ℕ) → List Item → (total i : ℕ) → State → State
unfolding is_allowed shown
settle level table total i s =
    if ltb total i || not (is_allowed level table i) then s else record s {
      lastcmdptr = i;
      pos = shown (i + 1) (is_allowed level table) - 1;
      refscreen = false;
    }

-- cmd &= ~0x20 for a letter.
abbrev pub upper : ℕ → ℕ
upper cmd = if leb b'a' cmd && leb cmd b'z' then cmd - 32 else cmd

-- What is left of the body once `cmd` is a letter.
abbrev pub to_key : (level : ℕ) → List Item → (total cmd : ℕ) → State → Turn
to_key level table total cmd s = next (settle level table total (by_key (upper cmd) 0 table) s)

-- The screen is drawn again after an item, unless it returned XEASY or one more.
abbrev pub redraws : Err → Bool → Bool
redraws easy old = old
redraws easy_next old = old
redraws _ old = true

-- The letter to go to behind an item: the next one, or the same.
abbrev pub go_on : Err → Bytes → ℕ
go_on minus_one desc = get_or desc 1 0
go_on _ desc = get_or desc 0 0

-- Enter, where XMODE is the state while the function runs.
unfoldable pub run_item : Calls → (level cmdmode : ℕ) → List Item → (total : ℕ) → State → Turn
unfolding settle by_key
run_item calls level cmdmode table total s =
    let desc = (item_at table s.lastcmdptr).desc in
    let after = record s {
      ran = s.lastcmdptr ∷ s.ran;
      currstat = cmdmode;
      cmd0 = get_or desc 0 0;
      refscreen = redraws calls.err s.refscreen;
    } in
    elim calls.err [ quit ↦ return | _ ↦ to_key level table total (go_on calls.err desc) after ]

-- The branch `default`.
unfoldable pub default : Calls → (level cmdmode : ℕ) → List Item → (total cmd : ℕ) → State → Turn
unfolding run_item settle by_key
default calls level cmdmode table total cmd s =
    if (cmd == b's' || cmd == b'r')
      && (s.currstat == mmenu || s.currstat == tmenu || s.currstat == xmenu)
    then next (settle level table total s.lastcmdptr (record s { refscreen = true }))
    else (if cmd == 10 || cmd == 13 || cmd == key_right
        then run_item calls level cmdmode table total s
        else to_key level table total cmd s)

abbrev to : (level : ℕ) → List Item → (total : ℕ) → Option ℕ → State → Option Turn
to level table total none s = none
to level table total (some i) s = some (next (settle level table total i s))

-- The body of the loop of domenu, where `total` is the place of the last item. `none` is a search that
-- does not end.
unfoldable pub turn : Calls → (level cmdmode : ℕ) → List Item → (cmd : ℕ) → State → Option Turn
unfolding go_down go_up settle default is_allowed
turn calls level cmdmode table cmd s =
    let total = length table - 1 in
    let ok = is_allowed level table in
    let drawn = record s { refscreen = true } in
    if cmd == 9 || cmd == 14
    then to level table total (some s.lastcmdptr) drawn
    else (if cmd == 1
        then to level table total (some s.lastcmdptr) (if calls.full then drawn else s)
        else (if cmd == key_down
            then to level table total (go_down (total + 1) total ok (s.lastcmdptr + 1)) s
            else (if cmd == key_home || cmd == key_pgup
                then to level table total (go_down (total + 1) total ok 0) s
                else (if cmd == key_end || cmd == key_pgdn
                    then to level table total (some total) s
                    else (if cmd == key_up
                        then to level table total (go_up (total + 1) total ok s.lastcmdptr) s
                        else (if cmd == key_left || cmd == b'e' || cmd == b'E'
                            then (if cmdmode == mmenu
                                then some (default calls level cmdmode table total b'G' s)
                                else (if cmdmode == mail && calls.box
                                    then some (default calls level cmdmode table total b'R' s)
                                    else some return))
                            else some (default calls level cmdmode table total cmd s)))))))
