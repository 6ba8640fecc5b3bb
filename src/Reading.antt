-- ===== src/Reading.antt =====
-- mbbsd/read.c: where a user is in a list of posts. The first line has the number 1; an int that is not
-- positive is 0.
pub mod Cursor
pub mod Keeps
use openptt.Prelude.{
  ℕ, zero, suc, ◌+◌, ◌-◌, Bool, true, false, Option, none, some, List, [], ◌∷◌, ltb, leb, ◌==◌,
  if◌then◌else◌, ◌&&◌, get_or, set,
}
use openptt.Prelude.Bytes.{Bytes, str_eq}

-- keeploc_t
pub record Keep : Type 0 where
  pub key : Bytes
  pub top_ln : ℕ
  pub crs_ln : ℕ

abbrev pub no_keep : Keep
no_keep = record { key = []; top_ln = 0; crs_ln = 0 }

-- The loop of getkeep: the place of a key in the list.
unfoldable pub keep_loop : Bytes → List Keep → Option ℕ
unfolding str_eq
keep_loop s [] = none
keep_loop s (p ∷ ps) = elim (str_eq s p.key) [
  | true ↦ some 0
  | false ↦ elim (keep_loop s ps) [ none ↦ none | some i ↦ some (suc i) ]
]

-- getkeep: the place of the entry, and the list. A negative default asks for a new entry.
unfoldable pub getkeep :
    (s : Bytes)
    → (def_topline : ℕ) → (negative : Bool) → (def_cursline : ℕ) → List Keep
    → ℕ × List Keep
unfolding keep_loop
getkeep s top negative crs keeps =
    let new : Keep = record { key = s; top_ln = top; crs_ln = crs } in
    if negative then (0, new ∷ keeps) else (elim (keep_loop s keeps) as (λ _. ℕ × List Keep) [
      | none ↦ (0, new ∷ keeps)
      | some i ↦
          let p = get_or keeps i no_keep in
          (i, (if p.crs_ln == 0 then set keeps i (record p { crs_ln = 1 }) else keeps))
    ])

unfoldable pub fixkeep : (s : Bytes) → (first : ℕ) → List Keep → List Keep
unfolding getkeep
fixkeep s first keeps =
    let (i, keeps) = getkeep s 1 false 1 keeps in
    let k = get_or keeps i no_keep in
    if leb first k.crs_ln
    then set keeps i (record k {
      crs_ln = if first == 1 then 1 else first - 1;
      top_ln = if ltb first 11 then 1 else first - 10;
    })
    else keeps

-- DONOTHING and PARTUPDATE
pub data Update : Type 0 where
  donothing partupdate : Update

-- cursor_pos, with its result, without the bell and the mark on the screen.
unfoldable pub cursor_pos : (last_line p_lines : ℕ) → Keep → (val from_top : ℕ) → Update × Keep
cursor_pos last_line p_lines locmem val from_top =
    let val = if ltb last_line val then last_line else val in
    let val = if val == 0 then 1 else val in
    let top = locmem.top_ln in
    if leb top val && ltb val (top + p_lines)
    then (donothing, record locmem { crs_ln = val })
    else (
      partupdate,
      record locmem { top_ln = if val - from_top == 0 then 1 else val - from_top; crs_ln = val },
    )

pub data Direction : Type 0 where
  read_prev read_next : Direction

-- The results of move_cursor_line: 0, 1 and -1.
pub data Reload : Type 0 where
  same_page new_page at_end : Reload

unfoldable pub move_cursor_line : (last_line p_lines : ℕ) → Keep → Direction → Reload × Keep
move_cursor_line last_line p_lines locmem read_prev =
    let top = locmem.top_ln in
    let crs = locmem.crs_ln in
    let turns = leb crs top in
    let top' =
      if turns then (if top - (p_lines - 1) == 0 then 1 else top - (p_lines - 1)) else top in
    if crs - 1 == 0 then (at_end, record locmem { top_ln = top'; crs_ln = 1 }) else (
      (if turns then new_page else same_page),
      record locmem { top_ln = top'; crs_ln = crs - 1 },
    )
move_cursor_line last_line p_lines locmem read_next =
    let top = locmem.top_ln in
    let crs = locmem.crs_ln in
    let turns = leb (top + p_lines - 1) crs in
    let top' = if turns then top + (p_lines - 1) else top in
    if ltb last_line (crs + 1)
    then (at_end, record locmem { top_ln = top'; crs_ln = last_line })
    else (
      (if turns then new_page else same_page),
      record locmem { top_ln = top'; crs_ln = crs + 1 },
    )
