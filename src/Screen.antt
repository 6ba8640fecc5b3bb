-- ===== src/Screen.antt =====
-- mbbsd/screen.c: the picture of the screen that the drawing functions change. An unsigned char is
-- written modulo 256. The lines form a ring: the top line of the screen is at `roll`.
pub mod Redraw
pub mod Colours
pub mod Display
pub mod Picture
pub mod Steps
pub mod Shown
pub mod Lines
pub mod Drawing
pub mod Clearing
pub mod Filtering
use Prim.Native.Nat.{max, min}
use openptt.Prelude.{
  ℤ, pos, negsuc, ℕ, zero, suc, ◌+◌, ◌-◌, ◌%◌, Bool, true, false, List, [], ◌∷◌, ltb, leb, ◌==◌,
  if◌then◌else◌, ◌&&◌, ◌||◌, not, map, get_or, set, replicate,
}
use openptt.Prelude.Bytes.{Bytes}
use openptt.Terminal.{Cursor}

abbrev pub ansilinelen : ℕ
ansilinelen = 511

-- screenline_t; `mode` is its two flags.
pub record Line : Type 0 where
  pub oldlen : ℕ
  pub len : ℕ
  pub modified : Bool
  pub standout_mode : Bool
  pub smod : ℕ
  pub emod : ℕ
  pub sso : ℕ
  pub eso : ℕ
  pub cells : Bytes

-- ++ and -- of an int.
abbrev pub suc_int : ℤ → ℤ
suc_int (pos n) = pos (n + 1)
suc_int (negsuc zero) = pos 0
suc_int (negsuc (suc n)) = negsuc n

abbrev pub pred_int : ℤ → ℤ
pred_int (pos zero) = negsuc 0
pred_int (pos (suc n)) = pos n
pred_int (negsuc n) = negsuc (n + 1)

pub record Screen : Type 0 where
  pub t_lines : ℕ
  pub t_columns : ℕ
  pub scr_lns : ℕ
  pub scr_cols : ℕ
  pub automargins : Bool
  -- Are there strings for highlighting, and for scrolling back?
  pub has_standout : Bool
  pub has_scrollrev : Bool
  pub big_picture : List Line
  pub cur_ln : ℕ
  pub cur_col : ℕ
  pub docls : Bool
  pub standing : Bool
  pub roll : ℕ
  pub scrollcnt : ℤ
  pub tc : Cursor

-- A line of calloc.
abbrev pub no_line : Line
no_line = record {
  oldlen = 0;
  len = 0;
  modified = false;
  standout_mode = false;
  smod = 0;
  emod = 0;
  sso = 0;
  eso = 0;
  cells = replicate (ansilinelen + 1) 0;
}

-- initscr, for a terminal of `lines` lines, where there is no picture yet.
unfoldable pub initscr : (lines : ℕ) → Screen → Screen
initscr lines s = record s {
  t_lines = lines;
  scr_lns = lines % 256;
  t_columns = ansilinelen;
  scr_cols = ansilinelen % 256;
  big_picture = replicate (lines % 256) no_line;
  docls = true;
}

abbrev pub move : (y x : ℕ) → Screen → Screen
move y x s = record s { cur_col = x % 256; cur_ln = y % 256 }

-- Where the line `ln` of the screen is in the ring of `n`.
abbrev pub row_of : (n ln roll : ℕ) → ℕ
row_of n ln roll = if leb n (ln + roll) then ln + roll - n else ln + roll

abbrev pub line_at : Screen → ℕ → Line
line_at s i = get_or s.big_picture i no_line

abbrev pub put_line : ℕ → Line → Screen → Screen
put_line i slp s = record s { big_picture = set s.big_picture i slp }

-- `count` blanks from `i` on.
abbrev pub fill : (i count : ℕ) → Bytes → Bytes
fill i zero d = d
fill i (suc count) d = fill (suc i) count (set d i b' ')

abbrev pub next_line : Screen → ℕ
next_line s = if ltb s.cur_ln s.scr_lns then s.cur_ln + 1 else s.cur_ln

-- outch of a line feed or a return.
unfoldable pub end_line : (i : ℕ) → Screen → Screen
end_line i s =
    let slp = line_at s i in
    let eso = if s.standing then max slp.eso s.cur_col else slp.eso in
    let cells =
      if ltb slp.len s.cur_col
      then fill slp.len (s.cur_col - slp.len + 1) slp.cells
      else slp.cells in
    record (put_line i (record slp { eso = eso; cells = cells; len = s.cur_col }) s) {
      standing = false;
      cur_col = 0;
      cur_ln = next_line s;
    }

-- The line that outch makes longer to reach the column,
unfoldable pub reach : (col : ℕ) → Line → Line
reach col slp =
    if leb slp.len col
    then record slp {
      cells = set (fill slp.len (col - slp.len) slp.cells) col 0;
      len = (col + 1) % 256;
    }
    else slp

-- and the byte that it puts there, if it is another one.
unfoldable pub put_byte : (c col : ℕ) → Line → Line
put_byte c col slp =
    if get_or slp.cells col 0 == c
    then slp
    else (let smod = if slp.modified then slp.smod else col in
        let emod = if slp.modified then slp.emod else col in
        record slp {
          cells = set slp.cells col c;
          modified = true;
          smod = min smod col;
          emod = max emod col;
        })

-- The end of outch: the cursor goes on, at the right edge to the next line.
unfoldable pub advance : (i : ℕ) → Screen → Screen
advance i s =
    let col = (s.cur_col + 1) % 256 in
    let slp = line_at s i in
    if leb s.scr_cols col
    then (let ends = s.standing && slp.standout_mode in
        let s' = if ends then put_line i (record slp { eso = max slp.eso col }) s else s in
        record s' {
          standing = if ends then false else s.standing;
          cur_col = 0;
          cur_ln = next_line s;
        })
    else record s { cur_col = col }

unfoldable pub outch : (c : ℕ) → Screen → Screen
unfolding end_line reach put_byte advance
outch c s =
    let i = row_of s.scr_lns s.cur_ln s.roll in
    if (c == b'\n') || (c == b'\r')
    then end_line i s
    else advance i (put_line i (put_byte c s.cur_col (reach s.cur_col (line_at s i))) s)

unfoldable pub clear : Screen → Screen
clear s = record s {
  docls = true;
  cur_col = 0;
  cur_ln = 0;
  roll = 0;
  big_picture =
      map
        (λ (slp : Line). record slp {
          modified = false;
          standout_mode = false;
          len = 0;
          oldlen = 0;
        })
        s.big_picture;
}

unfoldable pub clrtoeol : Screen → Screen
clrtoeol s =
    let i = row_of s.scr_lns s.cur_ln s.roll in
    let slp = line_at s i in
    let d1 =
      if ltb slp.oldlen s.cur_col
      then fill slp.len (s.cur_col + 1 - slp.len) slp.cells
      else slp.cells in
    let d2 = if ltb s.cur_col slp.oldlen then fill s.cur_col (slp.len + 1 - s.cur_col) d1 else d1 in
    record (put_line i
      (record slp {
        standout_mode = slp.standout_mode && not (leb s.cur_col slp.sso);
        cells = d2;
        len = s.cur_col;
      })
      s) { standing = false }

-- The loop of clrtoline, for `count` lines from the place `j` on.
abbrev pub clr_loop : (count j n : ℕ) → List Line → List Line
clr_loop zero j n bp = bp
clr_loop (suc count) j n bp =
    let j = if leb n j then j - n else j in
    let slp = get_or bp j no_line in
    clr_loop count (j + 1) n (
      set bp j (record slp {
        modified = false;
        standout_mode = false;
        len = 0;
        oldlen = if slp.oldlen == 0 then 0 else 255;
      }))

unfoldable pub clrtoline : (line : ℕ) → Screen → Screen
clrtoline line s = record s {
  big_picture = clr_loop (line - s.cur_ln) (s.cur_ln + s.roll) s.scr_lns s.big_picture;
}

unfoldable pub clrtobot : Screen → Screen
unfolding clrtoline
clrtobot s = clrtoline s.scr_lns s

unfoldable pub scroll : Screen → Screen
unfolding clrtoeol
scroll s =
    let roll = if leb s.scr_lns (s.roll + 1) then 0 else s.roll + 1 in
    clrtoeol (move (s.t_lines - 1) 0 (record s { scrollcnt = suc_int s.scrollcnt; roll = roll }))

unfoldable pub rscroll : Screen → Screen
unfolding clrtoeol
rscroll s =
    let roll = if s.roll == 0 then s.t_lines - 1 else s.roll - 1 in
    clrtoeol (move 0 0 (record s { scrollcnt = pred_int s.scrollcnt; roll = roll }))

unfoldable pub standout : Screen → Screen
standout s =
    if not s.standing && s.has_standout
    then (let i = (s.cur_ln + s.roll) % s.scr_lns in
        record (put_line i
          (record (line_at s i) { sso = s.cur_col; eso = s.cur_col; standout_mode = true }) s) {
            standing = true;
          })
    else s

unfoldable pub standend : Screen → Screen
standend s =
    if s.standing && s.has_standout
    then (let i = (s.cur_ln + s.roll) % s.scr_lns in
        let slp = line_at s i in
        record (put_line i (record slp { eso = max slp.eso s.cur_col }) s) { standing = false })
    else s
