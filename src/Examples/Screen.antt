-- ===== src/Examples/Screen.antt =====
-- The screen and the terminal.
use openptt.Prelude.{pos, ℕ, ◌≡◌, refl, true, false, [], arith, ltb, ◌==◌, if◌then◌else◌, ◌&&◌}
use openptt.Prelude.Bytes.{codes}
use openptt.Terminal.{rel_move}
use openptt.Screen.{
  Screen, initscr, move, outch, reach, put_byte, advance, clrtoeol, clrtoline, clrtobot, row_of,
  line_at,
}
use openptt.Screen.Redraw.{
  redoscr, refresh, redo_loop, refresh_loop, refresh_lines, paint, erase, line_output,
}
use openptt.Screen.Colours.{outchs, parsecolor, tokens, keep_loop, atoi}
use openptt.Screen.Picture.{IsScreen, picture, initscr-IsScreen}
use openptt.Screen.Display.{Display, obey_all}
use openptt.Screen.Shown.{redoscr_lem}
use openptt.Screen.Drawing.{outch_lem, drawing_line}
use openptt.Screen.Clearing.{clrtoeol_lem, kept}

abbrev none : Screen
none = record {
  t_lines = 0;
  t_columns = 80;
  scr_lns = 0;
  scr_cols = 0;
  automargins = true;
  has_standout = true;
  has_scrollrev = true;
  big_picture = [];
  cur_ln = 0;
  cur_col = 0;
  docls = false;
  standing = false;
  roll = 0;
  scrollcnt = pos 0;
  tc = record { tc_col = 0; tc_line = 0 };
}

abbrev screen : Screen
unfolding initscr
screen = initscr 4 none

abbrev display : Display
display = record {
  at = λ y x. b'?';
  cursor = record { tc_col = 5; tc_line = 2 };
  saved = record { tc_col = 0; tc_line = 0 };
  top = 0;
  bottom = 3;
}

screen-IsScreen : IsScreen screen
unfolding initscr
screen-IsScreen = initscr-IsScreen 4 none (omega arith) (omega arith) refl

redoscr_lem_example :
    ((y x : ℕ) → (obey_all (redoscr screen).0 display).at y x ≡ picture screen y x)
    × ((obey_all (redoscr screen).0 display).cursor ≡ record { tc_col = 0; tc_line = 0 })
    × ((redoscr screen).1.tc ≡ record { tc_col = 0; tc_line = 0 })
unfolding initscr
redoscr_lem_example =
    redoscr_lem screen display screen-IsScreen (omega arith) (omega arith) (omega arith)

outch_lem_example :
    IsScreen (outch b'a' screen)
    × ((y x : ℕ)
        → picture (outch b'a' screen) y x
          ≡ (if (y == drawing_line screen) && (x == 0) then b'a' else picture screen y x))
    × ((outch b'a' screen).cur_ln ≡ 0)
    × ((outch b'a' screen).cur_col ≡ 1)
unfolding initscr
outch_lem_example = outch_lem b'a' screen screen-IsScreen (omega arith) (omega arith) refl

clrtoeol_lem_example :
    IsScreen (clrtoeol screen)
    × ((y x : ℕ)
        → picture (clrtoeol screen) y x ≡ (
            if y == 0
            then (if ltb x 0 then kept 0 (line_at screen (row_of 4 0 0)) x else b' ')
            else picture screen y x))
unfolding initscr
clrtoeol_lem_example = clrtoeol_lem screen screen-IsScreen (omega arith) (omega arith)

-- A greeting that is on the terminal; then the screen is cleared, and a byte put behind a gap.
abbrev greeted : Screen
unfolding redoscr redo_loop rel_move line_output outch reach put_byte advance
greeted = (redoscr (outchs (codes "hello") screen)).1

abbrev gap : Screen
unfolding clrtobot clrtoline outch reach put_byte advance
gap = outch b'x' (move 0 3 (clrtobot (move 0 0 greeted)))

abbrev shown : Display
unfolding redoscr redo_loop rel_move line_output outch reach put_byte advance
shown = obey_all (redoscr (outchs (codes "hello") screen)).0 display

-- refresh leaves in the gap what the terminal had there.
gap-refresh : (picture gap 0 2 ≡ b' ') × ((obey_all (refresh false gap).0 shown).at 0 2 ≡ b'l')
unfolding initscr refresh refresh_lines refresh_loop paint erase redoscr redo_loop rel_move
    line_output outch reach put_byte advance clrtobot clrtoline
gap-refresh = (refl, refl)

-- Colours go, the rest of a sequence stays.
parsecolor_run : parsecolor (codes "1;33;40") ≡ codes "1"
unfolding parsecolor tokens keep_loop atoi
parsecolor_run = refl
