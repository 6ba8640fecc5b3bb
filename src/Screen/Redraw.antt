-- ===== src/Screen/Redraw.antt =====
-- redoscr, refresh and region_scroll_up of mbbsd/screen.c, with what they write to the terminal.
use openptt.Prelude.{
  ℤ, pos, negsuc, ℕ, zero, suc, ◌+◌, ◌-◌, Bool, false, List, [], ◌∷◌, ◌++◌, ltb, leb, ◌==◌,
  if◌then◌else◌, ◌&&◌, ◌||◌, map, get_or, set, replicate,
}
use openptt.Terminal.{Cmd, char, text, Cursor, rel_move, slice, standoutput}
use openptt.Screen.{Line, Screen, no_line, ansilinelen}

-- The commands of rel_move and standoutput, and the other strings that the functions write.
pub data Out : Type 0 where
  plain : Cmd → Out
  o_clear o_cleol o_scrollrev save_cursor restore_cursor scroll_forward : Out
  change_scroll_range : (top bottom : ℕ) → Out

-- The bytes of a line from `a` to before `b`, highlighted as its mode says.
unfoldable pub line_output : Line → (a b : ℕ) → List Out
line_output bp a b = map plain (
    if bp.standout_mode
    then standoutput bp.cells a b bp.sso bp.eso
    else text (slice a b bp.cells) ∷ [])

-- Where redoscr takes the cursor to be behind a line.
abbrev pub past_line : Screen → Cursor → Cursor
past_line s tc =
    if leb s.t_columns tc.tc_col
    then (if s.automargins then record tc { tc_col = s.t_columns - 1 } else record {
      tc_col = tc.tc_col - s.t_columns;
      tc_line = if leb s.t_lines (tc.tc_line + 1) then s.t_lines - 1 else tc.tc_line + 1;
    })
    else tc

-- The loop of redoscr: `i` is the line of the screen, `j` its place.
unfoldable pub redo_loop : (count i j : ℕ) → Screen → List Out × Screen
unfolding rel_move line_output
redo_loop zero i j s = ([], s)
redo_loop (suc count) i j s =
    let j = if leb s.scr_lns j then 0 else j in
    let bp = get_or s.big_picture j no_line in
    if bp.len == 0
    then redo_loop count (i + 1) (j + 1) s
    else (let (to, tc) = rel_move s.t_lines s.t_columns s.tc.tc_col s.tc.tc_line 0 i s.tc in
        let (more, s') = redo_loop count (i + 1) (j + 1) (record s {
          big_picture = set s.big_picture j (record bp { modified = false; oldlen = bp.len });
          tc = past_line s (record tc { tc_col = tc.tc_col + bp.len });
        }) in
        (map plain to ++ (line_output bp 0 bp.len ++ more), s'))

unfoldable pub redoscr : Screen → List Out × Screen
unfolding redo_loop rel_move
redoscr s =
    let (more, s') =
      redo_loop s.scr_lns 0 s.roll (record s { tc = record { tc_col = 0; tc_line = 0 } }) in
    let (to, tc) =
      rel_move s'.t_lines s'.t_columns s'.tc.tc_col s'.tc.tc_line s'.cur_col s'.cur_ln s'.tc in
    (o_clear ∷ (more ++ map plain to), record s' { docls = false; scrollcnt = pos 0; tc = tc })

-- The part of refresh that writes what has been changed of a line.
unfoldable pub paint : (i : ℕ) → Line → Screen → List Out × Line × Cursor
unfolding rel_move line_output
paint i bp s =
    if bp.modified && ltb bp.smod bp.len
    then (let emod = if leb bp.len bp.emod then bp.len - 1 else bp.emod in
        let (to, tc) = rel_move s.t_lines s.t_columns s.tc.tc_col s.tc.tc_line bp.smod i s.tc in
        let col = emod + 1 in
        (
          map plain to ++ line_output bp bp.smod (emod + 1),
          record bp { modified = false; emod = emod },
          (if leb s.t_columns col
              then (if s.automargins
                  then record {
                    tc_col = col - s.t_columns;
                    tc_line =
                        if leb s.t_lines (tc.tc_line + 1) then s.t_lines - 1 else tc.tc_line + 1;
                  }
                  else record tc { tc_col = s.t_columns - 1 })
              else record tc { tc_col = col }),
        ))
    else ([], bp, s.tc)

-- The part that erases the rest of a line that has got shorter.
unfoldable pub erase : (i : ℕ) → Line → Screen → List Out × Cursor
unfolding rel_move
erase i bp s =
    if ltb bp.len bp.oldlen
    then (let (to, tc) = rel_move s.t_lines s.t_columns s.tc.tc_col s.tc.tc_line bp.len i s.tc in
        (map plain to ++ o_cleol ∷ [], tc))
    else ([], s.tc)

unfoldable pub refresh_loop : (count i j : ℕ) → Screen → List Out × Screen
unfolding paint erase
refresh_loop zero i j s = ([], s)
refresh_loop (suc count) i j s =
    let j = if leb s.scr_lns j then 0 else j in
    let (painted, bp, tc) = paint i (get_or s.big_picture j no_line) s in
    let (erased, tc') = erase i bp (record s { tc = tc }) in
    let (more, s') =
      refresh_loop count (i + 1) (j + 1) (record s {
        big_picture = set s.big_picture j (record bp { oldlen = bp.len });
        tc = tc';
      }) in
    (painted ++ (erased ++ more), s')

-- The lines that refresh writes after scrolling.
unfoldable pub refresh_lines : List Out → Screen → List Out × Screen
unfolding refresh_loop rel_move
refresh_lines scrolled s =
    let (more, s') = refresh_loop s.scr_lns 0 s.roll s in
    let (to, tc) =
      rel_move s'.t_lines s'.t_columns s'.tc.tc_col s'.tc.tc_line s'.cur_col s'.cur_ln s'.tc in
    (scrolled ++ (more ++ map plain to), record s' { tc = tc })

abbrev pub abs : ℤ → ℕ
abs (pos n) = n
abs (negsuc n) = n + 1

-- refresh; `typed` is num_in_buf() != 0, and nothing is drawn while keys wait.
unfoldable pub refresh : (typed : Bool) → Screen → List Out × Screen
unfolding redoscr refresh_lines rel_move
refresh typed s =
    if typed
    then ([], s)
    else (if s.docls || leb s.scr_lns (abs s.scrollcnt + 3)
        then redoscr s
        else (elim s.scrollcnt as (λ _. List Out × Screen) [
          | pos zero ↦ refresh_lines [] s
          | pos (suc n) ↦
              let (to, tc) =
                rel_move s.t_lines s.t_columns s.tc.tc_col s.tc.tc_line 0 (s.t_lines - 1) s.tc in
              refresh_lines (map plain to ++ replicate (suc n) (plain (char b'\n')))
                (record s { tc = tc; scrollcnt = pos 0 })
          | negsuc n ↦
              if s.has_scrollrev
              then (let (to, tc) =
                    rel_move s.t_lines s.t_columns s.tc.tc_col s.tc.tc_line 0 0 s.tc in
                  refresh_lines (map plain to ++ replicate (suc n) o_scrollrev)
                    (record s { tc = tc; scrollcnt = pos 0 }))
              else redoscr s
        ]))

-- The loop of region_scroll_up.
abbrev pub shift_lines : (count i : ℕ) → List Line → List Line
shift_lines zero i bp = bp
shift_lines (suc count) i bp = shift_lines count (suc i) (set bp i (get_or bp (suc i) no_line))

abbrev pub blank_line : Screen → Line
blank_line s = record no_line {
  cells = replicate s.scr_cols b' ' ++ replicate (ansilinelen + 1 - s.scr_cols) 0;
}

-- region_scroll_up, for lines that are not negative.
unfoldable pub region_scroll_up : (typed : Bool) → (top bottom : ℕ) → Screen → List Out × Screen
unfolding refresh
region_scroll_up typed a b s =
    let top = if ltb b a then b else a in
    let bottom = if ltb b a then a else b in
    if leb s.scr_lns bottom
    then ([], s)
    else (let (more, s') = refresh typed (record s {
      big_picture = set (shift_lines (bottom - top) top s.big_picture) bottom (blank_line s);
    }) in
        (
          save_cursor
              ∷ change_scroll_range top bottom
              ∷ plain (Cmd.goto 0 bottom)
              ∷ scroll_forward
              ∷ change_scroll_range 0 (s.scr_lns - 1)
              ∷ restore_cursor
              ∷ more,
          s',
        ))
