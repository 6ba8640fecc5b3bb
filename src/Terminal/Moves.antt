-- ===== src/Terminal/Moves.antt =====
-- rel_move of mbbsd/screen.c, on a terminal with a cursor.
use openptt.Prelude.{ℕ, ◌+◌, ◌-◌, ◌<◌, ◌≤◌, ◌≡◌, List, [], ◌∷◌, arith, ◌==◌, if◌then◌else◌, length}
use openptt.Terminal.{Cmd, char, text, goto, standup, standdown, Cursor, rel_move}

-- What a terminal does with its cursor: a return goes to the first column, a line feed down a line, a
-- backspace a column to the left.
abbrev pub obey : Cmd → Cursor → Cursor
obey (char c) k =
    if c == b'\r'
    then record k { tc_col = 0 }
    else (if c == b'\n'
        then record k { tc_line = k.tc_line + 1 }
        else (if c == 8
            then record k { tc_col = k.tc_col - 1 }
            else record k { tc_col = k.tc_col + 1 }))
obey (text s) k = record k { tc_col = k.tc_col + length s }
obey (goto col ln) k = record { tc_col = col; tc_line = ln }
obey standup k = k
obey standdown k = k

abbrev pub obey_all : List Cmd → Cursor → Cursor
obey_all [] k = k
obey_all (c ∷ cs) k = obey_all cs (obey c k)

-- On a terminal whose cursor is where the code takes it to be, rel_move brings it to any place of
-- the screen, notes that place, and writes at most two commands.
pub rel_move_lem :
    (t_lines t_columns new_col new_ln : ℕ) (tc : Cursor)
    → new_ln < t_lines
    → new_col < t_columns
    → (obey_all (rel_move t_lines t_columns tc.tc_col tc.tc_line new_col new_ln tc).0 tc
        ≡ record { tc_col = new_col; tc_line = new_ln })
      × ((rel_move t_lines t_columns tc.tc_col tc.tc_line new_col new_ln tc).1
          ≡ record { tc_col = new_col; tc_line = new_ln })
      × (length (rel_move t_lines t_columns tc.tc_col tc.tc_line new_col new_ln tc).0 ≤ 2)
unfolding rel_move
rel_move_lem t_lines t_columns new_col new_ln tc low left = ground arith
