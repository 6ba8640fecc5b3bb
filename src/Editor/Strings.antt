-- ===== src/Editor/Strings.antt =====
-- insert_string and undelete_line of mbbsd/edit.c.
use openptt.Prelude.{
  ℕ, zero, suc, ◌%◌, true, false, Option, none, some, [], ◌∷◌, ◌==◌, if◌then◌else◌, ◌||◌,
}
use openptt.Prelude.Bytes.{Bytes}
use openptt.Editor.{Editor, key_esc, split, insert_char, isprint2}

-- The loop on a tab: spaces up to the next multiple of 8. `none` is a loop that goes on.
unfoldable pub tab_loop : ℕ → Editor → Option Editor
tab_loop zero e = none
tab_loop (suc fuel) e =
    let e' = insert_char b' ' e in
    elim (e'.currpnt % 8 == 0) [ true ↦ some e' | false ↦ tab_loop fuel e' ]

-- The rounds that the loop on a tab is given: two lines full.
abbrev pub tab_rounds : ℕ
tab_rounds = 1024

-- The body of the loop of insert_string.
unfoldable pub insert_byte : ℕ → Editor → Option Editor
insert_byte ch e =
    if isprint2 ch || (ch == key_esc)
    then some (insert_char ch e)
    else (if ch == b'\t'
        then tab_loop tab_rounds e
        else (if ch == b'\n' then some (split e.currline e.currpnt e) else some e))

-- insert_string
unfoldable pub insert_string : Bytes → Editor → Option Editor
insert_string [] e = some e
insert_string (ch ∷ str) e = elim (insert_byte ch e) [
  | none ↦ none
  | some e' ↦ insert_string str e'
]

-- undelete_line. The node of `currline` keeps its position, as what is put in comes behind it, and
-- `append` has moved the position of `top_of_win` with its node.
pub undelete_line : Editor → Option Editor
undelete_line e = elim e.deleted_lines [
  | [] ↦ some e
  | p ∷ ps ↦ elim (insert_string p (record e { indent_mode = false })) [
    | none ↦ none
    | some e' ↦ some (record e' {
      indent_mode = e.indent_mode;
      deleted_lines = ps;
      currline = e.currline;
      currpnt = e.currpnt;
      currln = e.currln;
      curr_window_line = e.curr_window_line;
    })
  ]
]
