-- ===== src/Examples/Editor.antt =====
-- A text of two lines.
use openptt.Prelude.{
  drop, suc, ◌+◌, ◌-◌, ◌≡◌, refl, arith, true, false, none, [], ◌∷◌, ◌++◌, length, replicate,
}
use openptt.Prelude.Bytes.{Bytes, codes}
use openptt.Editor.{
  Editor, line_at, key_esc, leading, skip_code, ansi2n_loop, ansi2n, split, append, indent_spcs,
  insert_char, delete_char,
}
use openptt.Editor.Wrap.{IsValid}
use openptt.Editor.Join.{join, join_pad}
use openptt.Editor.Joining.{Ends, join-Ends}
use openptt.Editor.Insert.{insert_char-IsValid, delete_char-insert_char, split-indented}

-- The cursor stands behind "  on" of the first line.
abbrev two_lines : Editor
two_lines = record {
  lines = codes "  one" ∷ codes "two" ∷ [];
  currline = 0;
  top_of_win = 0;
  blockline = none;
  deleted_lines = [];
  currpnt = 4;
  currln = 0;
  totaln = 2;
  curr_window_line = 0;
  redraw_everything = false;
  insert_character = true;
  my_ansimode = false;
  indent_mode = false;
}

abbrev indenting : Editor
indenting = record two_lines { indent_mode = true }

two_lines-IsValid : IsValid two_lines
two_lines-IsValid = record {
  within = omega arith;
  short = (omega arith, (omega arith, tt));
  point = omega arith;
  total = refl;
}

split_run : (split 0 4 two_lines).lines ≡ codes "  on" ∷ codes "e" ∷ codes "two" ∷ []
unfolding split append indent_spcs
split_run = refl

insert_char-IsValid_example : IsValid (insert_char b'x' two_lines)
insert_char-IsValid_example = insert_char-IsValid b'x' two_lines refl two_lines-IsValid

delete_char-insert_char_example :
    delete_char
      (record (insert_char b'x' two_lines) { currpnt = (insert_char b'x' two_lines).currpnt - 1 })
    ≡ two_lines
delete_char-insert_char_example =
    delete_char-insert_char b'x' two_lines two_lines-IsValid refl (omega arith)

split-indented_example :
    (line_at (split indenting.currline 4 indenting) (suc indenting.currline)
      ≡ replicate 2 b' ' ++ drop 4 (line_at indenting indenting.currline))
    × (length (line_at (split indenting.currline 4 indenting) (suc indenting.currline))
        ≡ 2 + (length (line_at indenting indenting.currline) - 4))
split-indented_example =
    split-indented 2 4 indenting refl (omega arith) (unfold leading in refl) (omega arith)

abbrev coloured : Bytes
coloured = codes "ab" ++ key_esc ∷ codes "[1mcd"

ansi2n_run : ansi2n 3 coloured ≡ 7
unfolding ansi2n ansi2n_loop skip_code
ansi2n_run = refl

abbrev long_lines : Editor
long_lines = record two_lines {
  lines = replicate 300 b'a' ∷ (replicate 200 b'b' ++ b' ' ∷ replicate 99 b'c' ++ b'.' ∷ []) ∷ [];
}

join-Ends_example : Ends (join 2 0 long_lines)
join-Ends_example = join-Ends 0 long_lines refl (omega arith, (omega arith, tt))

-- The "." at the end is lost.
join_pad_run : join_pad (replicate 99 b'c' ++ b'.' ∷ []) ≡ replicate 99 b'c' ++ b' ' ∷ 0 ∷ []
unfolding join_pad
join_pad_run = refl
