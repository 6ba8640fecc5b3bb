-- ===== src/Terminal.antt =====
-- The output to the terminal: oflush, output and ochar of mbbsd/io.c, and rel_move and standoutput of
-- mbbsd/screen.c. What the latter two write is a list of commands: a control byte, text, the move of
-- do_move, and the two strings that switch highlighting.
pub mod Buffer
pub mod Moves
pub mod Highlight
use Prim.Native.Nat.{max, min}
use openptt.Prelude.{
  ℕ, ◌+◌, ◌-◌, Bool, true, false, List, [], ◌∷◌, ◌++◌, ltb, leb, ◌==◌, if◌then◌else◌, ◌&&◌, ◌||◌,
  not, length, take, drop,
}
use openptt.Prelude.Bytes.{Bytes}

-- What has been written, and outbuf; obufsize is its length. The write is taken to write all.
pub record Io : Type 0 where
  pub sent : Bytes
  pub outbuf : Bytes

abbrev pub flushed : Io → Io
flushed io = record { sent = io.sent ++ io.outbuf; outbuf = [] }

pub oflush : Io → Io
oflush io = if length io.outbuf == 0 then io else flushed io

-- output, with `size` for OBUFSIZE.
pub output : (size : ℕ) → Bytes → Io → Io
output size s io =
    let io = if ltb size (length io.outbuf + length s) then flushed io else io in
    record io { outbuf = io.outbuf ++ s }

pub ochar : (size c : ℕ) → Io → Io
ochar size c io =
    let io = if ltb (size - 1) (length io.outbuf) then flushed io else io in
    record io { outbuf = io.outbuf ++ c ∷ [] }

pub data Cmd : Type 0 where
  char : ℕ → Cmd
  text : Bytes → Cmd
  goto : (col ln : ℕ) → Cmd
  standup standdown : Cmd

-- tc_col and tc_line, where the code takes the terminal's cursor to be.
pub record Cursor : Type 0 where
  pub tc_col : ℕ
  pub tc_line : ℕ

-- rel_move, with the sizes of the terminal.
unfoldable pub rel_move :
    (t_lines t_columns was_col was_ln new_col new_ln : ℕ) → Cursor → List Cmd × Cursor
rel_move t_lines t_columns was_col was_ln new_col new_ln tc =
    if leb t_lines new_ln || leb t_columns new_col
    then ([], tc)
    else (let tc' : Cursor = record { tc_col = new_col; tc_line = new_ln } in
        if (new_col == 0) && (new_ln == was_ln)
        then (if not (was_col == 0) then (char b'\r' ∷ [], tc') else ([], tc'))
        else (if (new_col == 0) && (new_ln == was_ln + 1)
            then (if not (was_col == 0)
                then (char b'\n' ∷ char b'\r' ∷ [], tc')
                else (char b'\n' ∷ [], tc'))
            else (if (new_ln == was_ln) && (was_col == new_col)
                then ([], tc')
                else (if (new_ln == was_ln) && (new_col + 1 == was_col)
                    then (char 8 ∷ [], tc')
                    else (goto new_col new_ln ∷ [], tc')))))

-- The bytes of `buf` from `a` to before `b`.
abbrev pub slice : (a b : ℕ) → Bytes → Bytes
slice a b buf = take (b - a) (drop a buf)

unfoldable pub standoutput : Bytes → (ds de sso eso : ℕ) → List Cmd
standoutput buf ds de sso eso =
    if leb eso ds || leb de sso
    then text (slice ds de buf) ∷ []
    else (let st_start = max sso ds in
        let st_end = min eso de in
        (if ltb ds sso then text (slice ds sso buf) ∷ [] else [])
        ++ (standup ∷ text (slice st_start st_end buf) ∷ standdown ∷ [])
        ++ (if ltb eso de then text (slice eso de buf) ∷ [] else []))
