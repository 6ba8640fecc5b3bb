-- ===== src/Editor.antt =====
-- mbbsd/edit.c, the text of the editor: the doubly linked list from `firstline` to `lastline` is the
-- list of its lines, and a `textline_t *` is a position in it. `len` of a line is the length of its
-- `data`. Drawing is left out; `redraw_everything` is kept.
pub mod Ansi
pub mod Wrap
pub mod Insert
pub mod Strings
pub mod Paste
pub mod Lines
pub mod Join
pub mod Cutting
pub mod Joining
use openptt.Prelude.{
  ℕ, zero, suc, ◌+◌, ◌-◌, ◌%◌, Bool, true, false, Option, none, some, List, [], ◌∷◌, ◌++◌, ltb, leb,
  ◌==◌, if◌then◌else◌, ◌&&◌, ◌||◌, not, length, get_or, set, take, drop, replicate,
}
use openptt.Prelude.Bytes.{Bytes}

-- WRAPMARGIN; a line's buffer has one byte more.
abbrev pub wrapmargin : ℕ
wrapmargin = 511

abbrev pub key_esc : ℕ
key_esc = 27

pub record Editor : Type 0 where
  pub lines : List Bytes
  pub currline : ℕ
  pub top_of_win : ℕ
  pub blockline : Option ℕ
  pub deleted_lines : List Bytes
  pub currpnt : ℕ
  pub currln : ℕ
  pub totaln : ℕ
  pub curr_window_line : ℕ
  pub redraw_everything : Bool
  pub insert_character : Bool
  pub my_ansimode : Bool
  pub indent_mode : Bool

abbrev pub line_at : Editor → ℕ → Bytes
line_at e k = get_or e.lines k []

-- isalpha in the C locale.
abbrev pub isalpha : ℕ → Bool
isalpha c = (leb b'A' c && leb c b'Z') || (leb b'a' c && leb c b'z')

-- The inner loop of ansi2n and n2ansi, from the escape on: up to the first letter and past it.
-- It gives the number of bytes passed, and the rest.
unfoldable pub skip_code : Bytes → ℕ × Bytes
skip_code [] = (0, [])
skip_code (c ∷ s) = let (n, rest) = skip_code s in if isalpha c then (1, s) else (n + 1, rest)

-- ansi2n: the byte position of screen column `ansix`. The rounds are at most the bytes left.
unfoldable pub ansi2n_loop : (fuel ansix at : ℕ) → Bytes → ℕ
ansi2n_loop zero x at s = at
ansi2n_loop (suc fuel) x at [] = at
ansi2n_loop (suc fuel) x at (c ∷ s) = elim (c == key_esc) [
  | true ↦ let (n, rest) = skip_code (c ∷ s) in ansi2n_loop fuel x (at + n) rest
  | false ↦ elim x [ zero ↦ at | suc y ↦ ansi2n_loop fuel y (at + 1) s ]
]

unfoldable pub ansi2n : ℕ → Bytes → ℕ
ansi2n x s = ansi2n_loop (suc (length s)) x 0 s

-- n2ansi: the screen column of byte position `nx`.
unfoldable pub n2ansi_loop : (fuel nx at x : ℕ) → Bytes → ℕ
n2ansi_loop zero nx at x s = x
n2ansi_loop (suc fuel) nx at x [] = x
n2ansi_loop (suc fuel) nx at x (c ∷ s) = elim (c == key_esc) [
  | true ↦ let (n, rest) = skip_code (c ∷ s) in n2ansi_loop fuel nx (at + n) x rest
  | false ↦ elim (leb nx at) [ true ↦ x | false ↦ n2ansi_loop fuel nx (at + 1) (x + 1) s ]
]

pub n2ansi : ℕ → Bytes → ℕ
n2ansi nx s = n2ansi_loop (suc (length s)) nx 0 0 s

-- back_line and forward_line, with the new `currln`.
pub back_line : (pos num currln : ℕ) → ℕ × ℕ
back_line pos zero currln = (pos, currln)
back_line zero (suc num) currln = (zero, currln)
back_line (suc pos) (suc num) currln = back_line pos num (currln - 1)

pub forward_line : (total num pos currln : ℕ) → ℕ × ℕ
forward_line total zero pos currln = (pos, currln)
forward_line total (suc num) pos currln = elim (ltb (pos + 1) total) [
  | true ↦ forward_line total num (pos + 1) (currln + 1)
  | false ↦ forward_line total num pos currln
]

-- A position behind the place of a new line moves on.
abbrev pub behind : ℕ → ℕ → ℕ
behind k p = if ltb k p then p + 1 else p

abbrev pub insert_after : ℕ → Bytes → List Bytes → List Bytes
insert_after k p [] = p ∷ []
insert_after zero p (l ∷ ls) = l ∷ p ∷ ls
insert_after (suc k) p (l ∷ ls) = l ∷ insert_after k p ls

-- append(p, line)
unfoldable pub append : Bytes → ℕ → Editor → Editor
append p k e = record e {
  lines = insert_after k p e.lines;
  currline = behind k e.currline;
  top_of_win = behind k e.top_of_win;
  blockline = elim e.blockline [ none ↦ none | some b ↦ some (behind k b) ];
}

abbrev pub erase_idx : ℕ → List Bytes → List Bytes
erase_idx k [] = []
erase_idx zero (l ∷ ls) = ls
erase_idx (suc k) (l ∷ ls) = l ∷ erase_idx k ls

abbrev pub ahead : ℕ → ℕ → ℕ
ahead k p = if ltb k p then p - 1 else p

-- delete_line(line). A pointer to the line itself dangles after it; its callers set it anew.
unfoldable pub delete_line : ℕ → Editor → Editor
delete_line k e = if length e.lines == 1 then record e { lines = set e.lines k [] } else record e {
  lines = erase_idx k e.lines;
  currline = ahead k e.currline;
  top_of_win = ahead k e.top_of_win;
  blockline = elim e.blockline [ none ↦ none | some b ↦ some (ahead k b) ];
  deleted_lines = (line_at e k ++ b'\n' ∷ []) ∷ e.deleted_lines;
  totaln = e.totaln - 1;
}

-- The number of leading spaces, and whether something follows them.
unfoldable pub leading : Bytes → ℕ × Bool
leading [] = (0, false)
leading (c ∷ s) = let (n, more) = leading s in if c == b' ' then (n + 1, more) else (0, true)

-- The loop of indent_spcs, from line `k` upwards.
unfoldable pub indent_from : (k : ℕ) → List Bytes → ℕ
unfolding leading
indent_from zero ls = let (n, more) = leading (get_or ls zero []) in if more then n else 0
indent_from (suc k) ls =
    let up = indent_from k ls in
    let (n, more) = leading (get_or ls (suc k) []) in if more then n else up

unfoldable pub indent_spcs : Editor → ℕ
indent_spcs e = if e.indent_mode then indent_from e.currline e.lines else 0

-- split(line, pos) of line `k`.
unfoldable pub split : (k pos : ℕ) → Editor → Editor
split k pos e =
    if leb pos (length (line_at e k))
    then (let spcs = indent_spcs e in
        let p = replicate spcs b' ' ++ drop pos (line_at e k) in
        let cut = record e {
          lines = set e.lines k (take pos (line_at e k));
          totaln = e.totaln + 1;
        } in
        let e' = record (append p k cut) { redraw_everything = true } in
        if (k == e.currline) && leb pos e.currpnt
        then record e' {
          currline = k + 1;
          currpnt = if pos == e.currpnt then spcs else e.currpnt - pos;
          curr_window_line = e.curr_window_line + 1;
          currln = e.currln + 1;
        }
        else e')
    else e

-- The two loops that look for the place to wrap at, from position `s` down.
unfoldable pub back_over : (Bytes → ℕ → Bool) → ℕ → Bytes → ℕ
back_over test zero d = zero
back_over test (suc s) d = elim (test d (suc s)) [ true ↦ back_over test s d | false ↦ suc s ]

abbrev pub is_space : Bytes → ℕ → Bool
is_space d s = get_or d s 0 == b' '

abbrev pub not_space : Bytes → ℕ → Bool
not_space d s = not (get_or d s 0 == b' ')

-- Where a full line `d` wraps; 0 for no word boundary.
pub wrap_point : Bytes → ℕ
unfolding back_over
wrap_point d = back_over not_space (back_over is_space (length d - 1) d) d

abbrev pub pad_word : Bytes → Bytes
pad_word d = if leb 1 (length d) && not_space d (length d - 1) then d ++ b' ' ∷ [] else d

-- The end of insert_char: a line that is full is split.
pub wrap : Editor → Editor
wrap e =
    let k = e.currline in
    let d = line_at e k in
    if ltb (length d) wrapmargin
    then e
    else (let s = wrap_point d in
        if s == 0
        then split k (length d - 1) e
        else (let e' = split k (s + 1) e in
            record e' { lines = set e'.lines (k + 1) (pad_word (line_at e' (k + 1))) }))

unfoldable pub insert_char : ℕ → Editor → Editor
insert_char ch e =
    let d = line_at e e.currline in
    let n = e.currpnt in
    if ltb (length d) n
    then e
    else (if ltb n (length d) && not e.insert_character
        then (let d' = set d n ch in
            wrap (record e {
              lines = set e.lines e.currline d';
              currpnt = if e.my_ansimode then ansi2n (n2ansi (n + 1) d') d' else n + 1;
            }))
        else wrap (record e {
          lines = set e.lines e.currline (take n d ++ ch ∷ drop n d);
          currpnt = n + 1;
        }))

pub delete_char : Editor → Editor
delete_char e =
    let d = line_at e e.currline in
    if ltb e.currpnt (length d)
    then record e { lines = set e.lines e.currline (take e.currpnt d ++ drop (e.currpnt + 1) d) }
    else e

-- isprint2 of mbbsd/stuff.c, in the C locale.
abbrev pub isprint2 : ℕ → Bool
isprint2 ch = leb 128 ch || (leb b' ' ch && ltb ch 127)
