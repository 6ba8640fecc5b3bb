-- ===== src/Screen/Display.antt =====
-- A terminal that obeys what mbbsd/screen.c writes. It shows each byte in a column of its own.
use openptt.Prelude.{
  ℕ, suc, ◌+◌, ◌-◌, ◌<◌, ◌≤◌, ◌≡◌, refl, sym, ◌∙◌, Bool, true, false, List, [], ◌∷◌, ◌++◌, arith,
  inl, inr, Bool-cases, ltb, leb, ◌==◌, if◌then◌else◌, ◌&&◌, ◌||◌, map, length, get_or,
}
use mathlib.Core.Path.{subst}
use openptt.Prelude.Bytes.{Bytes}
use openptt.Terminal.{Cmd, char, text, goto, standup, standdown, Cursor, rel_move, standoutput}
use openptt.Terminal.Highlight.{shown}
use openptt.Screen.Redraw.{
  Out, plain, o_clear, o_cleol, o_scrollrev, save_cursor, restore_cursor, scroll_forward,
  change_scroll_range,
}

-- The byte in each line and column, the cursor, and the lines that scroll.
pub record Display : Type 0 where
  pub at : ℕ → ℕ → ℕ
  pub cursor : Cursor
  pub saved : Cursor
  pub top : ℕ
  pub bottom : ℕ

-- A byte at the cursor.
abbrev pub put : ℕ → Display → Display
put c d = record d {
  at = λ y x. if (y == d.cursor.tc_line) && (x == d.cursor.tc_col) then c else d.at y x;
  cursor = record d.cursor { tc_col = d.cursor.tc_col + 1 };
}

abbrev pub write : Bytes → Display → Display
write [] d = d
write (c ∷ s) d = write s (put c d)

-- Down a line; from the last the others move up.
abbrev pub forward : Display → Display
forward d =
    if d.cursor.tc_line == d.bottom
    then record d {
      at = λ y x.
          if leb d.top y && ltb y d.bottom
          then d.at (y + 1) x
          else (if y == d.bottom then b' ' else d.at y x);
    }
    else record d { cursor = record d.cursor { tc_line = d.cursor.tc_line + 1 } }

abbrev pub backward : Display → Display
backward d =
    if d.cursor.tc_line == d.top
    then record d {
      at = λ y x.
          if ltb d.top y && leb y d.bottom
          then d.at (y - 1) x
          else (if y == d.top then b' ' else d.at y x);
    }
    else record d { cursor = record d.cursor { tc_line = d.cursor.tc_line - 1 } }

abbrev pub obey : Out → Display → Display
obey (plain (char c)) d =
    if c == b'\r'
    then record d { cursor = record d.cursor { tc_col = 0 } }
    else (if c == b'\n'
        then forward d
        else (if c == 8
            then record d { cursor = record d.cursor { tc_col = d.cursor.tc_col - 1 } }
            else put c d))
obey (plain (text s)) d = write s d
obey (plain (goto col ln)) d = record d { cursor = record { tc_col = col; tc_line = ln } }
obey (plain standup) d = d
obey (plain standdown) d = d
obey o_clear d = record d { at = λ y x. b' '; cursor = record { tc_col = 0; tc_line = 0 } }
obey o_cleol d = record d {
  at = λ y x. if (y == d.cursor.tc_line) && leb d.cursor.tc_col x then b' ' else d.at y x;
}
obey o_scrollrev d = backward d
obey save_cursor d = record d { saved = d.cursor }
obey restore_cursor d = record d { cursor = d.saved }
obey scroll_forward d = forward d
obey (change_scroll_range top bottom) d = record d {
  top = top;
  bottom = bottom;
  cursor = record { tc_col = 0; tc_line = 0 };
}

abbrev pub obey_all : List Out → Display → Display
obey_all [] d = d
obey_all (o ∷ os) d = obey_all os (obey o d)

pub obey_all-append :
    (os us : List Out) (d : Display) → obey_all (os ++ us) d ≡ obey_all us (obey_all os d)
obey_all-append [] us d = refl
obey_all-append (o ∷ os) us d = obey_all-append os us (obey o d)

write-append : (s t : Bytes) (d : Display) → write (s ++ t) d ≡ write t (write s d)
write-append [] t d = refl
write-append (c ∷ s) t d = write-append s t (put c d)

-- Text, highlighted or not.
abbrev pub IsText : List Cmd → Type 0
IsText [] = Unit {0}
IsText (text s ∷ cs) = IsText cs
IsText (standup ∷ cs) = IsText cs
IsText (standdown ∷ cs) = IsText cs
IsText (char c ∷ cs) = Path Bool true false
IsText (goto col ln ∷ cs) = Path Bool true false

pub obey_all-text :
    (cs : List Cmd) (d : Display) → IsText cs → obey_all (map plain cs) d ≡ write (shown cs) d
obey_all-text [] d h = refl
obey_all-text (text s ∷ cs) d h = obey_all-text cs (write s d) h ∙ sym (write-append s (shown cs) d)
obey_all-text (standup ∷ cs) d h = obey_all-text cs d h
obey_all-text (standdown ∷ cs) d h = obey_all-text cs d h
obey_all-text (char c ∷ cs) d h = cc
obey_all-text (goto col ln ∷ cs) d h = cc

pub standoutput-IsText : (buf : Bytes) (ds de sso eso : ℕ) → IsText (standoutput buf ds de sso eso)
unfolding standoutput
standoutput-IsText buf ds de sso eso = elim (Bool-cases (leb eso ds || leb de sso)) [
  | inl e ↦ rw (standoutput, e) tt
  | inr e ↦ elim (Bool-cases (ltb ds sso)) [
    | inl a ↦ elim (Bool-cases (ltb eso de)) [
      | inl z ↦ rw (standoutput, e, a, z) tt
      | inr z ↦ rw (standoutput, e, a, z) tt
    ]
    | inr a ↦ elim (Bool-cases (ltb eso de)) [
      | inl z ↦ rw (standoutput, e, a, z) tt
      | inr z ↦ rw (standoutput, e, a, z) tt
    ]
  ]
]

first_byte :
    (c : ℕ) (s : Bytes) (d : Display) (y x : ℕ)
    → (if (y == d.cursor.tc_line)
          && (leb (d.cursor.tc_col + 1) x && ltb x (d.cursor.tc_col + 1 + length s))
        then get_or s (x - (d.cursor.tc_col + 1)) 0
        else (if (y == d.cursor.tc_line) && (x == d.cursor.tc_col) then c else d.at y x))
      ≡ (if (y == d.cursor.tc_line)
            && (leb d.cursor.tc_col x && ltb x (d.cursor.tc_col + suc (length s)))
          then get_or (c ∷ s) (x - d.cursor.tc_col) 0
          else d.at y x)
first_byte c s d y x =
    let col = d.cursor.tc_col in
    elim (Bool-cases (x == col)) [
      | inl e ↦
          let none : x - col ≡ 0 = ground arith in
          let out : leb (col + 1) x ≡ false = ground arith in
          let low : leb col x ≡ true = ground arith in
          let high : ltb x (col + suc (length s)) ≡ true = ground arith in
          rw (none, out, low, high, e) (ground arith)
      | inr e ↦ elim (Bool-cases (leb (col + 1) x)) [
        | inl g ↦
            let more : x - col ≡ suc (x - (col + 1)) = ground arith in
            let low : leb col x ≡ true = ground arith in
            let same : ltb x (col + suc (length s)) ≡ ltb x (col + 1 + length s) = ground arith in
            rw (more, low, same, e, g) (ground arith)
        | inr g ↦ let low : leb col x ≡ false = ground arith in rw (low, e, g) (ground arith)
      ]
    ]

-- Where the text gets to, and the cursor.
pub write_lem :
    (s : Bytes) (d : Display)
    → ((write s d).cursor ≡ record d.cursor { tc_col = d.cursor.tc_col + length s })
      × ((write s d).bottom ≡ d.bottom)
      × ((y x : ℕ)
          → (write s d).at y x ≡ (
              if (y == d.cursor.tc_line)
                && (leb d.cursor.tc_col x && ltb x (d.cursor.tc_col + length s))
              then get_or s (x - d.cursor.tc_col) 0
              else d.at y x))
write_lem [] d = (ground arith, refl, λ y x. ground arith)
write_lem (c ∷ s) d =
    let (cur, bot, all) = write_lem s (put c d) in
    (cur ∙ ground arith, bot, λ y x. all y x ∙ first_byte c s d y x)

from_cursor :
    (t_lines t_columns new_col new_ln : ℕ) (d : Display)
    → t_lines ≤ d.bottom + 1
    → new_ln < t_lines
    → new_col < t_columns
    → (obey_all
          (map plain
            (rel_move t_lines t_columns d.cursor.tc_col d.cursor.tc_line new_col new_ln d.cursor).0)
          d
        ≡ record d { cursor = record { tc_col = new_col; tc_line = new_ln } })
      × ((rel_move t_lines t_columns d.cursor.tc_col d.cursor.tc_line new_col new_ln d.cursor).1
          ≡ record { tc_col = new_col; tc_line = new_ln })
unfolding rel_move
from_cursor t_lines t_columns new_col new_ln d b low left = ground arith

-- rel_move brings the cursor to any place of the screen and leaves the text alone.
pub obey_all-rel_move :
    (t_lines t_columns new_col new_ln : ℕ) (tc : Cursor) (d : Display)
    → d.cursor ≡ tc
    → t_lines ≤ d.bottom + 1
    → new_ln < t_lines
    → new_col < t_columns
    → (obey_all (map plain (rel_move t_lines t_columns tc.tc_col tc.tc_line new_col new_ln tc).0) d
        ≡ record d { cursor = record { tc_col = new_col; tc_line = new_ln } })
      × ((rel_move t_lines t_columns tc.tc_col tc.tc_line new_col new_ln tc).1
          ≡ record { tc_col = new_col; tc_line = new_ln })
obey_all-rel_move t_lines t_columns new_col new_ln tc d e b low left =
    subst
      (λ (k : Cursor).
        (obey_all (map plain (rel_move t_lines t_columns k.tc_col k.tc_line new_col new_ln k).0) d
          ≡ record d { cursor = record { tc_col = new_col; tc_line = new_ln } })
        × ((rel_move t_lines t_columns k.tc_col k.tc_line new_col new_ln k).1
            ≡ record { tc_col = new_col; tc_line = new_ln }))
      e (from_cursor t_lines t_columns new_col new_ln d b low left)
