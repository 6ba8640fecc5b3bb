-- ===== src/Reading/Cursor.antt =====
-- cursor_pos and move_cursor_line of mbbsd/read.c.
use openptt.Prelude.{ℕ, ◌+◌, ◌-◌, ◌<◌, ◌≤◌, ◌≡◌, arith}
use Prim.Native.Nat.{max, min}
use openptt.Reading.{
  Keep, cursor_pos, move_cursor_line, donothing, Direction, read_prev, read_next, same_page,
}

-- The cursor is on a post, and on the page.
pub record OnPage (last_line p_lines : ℕ) (k : Keep) : Type 0 where
  pub first : 1 ≤ k.top_ln
  pub low : k.top_ln ≤ k.crs_ln
  pub high : k.crs_ln < k.top_ln + p_lines
  pub last : k.crs_ln ≤ last_line

-- cursor_pos goes to the post nearest to the one that is asked for, and the page has it; the page stays
-- where it has it already, and only then the answer is that nothing is to be drawn.
pub cursor_pos_lem :
    (last_line p_lines : ℕ) (k : Keep) (val from_top : ℕ)
    → 0 < last_line
    → from_top < p_lines
    → 1 ≤ k.top_ln
    → OnPage last_line p_lines (cursor_pos last_line p_lines k val from_top).1
      × ((cursor_pos last_line p_lines k val from_top).1.crs_ln ≡ max 1 (min val last_line))
      × ((cursor_pos last_line p_lines k val from_top).0 ≡ donothing
          → (cursor_pos last_line p_lines k val from_top).1.top_ln ≡ k.top_ln)
unfolding cursor_pos
cursor_pos_lem last_line p_lines k val from_top posts inside top = (
  record { first = ground arith; low = ground arith; high = ground arith; last = ground arith },
  ground arith,
  λ e. ground arith,
)

-- A move up or down leaves the cursor on a post of the page. It goes to the next post where there is one,
-- and the page changes only where the answer says that it is to be read again or that the end is reached.
pub move_cursor_line_lem :
    (last_line p_lines : ℕ) (k : Keep) (d : Direction)
    → 2 ≤ p_lines
    → OnPage last_line p_lines k
    → OnPage last_line p_lines (move_cursor_line last_line p_lines k d).1
      × ((move_cursor_line last_line p_lines k d).1.crs_ln ≡ (elim d [
        | read_prev ↦ max 1 (k.crs_ln - 1)
        | read_next ↦ min (k.crs_ln + 1) last_line
      ]))
      × ((move_cursor_line last_line p_lines k d).0 ≡ same_page
          → (move_cursor_line last_line p_lines k d).1.top_ln ≡ k.top_ln)
unfolding move_cursor_line
move_cursor_line_lem last_line p_lines k read_prev two h = (
  record {
    first = ground (arith, h.first);
    low = ground (arith, h.first, h.low, h.high, h.last);
    high = ground (arith, h.first, h.low, h.high);
    last = ground (arith, h.first, h.low, h.last);
  },
  ground (arith, h.first, h.low, h.last),
  λ e. ground arith,
)
move_cursor_line_lem last_line p_lines k read_next two h = (
  record {
    first = ground (arith, h.first);
    low = ground (arith, h.first, h.low, h.high, h.last);
    high = ground (arith, h.first, h.low, h.high);
    last = ground (arith, h.first, h.low, h.last);
  },
  ground (arith, h.first, h.low, h.last),
  λ e. ground arith,
)
