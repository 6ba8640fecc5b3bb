-- ===== src/Editor/Join.antt =====
-- join of mbbsd/edit.c, on the text of the editor.
use openptt.Prelude.{
  ℕ, zero, suc, ◌+◌, ◌-◌, Bool, true, false, Option, none, some, [], ◌∷◌, ◌++◌, ltb, leb, ◌==◌,
  ◌&&◌, ◌||◌, not, if◌then◌else◌, length, set, take,
}
use openptt.Prelude.Bytes.{Bytes}
use openptt.Editor.{
  Editor, line_at, delete_line, split, wrapmargin, leading, back_over, is_space, not_space,
}

-- Where the line `n` is cut, from the last byte that fits behind a line of `len` bytes down; 0 for no
-- place. Lines are shorter than WRAPMARGIN.
unfoldable pub join_point : (len : ℕ) → Bytes → ℕ
unfolding back_over
join_point len n = back_over not_space (back_over is_space (wrapmargin - 1 - len) n) n

-- A blank is stored over the last byte, and `len` counts the closing zero.
unfoldable pub join_pad : Bytes → Bytes
join_pad d =
    if leb 1 (length d) && ltb (length d - 1) (wrapmargin - 2) && not_space d (length d - 1)
    then take (length d - 1) d ++ b' ' ∷ 0 ∷ []
    else d

-- What join does after its call of itself, and its value.
unfoldable pub mark_rest : (k : ℕ) → Option (Bool × Editor) → Option (Bool × Editor)
unfolding join_pad
mark_rest k none = none
mark_rest k (some (_, e)) =
    some (false, record e { lines = set e.lines (k + 1) (join_pad (line_at e (k + 1))) })

-- join of line `k`, with at most `fuel` calls.
unfoldable pub join : (fuel k : ℕ) → Editor → Option (Bool × Editor)
unfolding leading join_point mark_rest split delete_line
join zero k e = none
join (suc fuel) k e =
    let line = line_at e k in
    let n = line_at e (k + 1) in
    let s = join_point (length line) n in
    let e' = split (k + 1) (s + 1) e in
    let joined = mark_rest k (join fuel k e') in
    if not (ltb (k + 1) (length e.lines)) || not (leading n).1
    then some (true, e)
    else (if ltb (length line + length n) wrapmargin
        then some (true, delete_line (k + 1) (record e { lines = set e.lines k (line ++ n) }))
        else (if s == 0
            then some (true, e)
            else (if leb wrapmargin (length line + length (line_at e' (k + 1)))
                then some (true, e')
                else joined)))
