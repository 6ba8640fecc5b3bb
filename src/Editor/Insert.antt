-- ===== src/Editor/Insert.antt =====
-- insert_char and delete_char of mbbsd/edit.c on the current line, and the auto-indent of split.
use openptt.Prelude.{
  ℕ, zero, suc, ◌+◌, ◌-◌, ◌≤◌, ◌<◌, ◌≡◌, refl, ap, true, false, List, [], ◌∷◌, ◌++◌, inl, inr,
  arith, ltb, if◌then◌else◌, length, Bool-cases, get_or, set, take, drop, length-set, length-take,
  length-drop, length-append, replicate, length-replicate, ◌&&◌, not, take-append-drop,
}
use native.Mathlib.Numerals.{add-one}
use openptt.Prelude.Bytes.{Bytes}
use openptt.Editor.{
  Editor, line_at, insert_after, split, indent_spcs, leading, indent_from, append, wrapmargin, wrap,
  insert_char, delete_char, ansi2n, n2ansi,
}
use openptt.Editor.Lines.{AllBelow-get, AllBelow-set, set-set, get_or-set_self, get_or-insert_after}
use openptt.Editor.Ansi.{n2ansi-ansi2n}
use openptt.Editor.Wrap.{IsValid, IsFull, wrap-IsValid}

-- A change of the current line by at most one byte more.
edit-IsFull :
    (e : Editor) (q : Bytes) (n : ℕ)
    → e.indent_mode ≡ false
    → IsValid e
    → length q ≤ length (line_at e e.currline) + 1
    → n ≤ length q
    → IsFull (record e { lines = set e.lines e.currline q; currpnt = n })
edit-IsFull e q n off v l p =
    let here = get_or-set_self e.currline e.lines q v.within in
    record {
      off = off;
      inside = omega (arith, v.within, length-set e.lines e.currline q);
      others =
          rw (set-set e.currline e.lines q [])
            (AllBelow-set wrapmargin e.currline e.lines [] v.short (omega arith));
      fits =
          rw here (omega (arith, AllBelow-get wrapmargin e.currline e.lines (omega arith) v.short));
      point = rw here p;
      total = omega (arith, v.total, length-set e.lines e.currline q);
    }

length-insertion :
    (n ch : ℕ) (d : Bytes) → n ≤ length d → length (take n d ++ ch ∷ drop n d) ≡ length d + 1
length-insertion n ch d h =
    omega (arith, length-append {0} (take n d) (ch ∷ drop n d), length-take n d, length-drop n d)

-- insert_char keeps the text well formed, in both modes and also where the line wraps, as long as
-- auto-indent is off: every line stays within its buffer and the cursor within the text.
pub insert_char-IsValid :
    (ch : ℕ) (e : Editor) → e.indent_mode ≡ false → IsValid e → IsValid (insert_char ch e)
unfolding insert_char
insert_char-IsValid ch e off v =
    let d = line_at e e.currline in
    let n = e.currpnt in
    let inside : ltb (length d) n ≡ false = ground (arith, v.point) in
    rw inside (elim (Bool-cases (ltb n (length d) && not e.insert_character)) [
      | inl o ↦
          let d' = set d n ch in
          let same = length-set d n ch in
          rw o (
            wrap-IsValid _ (
              edit-IsFull e d' (if e.my_ansimode then ansi2n (n2ansi (n + 1) d') d' else n + 1) off
                v (omega arith) (ground (arith, (n2ansi-ansi2n (n2ansi (n + 1) d') d').1))))
      | inr o ↦ rw o (
          wrap-IsValid _ (
            edit-IsFull e (take n d ++ ch ∷ drop n d) (n + 1) off v
              (omega (arith, length-insertion n ch d v.point))
              (omega (arith, length-insertion n ch d v.point, v.point))))
    ])

take-take_append : (n : ℕ) (a b : Bytes) → n ≤ length a → take n (take n a ++ b) ≡ take n a
take-take_append zero a b h = refl
take-take_append (suc n) [] b h = absurd (omega arith)
take-take_append (suc n) (x ∷ a) b h = ap (x ∷◌) (take-take_append n a b (omega arith))

drop-take_cons : (n ch : ℕ) (a b : Bytes) → n ≤ length a → drop (suc n) (take n a ++ ch ∷ b) ≡ b
drop-take_cons zero ch a b h = refl
drop-take_cons (suc n) ch [] b h = absurd (omega arith)
drop-take_cons (suc n) ch (x ∷ a) b h = drop-take_cons n ch a b (omega arith)

set_self : (k : ℕ) (ls : List Bytes) → set ls k (get_or ls k []) ≡ ls
set_self k [] = refl
set_self zero (x ∷ ls) = refl
set_self (suc k) (x ∷ ls) = ap (x ∷◌) (set_self k ls)

-- insert_char where the byte goes in before the rest of the line and the line is not full.
inserted :
    (ch : ℕ) (e : Editor)
    → IsValid e
    → e.insert_character ≡ true
    → length (line_at e e.currline) + 1 < wrapmargin
    → insert_char ch e ≡ record e {
      lines =
          set e.lines e.currline
            (take e.currpnt (line_at e e.currline) ++ ch ∷ drop e.currpnt (line_at e e.currline));
      currpnt = e.currpnt + 1;
    }
unfolding insert_char wrap
inserted ch e v ins room =
    let d = line_at e e.currline in
    let n = e.currpnt in
    let inside : ltb (length d) n ≡ false = ground (arith, v.point) in
    let q = take n d ++ ch ∷ drop n d in
    let short : ltb (length q) wrapmargin ≡ true =
      ground (arith, length-insertion n ch d v.point) in
    let over : (ltb n (length d) && not e.insert_character) ≡ false = ground arith in
    rw (inside, over, get_or-set_self e.currline e.lines q v.within, short)

-- In insert mode, on a line with room, delete_char with the cursor back on the new byte takes it
-- out again: lines and cursor are those from before.
pub delete_char-insert_char :
    (ch : ℕ) (e : Editor)
    → IsValid e
    → e.insert_character ≡ true
    → length (line_at e e.currline) + 1 < wrapmargin
    → delete_char (record (insert_char ch e) { currpnt = (insert_char ch e).currpnt - 1 }) ≡ e
unfolding delete_char
delete_char-insert_char ch e v ins room =
    let d = line_at e e.currline in
    let n = e.currpnt in
    let q = take n d ++ ch ∷ drop n d in
    let back : n + 1 - 1 ≡ n = omega arith in
    let here = get_or-set_self e.currline e.lines q v.within in
    let inside : ltb n (length q) ≡ true =
      ground (arith, length-insertion n ch d v.point, v.point) in
    let out : take n q ++ drop (n + 1) q ≡ d =
      rw
        (
          take-take_append n d (ch ∷ drop n d) v.point,
          add-one n,
          drop-take_cons n ch d (drop n d) v.point,
        )
        (take-append-drop n d) in
    rw (inserted ch e v ins room)
      (rw (back, here, inside, out, set-set e.currline e.lines q d, set_self e.currline e.lines))

leading_self :
    (k : ℕ) (ls : List Bytes) (a : ℕ) → leading (get_or ls k []) ≡ (a, true) → indent_from k ls ≡ a
unfolding indent_from
leading_self zero ls a h = rw h
leading_self (suc k) ls a h = rw h

-- The lines after a split, auto-indent included.
lines-split_indented :
    (pos : ℕ) (e : Editor)
    → pos ≤ length (line_at e e.currline)
    → (split e.currline pos e).lines
      ≡ insert_after e.currline
          (replicate (indent_spcs e) b' ' ++ drop pos (line_at e e.currline))
          (set e.lines e.currline (take pos (line_at e e.currline)))
unfolding split append
lines-split_indented pos e h = ground arith

-- With auto-indent, split of a current line that is not blank makes a new line of the line's leading
-- spaces and, behind them, the part from the place of the split on. So it has as many bytes more as
-- the line has leading spaces; nothing holds it to the size of the buffer.
pub split-indented :
    (a pos : ℕ) (e : Editor)
    → e.indent_mode ≡ true
    → e.currline < length e.lines
    → leading (line_at e e.currline) ≡ (a, true)
    → pos ≤ length (line_at e e.currline)
    → (line_at (split e.currline pos e) (suc e.currline)
        ≡ replicate a b' ' ++ drop pos (line_at e e.currline))
      × (length (line_at (split e.currline pos e) (suc e.currline))
          ≡ a + (length (line_at e e.currline) - pos))
unfolding indent_spcs
split-indented a pos e on inside spaces h =
    let front = set e.lines e.currline (take pos (line_at e e.currline)) in
    let p = replicate (indent_spcs e) b' ' ++ drop pos (line_at e e.currline) in
    let count : indent_spcs e ≡ a = rw on (leading_self e.currline e.lines a spaces) in
    let below : e.currline < length front =
      omega (arith, length-set e.lines e.currline (take pos (line_at e e.currline))) in
    rw (lines-split_indented pos e h, (get_or-insert_after e.currline front p below).1, count)
      (
        refl,
        omega (
          arith,
          length-append {0} (replicate a b' ') (drop pos (line_at e e.currline)),
          length-replicate {A = ℕ} a b' ',
          length-drop pos (line_at e e.currline),
        ),
      )
