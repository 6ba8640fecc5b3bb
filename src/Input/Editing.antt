-- ===== src/Input/Editing.antt =====
-- The keys of the prompt of mbbsd/io.c, on a text with a cursor.
use Prim.Native.Nat.{min}
use openptt.Prelude.{
  ℕ, ◌+◌, ◌-◌, ◌%◌, ◌≤◌, ◌≡◌, refl, ◌∙◌, Bool, true, false, arith, inl, inr, Bool-cases, ltb, ◌==◌,
  if◌then◌else◌, ◌&&◌, ◌||◌,
}
use openptt.Editor.{isprint2}
use openptt.Input.{
  Prompt, left, right, rubout, kill, delete, insert, edit_key, ctrl, key_up, key_down, key_left,
  key_right,
}
use openptt.Input.Line.{
  IsPrompt, View, view, Same, without, with_char, cut_off, remove_lem, insert_lem, cut_lem, at_end,
}

-- What the keys do to a text with a cursor: the keys of the switch of oldgetdata, and those that put a
-- byte into the text while there is room in it and on the screen.
abbrev pub text_key : (ch len x scr_cols : ℕ) → View → View
text_key ch len x cols v =
    if ch == key_left
    then record v { cursor = v.cursor - 1 }
    else (if ch == key_right
        then record v { cursor = min (v.cursor + 1) v.size }
        else (if (ch == 127) || (ch == ctrl b'H')
            then (if v.cursor == 0
                then v
                else record (without (v.cursor - 1) v) { cursor = v.cursor - 1 })
            else (if ch == ctrl b'Y'
                then record (cut_off 0 v) { cursor = 0 }
                else (if ch == ctrl b'K'
                    then cut_off v.cursor v
                    else (if ch == ctrl b'D'
                        then (if v.cursor == v.size then v else without v.cursor v)
                        else (if ch == ctrl b'A'
                            then record v { cursor = 0 }
                            else (if ch == ctrl b'E'
                                then record v { cursor = v.size }
                                else (if isprint2 (ch % 256)
                                      && ltb v.size len
                                      && ltb (x + v.size) cols
                                    then record (with_char (ch % 256) v.cursor v) {
                                      cursor = v.cursor + 1;
                                    }
                                    else v))))))))

-- A prompt that stands for a text.
abbrev Shows : Prompt → View → Type 0
Shows p v = IsPrompt p × Same (view p) v

if_both {ℓ ℓ' κ} :
    {A : Type ℓ} {B : Type ℓ'} (P : A → B → Type κ) (t : Bool) {a : A} {b : B} {a' : A} {b' : B}
    → (t ≡ true → P a b)
    → (t ≡ false → P a' b')
    → P (if t then a else a') (if t then b else b')
if_both P true h k = h refl
if_both P false h k = k refl

shows : (p : Prompt) → IsPrompt p → Shows p (view p)
shows p h = (h, record { size = refl; cursor = refl; char = λ x. refl })

at_cursor :
    (n : ℕ) (p : Prompt)
    → IsPrompt p
    → n ≤ p.clen
    → Shows (record p { currchar = n }) (record (view p) { cursor = n })
at_cursor n p h le = (
  record { fits = h.fits; short = h.short; inside = le; ended = h.ended; full = h.full },
  record { size = refl; cursor = refl; char = λ x. refl },
)

right-Shows :
    (p : Prompt)
    → IsPrompt p
    → Shows (right p) (record (view p) { cursor = min (p.currchar + 1) p.clen })
unfolding right
right-Shows p h = elim (Bool-cases (p.currchar == p.clen)) [
  | inl e ↦
      let last : min (p.currchar + 1) p.clen ≡ p.currchar = ground (arith, h.inside) in
      rw (right, at_end p h ∙ e, last) (at_cursor p.currchar p h h.inside)
  | inr e ↦
      let next : min (p.currchar + 1) p.clen ≡ p.currchar + 1 = ground (arith, h.inside) in
      rw (right, at_end p h ∙ e, next) (at_cursor (p.currchar + 1) p h (ground (arith, h.inside)))
]

rubout-Shows :
    (p : Prompt)
    → IsPrompt p
    → Shows (rubout p) (
        if p.currchar == 0
        then view p
        else record (without (p.currchar - 1) (view p)) { cursor = p.currchar - 1 })
unfolding rubout
rubout-Shows p h =
    if_both Shows (p.currchar == 0) (λ e. shows p h)
      (λ e. remove_lem (p.currchar - 1) p h (ground (arith, h.inside)))

delete-Shows :
    (p : Prompt)
    → IsPrompt p
    → Shows (delete p) (if p.currchar == p.clen then view p else without p.currchar (view p))
unfolding delete
delete-Shows p h =
    rw (delete, at_end p h)
      (if_both Shows (p.currchar == p.clen) (λ e. shows p h)
        (λ e. remove_lem p.currchar p h (ground (arith, h.inside))))

insert-Shows :
    (ch : ℕ) (p : Prompt)
    → IsPrompt p
    → Shows (insert ch p) (
        if isprint2 (ch % 256) && ltb p.clen p.len && ltb (p.x + p.clen) p.scr_cols
        then record (with_char (ch % 256) p.currchar (view p)) { cursor = p.currchar + 1 }
        else view p)
unfolding insert
insert-Shows ch p h =
    if_both Shows (isprint2 (ch % 256) && ltb p.clen p.len && ltb (p.x + p.clen) p.scr_cols)
      (λ e. insert_lem (ch % 256) p.currchar p h h.inside (ground arith) (ground arith))
      (λ e. shows p h)

-- A key that is not for the history does to the line in the buffer what it does to a text with a cursor,
-- and the line stays in its buffer.
pub edit_key-text_key :
    (ch : ℕ) (p : Prompt)
    → IsPrompt p
    → ((ch == key_down) || (ch == ctrl b'N')) ≡ false
    → ((ch == ctrl b'P') || (ch == key_up)) ≡ false
    → IsPrompt (edit_key ch p)
      × Same (view (edit_key ch p)) (text_key ch p.len p.x p.scr_cols (view p))
unfolding edit_key left kill
edit_key-text_key ch p h no_down no_up =
    rw (edit_key, no_down, no_up)
      (if_both Shows (ch == key_left)
        (λ e. at_cursor (p.currchar - 1) p h (omega (arith, h.inside)))
        (λ e.
          if_both Shows (ch == key_right) (λ e. right-Shows p h)
            (λ e.
              if_both Shows ((ch == 127) || (ch == ctrl b'H')) (λ e. rubout-Shows p h)
                (λ e.
                  if_both Shows (ch == ctrl b'Y') (λ e. cut_lem 0 p h (omega arith))
                    (λ e.
                      if_both Shows (ch == ctrl b'K') (λ e. cut_lem p.currchar p h h.inside)
                        (λ e.
                          if_both Shows (ch == ctrl b'D') (λ e. delete-Shows p h)
                            (λ e.
                              if_both Shows (ch == ctrl b'A') (λ e. at_cursor 0 p h (omega arith))
                                (λ e.
                                  if_both Shows (ch == ctrl b'E')
                                    (λ e. at_cursor p.clen p h (omega arith))
                                    (λ e. insert-Shows ch p h)))))))))
