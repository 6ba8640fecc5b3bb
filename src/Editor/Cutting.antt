-- ===== src/Editor/Cutting.antt =====
-- join of mbbsd/edit.c where the next line fits, and where it is cut.
use openptt.Prelude.{
  ℕ, zero, suc, ◌+◌, ◌-◌, ◌≤◌, ◌<◌, ◌≡◌, refl, ◌∙◌, true, false, some, List, [], ◌∷◌, ◌++◌, inl,
  inr, arith, ltb, leb, ◌==◌, length, Bool-cases, set, take, drop, length-set, length-take,
  length-drop, length-append,
}
use native.Mathlib.Numerals.{add-one}
use openptt.Prelude.Bytes.{Bytes}
use openptt.Editor.{
  Editor, line_at, insert_after, erase_idx, delete_line, split, wrapmargin, leading, back_over,
  is_space, not_space,
}
use openptt.Editor.Lines.{
  get_or-insert_before, AllBelow, AllBelow-get, AllBelow-set, AllBelow-insert_after,
  get_or-set_self, get_or-insert_after, lines-split,
}
use openptt.Editor.Wrap.{get_or-set_ne, back_over-lt, back_over-le, back_over-stay}
use openptt.Editor.Join.{join_point, join_pad, mark_rest, join}

-- The place to cut at stands before the last byte that fits.
pub join_point-lt : (len : ℕ) (n : Bytes) → join_point len n ≤ wrapmargin - 1 - len - 1
unfolding join_point
join_point-lt len n = from (wrapmargin - 1 - len)
  where
    from : (s : ℕ) → back_over not_space (back_over is_space s n) n ≤ s - 1
    from zero = unfold back_over in omega arith
    from (suc s) = elim (Bool-cases (is_space n (suc s))) [
      | inl e ↦ omega (
        arith,
        back_over-lt is_space s n e,
        back_over-le not_space (back_over is_space (suc s) n) n,
      )
      | inr e ↦
          rw (back_over-stay is_space s n e) (omega (arith, back_over-lt not_space s n (rw e refl)))
    ]

-- The tests at the head of join let the next line through.
pub record IsJoinable (k : ℕ) (e : Editor) : Type 0 where
  pub off : e.indent_mode ≡ false
  pub short : AllBelow wrapmargin e.lines
  pub inside : k + 1 < length e.lines
  pub words : (leading (line_at e (k + 1))).1 ≡ true

-- What join leaves where the next line fits.
abbrev pub fitted : (k : ℕ) → Editor → List Bytes
fitted k e = erase_idx (k + 1) (set e.lines k (line_at e k ++ line_at e (k + 1)))

pub join-fits :
    (fuel k : ℕ) (e : Editor)
    → k + 1 < length e.lines
    → (leading (line_at e (k + 1))).1 ≡ true
    → length (line_at e k) + length (line_at e (k + 1)) < wrapmargin
    → (e' : Editor) × (join (suc fuel) k e ≡ some (true, e')) × (e'.lines ≡ fitted k e)
unfolding join delete_line
join-fits fuel k e inside words fits =
    let next : ltb (k + 1) (length e.lines) ≡ true = ground arith in
    let few : ltb (length (line_at e k) + length (line_at e (k + 1))) wrapmargin ≡ true =
      ground arith in
    let many : (length (set e.lines k (line_at e k ++ line_at e (k + 1))) == 1) ≡ false =
      ground (arith, length-set e.lines k (line_at e k ++ line_at e (k + 1))) in
    let e' : Editor =
      delete_line (k + 1) (record e { lines = set e.lines k (line_at e k ++ line_at e (k + 1)) }) in
    (e', rw (next, words, few) refl, rw many refl)

pub length-join_pad : (d : Bytes) → length d < wrapmargin → length (join_pad d) < wrapmargin
unfolding join_pad
length-join_pad d h =
    ground
      (arith, length-append (take (length d - 1) d) (b' ' ∷ 0 ∷ []), length-take (length d - 1) d)

module _ (k : ℕ) (e : Editor) (i : IsJoinable k e)
    (long : wrapmargin ≤ length (line_at e k) + length (line_at e (k + 1)))
    (cut : (join_point (length (line_at e k)) (line_at e (k + 1)) == 0) ≡ false) where
  line : Bytes
  line = line_at e k

  n : Bytes
  n = line_at e (k + 1)

  -- The bytes of `n` that go up.
  pub cut_len : ℕ
  cut_len = join_point (length (line_at e k)) (line_at e (k + 1)) + 1

  pub cut_len-fits : length (line_at e k) + cut_len < wrapmargin
  unfolding cut_len
  cut_len-fits = ground (
    arith,
    join_point-lt (length (line_at e k)) (line_at e (k + 1)),
    AllBelow-get wrapmargin k e.lines (omega arith) i.short,
  )

  cut_len-within : cut_len ≤ length (line_at e (k + 1))
  cut_len-within = omega (arith, cut_len-fits, long)

  lines' :
      (split (k + 1) cut_len e).lines
      ≡ insert_after (suc k) (drop cut_len n) (set e.lines (suc k) (take cut_len n))
  unfolding n
  lines' = rw (lines-split (k + 1) cut_len e i.off cut_len-within, add-one k) refl

  inside' : suc k < length (set e.lines (suc k) (take cut_len n))
  inside' = omega (arith, length-set e.lines (suc k) (take cut_len n), i.inside)

  front : line_at (split (k + 1) cut_len e) (k + 1) ≡ take cut_len n
  front =
      rw (lines', add-one k)
        ((get_or-insert_after (suc k) (set e.lines (suc k) (take cut_len n)) (drop cut_len n)
            inside').0
          ∙ get_or-set_self (suc k) e.lines (take cut_len n) (omega (arith, i.inside)))

  above : line_at (split (k + 1) cut_len e) k ≡ line
  unfolding line
  above = rw lines' (
      get_or-insert_before k (suc k) (set e.lines (suc k) (take cut_len n)) (drop cut_len n)
        (omega arith) inside'
      ∙ get_or-set_ne (suc k) k e.lines (take cut_len n) (omega arith))

  -- The call of join on the line that was cut.
  pub over : (fuel : ℕ) → join (suc fuel) k e ≡ mark_rest k (join fuel k (split (k + 1) cut_len e))
  unfolding join cut_len n line
  over fuel =
      let next : ltb (k + 1) (length e.lines) ≡ true = ground (arith, i.inside) in
      let few : ltb (length (line_at e k) + length (line_at e (k + 1))) wrapmargin ≡ false =
        ground (arith, long) in
      let fits : leb wrapmargin
            (length (line_at e k) + length (line_at (split (k + 1) cut_len e) (k + 1)))
          ≡ false =
        rw front (ground (arith, cut_len-fits, length-take cut_len (line_at e (k + 1)))) in
      rw (next, i.words, few, cut) (rw fits refl)

  pub short' : AllBelow wrapmargin (split (k + 1) cut_len e).lines
  unfolding n
  short' = rw lines' (
      AllBelow-insert_after wrapmargin (suc k) (set e.lines (suc k) (take cut_len n))
        (drop cut_len n)
        (AllBelow-set wrapmargin (suc k) e.lines (take cut_len n) i.short
          (omega (arith, cut_len-fits, length-take cut_len (line_at e (k + 1)))))
        (omega (
          arith,
          length-drop cut_len (line_at e (k + 1)),
          AllBelow-get wrapmargin (k + 1) e.lines (omega arith) i.short,
        )))

  pub fits' :
      length (line_at (split (k + 1) cut_len e) k)
        + length (line_at (split (k + 1) cut_len e) (k + 1))
      < wrapmargin
  unfolding n line
  fits' = rw (above, front) (omega (arith, cut_len-fits, length-take cut_len (line_at e (k + 1))))

-- The bytes of the next line up to the cut, and those behind it.
abbrev pub going_up : (k : ℕ) → Editor → Bytes
going_up k e = take (join_point (length (line_at e k)) (line_at e (k + 1)) + 1) (line_at e (k + 1))

abbrev pub left_over : (k : ℕ) → Editor → Bytes
left_over k e = drop (join_point (length (line_at e k)) (line_at e (k + 1)) + 1) (line_at e (k + 1))
