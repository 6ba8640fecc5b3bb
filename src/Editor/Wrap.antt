-- ===== src/Editor/Wrap.antt =====
-- insert_char of mbbsd/edit.c where it wraps a full line: the place to wrap at, and the split.
use openptt.Prelude.{
  ℕ, zero, suc, ◌+◌, ◌-◌, ◌≤◌, ◌<◌, ◌≡◌, ◌≢◌, refl, ap, ◌∙◌, Bool, true, false, List, [], ◌∷◌, inl,
  inr, arith, ltb, leb, ◌==◌, if◌then◌else◌, length, Bool-cases, get_or, set, take, drop,
  length-set, length-take, length-drop, length-append,
}
use native.Mathlib.Numerals.{add-one}
use openptt.Prelude.Bytes.{Bytes}
use openptt.Editor.{
  Editor, line_at, insert_after, split, indent_spcs, append, wrapmargin, wrap, wrap_point,
  back_over, is_space, not_space, pad_word,
}
use openptt.Editor.Lines.{
  AllBelow, AllBelow-set, AllBelow-insert_after, set-set, length-insert_after, get_or-set_self,
  get_or-insert_after, lines-split,
}

-- The cursor stands in the text, every line fits its buffer with the closing zero and one byte to
-- spare, and the count of lines is right.
pub record IsValid (e : Editor) : Type 0 where
  pub within : e.currline < length e.lines
  pub short : AllBelow wrapmargin e.lines
  pub point : e.currpnt ≤ length (line_at e e.currline)
  pub total : e.totaln ≡ length e.lines

pub back_over-le : (test : Bytes → ℕ → Bool) (s : ℕ) (d : Bytes) → back_over test s d ≤ s
unfolding back_over
back_over-le test zero d = omega arith
back_over-le test (suc s) d = ground (arith, back_over-le test s d)

pub back_over-lt :
    (test : Bytes → ℕ → Bool) (s : ℕ) (d : Bytes)
    → test d (suc s) ≡ true
    → back_over test (suc s) d ≤ s
unfolding back_over
back_over-lt test s d h = rw (h, back_over) (back_over-le test s d)

pub back_over-stay :
    (test : Bytes → ℕ → Bool) (s : ℕ) (d : Bytes)
    → test d (suc s) ≡ false
    → back_over test (suc s) d ≡ suc s
unfolding back_over
back_over-stay test s d h = rw (h, back_over)

-- The place to wrap at stands before the last byte.
wrap_point-lt : (n : ℕ) (d : Bytes) → length d ≡ suc (suc n) → wrap_point d ≤ n
unfolding wrap_point
wrap_point-lt n d h =
    let last : length d - 1 ≡ suc n = omega arith in
    rw last (elim (Bool-cases (is_space d (suc n))) [
      | inl e ↦ omega (
        arith,
        back_over-lt is_space n d e,
        back_over-le not_space (back_over is_space (suc n) d) d,
      )
      | inr e ↦ rw (back_over-stay is_space n d e) (back_over-lt not_space n d (rw e refl))
    ])

length-pad_word :
    (d : Bytes) → (length d ≤ length (pad_word d)) × (length (pad_word d) ≤ length d + 1)
length-pad_word d = ground (arith, length-append d (b' ' ∷ []))

-- The other fields after a split of the current line.
split-fields :
    (pos : ℕ) (e : Editor)
    → e.indent_mode ≡ false
    → pos ≤ length (line_at e e.currline)
    → ((split e.currline pos e).totaln ≡ e.totaln + 1)
      × ((split e.currline pos e).currline
          ≡ (if leb pos e.currpnt then e.currline + 1 else e.currline))
      × ((split e.currline pos e).currpnt
          ≡ (if leb pos e.currpnt then e.currpnt - pos else e.currpnt))
unfolding split append indent_spcs
split-fields pos e off h = ground arith

AllBelow-unset :
    (m k : ℕ) (ls : List Bytes)
    → AllBelow m (set ls k [])
    → length (get_or ls k []) < m
    → AllBelow m ls
AllBelow-unset m k [] h l = tt
AllBelow-unset m zero (x ∷ ls) h l = (l, h.1)
AllBelow-unset m (suc k) (x ∷ ls) h l = (h.0, AllBelow-unset m k ls h.1 l)

-- What insert_char leaves before it wraps: a current line that may be full.
pub record IsFull (e : Editor) : Type 0 where
  pub off : e.indent_mode ≡ false
  pub inside : e.currline < length e.lines
  pub others : AllBelow wrapmargin (set e.lines e.currline [])
  pub fits : length (line_at e e.currline) ≤ wrapmargin
  pub point : e.currpnt ≤ length (line_at e e.currline)
  pub total : e.totaln ≡ length e.lines

module _ (pos : ℕ) (e : Editor) (f : IsFull e) (some_left : pos < wrapmargin)
    (ok : pos ≤ length (line_at e e.currline))
    (rest : length (line_at e e.currline) < pos + wrapmargin) where
  d : Bytes
  d = line_at e e.currline

  front : List Bytes
  front = set e.lines e.currline (take pos d)

  front-inside : e.currline < length front
  unfolding front d
  front-inside =
      omega (arith, length-set e.lines e.currline (take pos (line_at e e.currline)), f.inside)

  lines' : (split e.currline pos e).lines ≡ insert_after e.currline (drop pos d) front
  unfolding d front
  lines' = lines-split e.currline pos e f.off ok

  upper : get_or (split e.currline pos e).lines e.currline [] ≡ take pos d
  unfolding d front
  upper = rw lines' (
      (get_or-insert_after e.currline front (drop pos d) front-inside).0
      ∙ get_or-set_self e.currline e.lines (take pos d) f.inside)

  lower : get_or (split e.currline pos e).lines (suc e.currline) [] ≡ drop pos d
  lower = rw lines' (get_or-insert_after e.currline front (drop pos d) front-inside).1

  split-short : AllBelow wrapmargin (split e.currline pos e).lines
  unfolding d front
  split-short = rw lines' (
      AllBelow-insert_after wrapmargin e.currline front (drop pos d)
        (rw (set-set e.currline e.lines [] (take pos d)) at (
          AllBelow-set wrapmargin e.currline (set e.lines e.currline []) (take pos d) f.others
            (omega (arith, length-take pos d))))
        (omega (arith, length-drop pos d, rest)))

  split-count : length (split e.currline pos e).lines ≡ suc (length e.lines)
  unfolding d front
  split-count = rw lines' (
      length-insert_after e.currline front (drop pos d)
      ∙ ap suc (length-set e.lines e.currline (take pos d)))

  pub split-IsValid : IsValid (split e.currline pos e)
  unfolding d
  split-IsValid =
      let (total, line, point) = split-fields pos e f.off ok in
      elim (Bool-cases (leb pos e.currpnt)) [
        | inl h ↦ record {
          within = omega (arith, f.inside, split-count, rw h at line);
          short = split-short;
          point =
              rw (rw h at line, add-one e.currline, lower)
                (omega (arith, rw h at point, length-drop pos d, f.point));
          total = omega (arith, f.total, total, split-count);
        }
        | inr h ↦ record {
          within = omega (arith, f.inside, split-count, rw h at line);
          short = split-short;
          point = rw (rw h at line, upper) (ground (arith, rw h at point, length-take pos d));
          total = omega (arith, f.total, total, split-count);
        }
      ]

pub get_or-set_ne :
    (j k : ℕ) (ls : List Bytes) (q : Bytes) → j ≢ k → get_or (set ls j q) k [] ≡ get_or ls k []
get_or-set_ne j k [] q ne = refl
get_or-set_ne zero zero (x ∷ ls) q ne = absurd (ne refl)
get_or-set_ne zero (suc k) (x ∷ ls) q ne = refl
get_or-set_ne (suc j) zero (x ∷ ls) q ne = refl
get_or-set_ne (suc j) (suc k) (x ∷ ls) q ne = get_or-set_ne j k ls q (λ e. ne (ap suc e))

-- A line may grow within the margin.
grow-IsValid :
    (j : ℕ) (q : Bytes) (e : Editor)
    → IsValid e
    → length (line_at e j) ≤ length q
    → length q < wrapmargin
    → IsValid (record e { lines = set e.lines j q })
grow-IsValid j q e v longer h = record {
  within = omega (arith, v.within, length-set e.lines j q);
  short = AllBelow-set wrapmargin j e.lines q v.short h;
  point = elim (Bool-cases (j == e.currline)) [
    | inl c ↦
        let same : j ≡ e.currline = ground arith in
        rw (same, get_or-set_self e.currline e.lines q v.within)
          (omega (arith, v.point, rw same at longer))
    | inr c ↦ rw (get_or-set_ne j e.currline e.lines q (ground arith)) v.point
  ];
  total = omega (arith, v.total, length-set e.lines j q);
}

pub wrap-IsValid : (e : Editor) → IsFull e → IsValid (wrap e)
unfolding wrap
wrap-IsValid e f = elim (Bool-cases (ltb (length (line_at e e.currline)) wrapmargin)) [
  | inl h ↦ rw h (record {
    within = f.inside;
    short = AllBelow-unset wrapmargin e.currline e.lines f.others (ground arith);
    point = f.point;
    total = f.total;
  })
  | inr h ↦ rw h (full (ground (arith, f.fits)))
]
  where
    k : ℕ
    k = e.currline

    l : Bytes
    l = line_at e e.currline

    full :
        length (line_at e e.currline) ≡ 511
        → IsValid (
            if wrap_point (line_at e e.currline) == 0
            then split e.currline (length (line_at e e.currline) - 1) e
            else (let e' = split e.currline (wrap_point (line_at e e.currline) + 1) e in
                record e' {
                  lines = set e'.lines (e.currline + 1) (pad_word (line_at e' (e.currline + 1)));
                }))
    full len = elim (Bool-cases (wrap_point (line_at e e.currline) == 0)) [
      | inl z ↦ rw z (
          split-IsValid (length (line_at e e.currline) - 1) e f (omega arith) (omega arith)
            (omega (arith, f.fits)))
      | inr z ↦
          let s = wrap_point (line_at e e.currline) in
          let low : s ≤ 509 = wrap_point-lt 509 (line_at e e.currline) len in
          let e' = split e.currline (s + 1) e in
          let part : length (line_at e' (e.currline + 1)) ≡ 511 - (s + 1) =
            rw
              (
                add-one e.currline,
                lower (s + 1) e f (omega arith) (omega arith) (omega (arith, f.fits)),
              )
              (unfold d in omega (arith, length-drop (s + 1) (line_at e e.currline))) in
          rw z (
            grow-IsValid (e.currline + 1) (pad_word (line_at e' (e.currline + 1))) e'
              (split-IsValid (s + 1) e f (omega arith) (omega arith) (omega (arith, f.fits)))
              (length-pad_word (line_at e' (e.currline + 1))).0
              (ground (arith, (length-pad_word (line_at e' (e.currline + 1))).1, part)))
    ]
