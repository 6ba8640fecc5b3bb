-- ===== src/Screen/Drawing.antt =====
-- outch and clrtoeol of mbbsd/screen.c, and the picture.
use Prim.Native.Nat.{max}
use openptt.Prelude.{
  ℕ, ◌+◌, ◌%◌, ◌<◌, ◌≤◌, ◌≡◌, refl, ap, sym, ◌∙◌, true, false, arith, inl, inr, Bool-cases, ltb,
  leb, ◌==◌, if◌then◌else◌, ◌&&◌, ◌||◌, length-set, get_or-set_at, get_or-set_other,
}
use openptt.Screen.{
  Line, Screen, no_line, row_of, line_at, put_line, next_line, reach, put_byte, advance, outch,
}
use openptt.Screen.Picture.{IsLine, IsScreen, cell, picture, get_or-set_same, get_or-set_all}
use openptt.Screen.Lines.{put_byte-reach}

-- A line of the screen that is put into the picture.
pub picture-put_line :
    (i : ℕ) (l : Line) (s : Screen) (y x : ℕ)
    → IsScreen s
    → i < s.scr_lns
    → picture (put_line (row_of s.scr_lns i s.roll) l s) y x
      ≡ (if y == i then cell l x else picture s y x)
picture-put_line i l s y x h lt = elim (Bool-cases (ltb y s.scr_lns)) [
  | inl e ↦ elim (Bool-cases (y == i)) [
    | inl q ↦
        let same : row_of s.scr_lns y s.roll ≡ row_of s.scr_lns i s.roll =
          ap (λ v. row_of s.scr_lns v s.roll) (ground arith) in
        let found =
          get_or-set_at s.big_picture (row_of s.scr_lns i s.roll) l no_line
            (ground (arith, h.whole, h.ring)) in
        rw (e, q, same, found) refl
    | inr q ↦
        let other : (row_of s.scr_lns y s.roll == row_of s.scr_lns i s.roll) ≡ false =
          ground (arith, h.ring) in
        let found =
          get_or-set_other s.big_picture (row_of s.scr_lns i s.roll) (row_of s.scr_lns y s.roll) l
            no_line other in
        rw (e, q, found) refl
  ]
  | inr e ↦ let q : (y == i) ≡ false = ground arith in rw (e, q) refl
]

pub put_line-IsScreen :
    (w : ℕ) (l : Line) (s : Screen) → IsScreen s → IsLine l → IsScreen (put_line w l s)
put_line-IsScreen w l s h hl = record {
  lines = h.lines;
  tall = h.tall;
  columns = h.columns;
  width = h.width;
  ring = h.ring;
  whole = length-set s.big_picture w l ∙ h.whole;
  each = get_or-set_all (λ (k : Line). IsLine k) s.big_picture w l no_line h.each hl;
}

pub picture_row :
    (i : ℕ) (s : Screen) (x : ℕ)
    → i < s.scr_lns
    → picture s i x ≡ cell (line_at s (row_of s.scr_lns i s.roll)) x
picture_row i s x lt = let low : ltb i s.scr_lns ≡ true = ground arith in rw low refl

-- The line of the screen that the code changes: behind the last, it is the first.
abbrev pub drawing_line : Screen → ℕ
drawing_line s = if ltb s.cur_ln s.scr_lns then s.cur_ln else 0

drawing_place :
    (s : Screen)
    → s.cur_ln ≤ s.scr_lns
    → s.roll < s.scr_lns
    → (row_of s.scr_lns s.cur_ln s.roll ≡ row_of s.scr_lns (drawing_line s) s.roll)
      × (drawing_line s < s.scr_lns)
drawing_place s h r = (ground arith, ground arith)

advance_lem :
    (i : ℕ) (s : Screen)
    → IsScreen s
    → s.cur_col < s.scr_cols
    → IsScreen (advance i s)
      × ((y x : ℕ) → picture (advance i s) y x ≡ picture s y x)
      × ((advance i s).cur_ln ≡ (if ltb (s.cur_col + 1) s.scr_cols then s.cur_ln else next_line s))
      × ((advance i s).cur_col ≡ (if ltb (s.cur_col + 1) s.scr_cols then s.cur_col + 1 else 0))
unfolding advance
advance_lem i s h lt =
    let small : (s.cur_col + 1) % 256 ≡ s.cur_col + 1 = omega (arith, h.width) in
    let at = h.each i in
    let wider : Line = record (line_at s i) { eso = max (line_at s i).eso (s.cur_col + 1) } in
    let ok =
      put_line-IsScreen i wider s h
        (record { full = at.full; short = at.short; lit = omega (arith, at.lit) }) in
    elim (Bool-cases (leb s.scr_cols (s.cur_col + 1))) [
      | inl e ↦
          let edge : ltb (s.cur_col + 1) s.scr_cols ≡ false = ground arith in
          elim (Bool-cases (s.standing && (line_at s i).standout_mode)) [
            | inl g ↦
                rw (advance, small, e, g, edge)
                  (
                    record {
                      lines = h.lines;
                      tall = h.tall;
                      columns = h.columns;
                      width = h.width;
                      ring = h.ring;
                      whole = ok.whole;
                      each = ok.each;
                    },
                    λ y x.
                        ap (λ (k : ℕ). if ltb y s.scr_lns then k else b' ')
                          (get_or-set_same (λ (k : Line). cell k x) s.big_picture i
                            (row_of s.scr_lns y s.roll) wider no_line refl),
                    refl,
                    refl,
                  )
            | inr g ↦
                rw (advance, small, e, g, edge)
                  (
                    record {
                      lines = h.lines;
                      tall = h.tall;
                      columns = h.columns;
                      width = h.width;
                      ring = h.ring;
                      whole = h.whole;
                      each = h.each;
                    },
                    λ y x. refl,
                    refl,
                    refl,
                  )
          ]
      | inr e ↦
          let edge : ltb (s.cur_col + 1) s.scr_cols ≡ true = ground arith in
          rw (advance, small, e, edge)
            (
              record {
                lines = h.lines;
                tall = h.tall;
                columns = h.columns;
                width = h.width;
                ring = h.ring;
                whole = h.whole;
                each = h.each;
              },
              λ y x. refl,
              refl,
              refl,
            )
    ]

-- Any byte but a line feed or a return goes where the cursor is, in the first line where the cursor is
-- behind the last; nothing else of the picture changes, and the cursor goes on, at the right edge to the
-- next line. The lines stay as they should be.
pub outch_lem :
    (c : ℕ) (s : Screen)
    → IsScreen s
    → s.cur_ln ≤ s.scr_lns
    → s.cur_col < s.scr_cols
    → ((c == b'\n') || (c == b'\r')) ≡ false
    → IsScreen (outch c s)
      × ((y x : ℕ)
          → picture (outch c s) y x
            ≡ (if (y == drawing_line s) && (x == s.cur_col) then c else picture s y x))
      × ((outch c s).cur_ln ≡ (if ltb (s.cur_col + 1) s.scr_cols then s.cur_ln else next_line s))
      × ((outch c s).cur_col ≡ (if ltb (s.cur_col + 1) s.scr_cols then s.cur_col + 1 else 0))
unfolding outch
outch_lem c s h low lt other =
    let i = row_of s.scr_lns s.cur_ln s.roll in
    let (place, inside) = drawing_place s low h.ring in
    let slp = line_at s i in
    let (line, byte) = put_byte-reach c s.cur_col slp (h.each i) (omega (arith, h.width)) in
    let l = put_byte c s.cur_col (reach s.cur_col slp) in
    let s1 = put_line i l s in
    let (ok, same, ln, col) = advance_lem i s1 (put_line-IsScreen i l s h line) lt in
    let shows : (y x : ℕ)
        → picture s1 y x
          ≡ (if (y == drawing_line s) && (x == s.cur_col) then c else picture s y x) =
      λ y x.
        ap (λ w. picture (put_line w l s) y x) place
        ∙ picture-put_line (drawing_line s) l s y x h inside
        ∙ elim (Bool-cases (y == drawing_line s)) [
          | inl q ↦
              let eq : y ≡ drawing_line s = ground arith in
              let old : cell slp x ≡ picture s y x =
                ap (λ w. cell (line_at s w) x) place
                ∙ sym (picture_row (drawing_line s) s x inside)
                ∙ ap (λ v. picture s v x) (sym eq) in
              rw (q, ← old) (byte x)
          | inr q ↦ rw q refl
        ] in
    rw (outch, other) (ok, λ y x. same y x ∙ shows y x, ln, col)
