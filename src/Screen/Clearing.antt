-- ===== src/Screen/Clearing.antt =====
-- clrtoeol, scroll and rscroll of mbbsd/screen.c, and the picture.
use openptt.Prelude.{
  ℤ, ℕ, ◌+◌, ◌-◌, ◌%◌, ◌<◌, ◌≤◌, ◌≡◌, refl, ap, ◌∙◌, true, false, arith, inl, inr, Bool-cases, ltb,
  leb, ◌==◌, if◌then◌else◌, ◌&&◌, ◌||◌, not, get_or,
}
use openptt.Screen.{
  Line, Screen, row_of, line_at, fill, move, suc_int, pred_int, clrtoeol, scroll, rscroll,
}
use openptt.Screen.Picture.{IsLine, IsScreen, cell, picture}
use openptt.Screen.Lines.{length-fill, get_or-fill}
use openptt.Screen.Drawing.{picture-put_line, put_line-IsScreen}

-- What a line has left of the column `col`, when it ends there.
abbrev pub kept : (col : ℕ) → Line → ℕ → ℕ
kept col l x =
    if ltb x l.len
    then get_or l.cells x 0
    else (if ltb l.oldlen col then b' ' else get_or l.cells x 0)

-- The line of clrtoeol.
abbrev cut : (col : ℕ) → Line → Line
cut col slp =
    let d1 = if ltb slp.oldlen col then fill slp.len (col + 1 - slp.len) slp.cells else slp.cells in
    let d2 = if ltb col slp.oldlen then fill col (slp.len + 1 - col) d1 else d1 in
    record slp { standout_mode = slp.standout_mode && not (leb col slp.sso); cells = d2; len = col }

cut_lem :
    (col : ℕ) (slp : Line)
    → IsLine slp
    → col ≤ 255
    → IsLine (cut col slp)
      × ((x : ℕ) → cell (cut col slp) x ≡ (if ltb x col then kept col slp x else b' '))
cut_lem col slp h small = elim (Bool-cases (ltb slp.oldlen col)) [
  | inl e ↦
      let away : ltb col slp.oldlen ≡ false = ground arith in
      rw (e, away)
        (
          record {
            full = length-fill slp.len (col + 1 - slp.len) slp.cells ∙ h.full;
            short = small;
            lit = h.lit;
          },
          λ x. ground (
            arith,
            get_or-fill slp.len (col + 1 - slp.len) slp.cells x
                (omega (arith, h.full, h.short, small)),
          ),
        )
  | inr e ↦ elim (Bool-cases (ltb col slp.oldlen)) [
    | inl g ↦
        rw (e, g)
          (
            record {
              full = length-fill col (slp.len + 1 - col) slp.cells ∙ h.full;
              short = small;
              lit = h.lit;
            },
            λ x. ground (
              arith,
              get_or-fill col (slp.len + 1 - col) slp.cells x
                  (omega (arith, h.full, h.short, small)),
            ),
          )
    | inr g ↦ rw (e, g) (record { full = h.full; short = small; lit = h.lit }, λ x. ground arith)
  ]
]

-- clrtoeol ends the line of the cursor at its column and leaves the others. Before the column the line
-- keeps what it had; where it did not reach the column, the columns between are blank if what the
-- terminal has of the line does not reach it either, and else what is stored there comes to light.
pub clrtoeol_lem :
    (s : Screen)
    → IsScreen s
    → s.cur_ln < s.scr_lns
    → s.cur_col ≤ 255
    → IsScreen (clrtoeol s)
      × ((y x : ℕ)
          → picture (clrtoeol s) y x ≡ (
              if y == s.cur_ln
              then (if ltb x s.cur_col
                  then kept s.cur_col (line_at s (row_of s.scr_lns s.cur_ln s.roll)) x
                  else b' ')
              else picture s y x))
unfolding clrtoeol
clrtoeol_lem s h low small =
    let w = row_of s.scr_lns s.cur_ln s.roll in
    let (line, shows) = cut_lem s.cur_col (line_at s w) (h.each w) small in
    let ok = put_line-IsScreen w (cut s.cur_col (line_at s w)) s h line in
    (
      record {
        lines = h.lines;
        tall = h.tall;
        columns = h.columns;
        width = h.width;
        ring = h.ring;
        whole = ok.whole;
        each = ok.each;
      },
      λ y x.
          picture-put_line s.cur_ln (cut s.cur_col (line_at s w)) s y x h low
          ∙ elim (Bool-cases (y == s.cur_ln)) [ inl q ↦ rw q (shows x) | inr q ↦ rw q refl ],
    )

-- Clearing the line `ln` where `roll` is another one than before.
abbrev rolled : (count : ℤ) → (roll ln : ℕ) → Screen → Screen
rolled count roll ln s = move ln 0 (record s { scrollcnt = count; roll = roll })

clrtoeol-rolled :
    (count : ℤ) (roll ln : ℕ) (s : Screen)
    → IsScreen s
    → roll < s.scr_lns
    → ln < s.scr_lns
    → IsScreen (clrtoeol (rolled count roll ln s))
      × ((y x : ℕ)
          → picture (clrtoeol (rolled count roll ln s)) y x
            ≡ (if y == ln then b' ' else picture (record s { roll = roll }) y x))
clrtoeol-rolled count roll ln s h r l =
    let s1 = rolled count roll ln s in
    let ok : IsScreen s1 = record {
      lines = h.lines;
      tall = h.tall;
      columns = h.columns;
      width = h.width;
      ring = r;
      whole = h.whole;
      each = h.each;
    } in
    let here : ln % 256 ≡ ln = omega (arith, h.tall) in
    let (fine, shows) = clrtoeol_lem s1 ok (omega (arith, here)) (omega arith) in
    (
      fine,
      λ y x. let none : ltb x (0 % 256) ≡ false = ground arith in shows y x ∙ rw (here, none) refl,
    )

moved_up :
    (s : Screen) (h : IsScreen s) (y x : ℕ)
    → (if y == s.t_lines - 1
        then b' '
        else picture (record s { roll = if leb s.scr_lns (s.roll + 1) then 0 else s.roll + 1 }) y x)
      ≡ (if ltb (y + 1) s.scr_lns then picture s (y + 1) x else b' ')
moved_up s h y x = elim (Bool-cases (ltb (y + 1) s.scr_lns)) [
  | inl e ↦
      let q : (y == s.t_lines - 1) ≡ false = ground (arith, h.lines) in
      let low : ltb y s.scr_lns ≡ true = ground arith in
      let place : row_of s.scr_lns y (if leb s.scr_lns (s.roll + 1) then 0 else s.roll + 1)
          ≡ row_of s.scr_lns (y + 1) s.roll =
        ground (arith, h.ring) in
      rw (q, e, low) (ap (λ w. cell (line_at s w) x) place)
  | inr e ↦ elim (Bool-cases (y == s.t_lines - 1)) [
    | inl q ↦ rw (q, e) refl
    | inr q ↦ let low : ltb y s.scr_lns ≡ false = ground (arith, h.lines) in rw (q, e, low) refl
  ]
]

moved_down :
    (s : Screen) (h : IsScreen s) (y x : ℕ)
    → (if y == 0
        then b' '
        else picture (record s { roll = if s.roll == 0 then s.t_lines - 1 else s.roll - 1 }) y x)
      ≡ (if (y == 0) || not (ltb y s.scr_lns) then b' ' else picture s (y - 1) x)
moved_down s h y x = elim (Bool-cases (y == 0)) [
  | inl q ↦ rw q refl
  | inr q ↦ elim (Bool-cases (ltb y s.scr_lns)) [
    | inl e ↦
        let low : ltb (y - 1) s.scr_lns ≡ true = ground arith in
        let place : row_of s.scr_lns y (if s.roll == 0 then s.t_lines - 1 else s.roll - 1)
            ≡ row_of s.scr_lns (y - 1) s.roll =
          ground (arith, h.ring, h.lines) in
        rw (q, e, low) (ap (λ w. cell (line_at s w) x) place)
    | inr e ↦ rw (q, e) refl
  ]
]

-- scroll moves each line of the picture up by one and clears the last; rscroll moves them down and clears
-- the first.
pub scroll-rscroll :
    (s : Screen)
    → IsScreen s
    → (IsScreen (scroll s)
        × ((y x : ℕ)
            → picture (scroll s) y x
              ≡ (if ltb (y + 1) s.scr_lns then picture s (y + 1) x else b' ')))
      × (IsScreen (rscroll s)
          × ((y x : ℕ)
              → picture (rscroll s) y x
                ≡ (if (y == 0) || not (ltb y s.scr_lns) then b' ' else picture s (y - 1) x)))
unfolding scroll rscroll
scroll-rscroll s h =
    let up = if leb s.scr_lns (s.roll + 1) then 0 else s.roll + 1 in
    let down = if s.roll == 0 then s.t_lines - 1 else s.roll - 1 in
    let (ok, shows) =
      clrtoeol-rolled (suc_int s.scrollcnt) up (s.t_lines - 1) s h (ground (arith, h.ring))
        (omega (arith, h.lines, h.ring)) in
    let (ok', shows') =
      clrtoeol-rolled (pred_int s.scrollcnt) down 0 s h (ground (arith, h.ring, h.lines))
        (omega (arith, h.ring)) in
    ((ok, λ y x. shows y x ∙ moved_up s h y x), (ok', λ y x. shows' y x ∙ moved_down s h y x))
