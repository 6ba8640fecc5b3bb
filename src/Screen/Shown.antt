-- ===== src/Screen/Shown.antt =====
-- redoscr of mbbsd/screen.c, on a terminal that obeys.
use openptt.Prelude.{
  ℕ, zero, suc, ◌+◌, ◌<◌, ◌≤◌, ◌≡◌, refl, ap, sym, ◌∙◌, true, false, List, ◌++◌, arith, inl, inr,
  Bool-cases, ltb, leb, ◌==◌, if◌then◌else◌, map, length-set,
}
use mathlib.Core.Path.{subst}
use openptt.Terminal.{rel_move}
use openptt.Screen.{Line, Screen, no_line, row_of, line_at}
use openptt.Screen.Redraw.{Out, plain, o_clear, line_output, redo_loop, redoscr}
use openptt.Screen.Display.{Display, obey, obey_all, obey_all-append, obey_all-rel_move}
use openptt.Screen.Picture.{IsLine, IsScreen, cell, picture, get_or-set_same, get_or-set_all}
use openptt.Screen.Steps.{
  obey_all-line_output, drawn, redo_loop-empty, redo_loop-full, written, written_lem,
}

-- What the loop of redoscr leaves, of the lines from `i` on.
record Redrawn (i : ℕ) (s : Screen) (d : Display) (s' : Screen) (d' : Display) : Type 0 where
  pub cursor : d'.cursor ≡ s'.tc
  pub bottom : d'.bottom ≡ d.bottom
  pub lines : s'.t_lines ≡ s.t_lines
  pub columns : s'.t_columns ≡ s.t_columns
  pub cur_col : s'.cur_col ≡ s.cur_col
  pub cur_ln : s'.cur_ln ≡ s.cur_ln
  pub shows : (y x : ℕ) → d'.at y x ≡ (if ltb y i then d.at y x else picture s y x)

drawn-IsScreen : (i w : ℕ) (s : Screen) → IsScreen s → IsScreen (drawn i w s)
drawn-IsScreen i w s h =
    let at = h.each w in
    record {
      lines = h.lines;
      tall = h.tall;
      columns = h.columns;
      width = h.width;
      ring = h.ring;
      whole = length-set s.big_picture w _ ∙ h.whole;
      each =
          get_or-set_all (λ (l : Line). IsLine l) s.big_picture w _ no_line h.each
            (record { full = at.full; short = at.short; lit = at.lit });
    }

picture-drawn : (i w : ℕ) (s : Screen) (y x : ℕ) → picture (drawn i w s) y x ≡ picture s y x
picture-drawn i w s y x =
    ap (λ (c : ℕ). if ltb y s.scr_lns then c else b' ')
      (get_or-set_same (λ (l : Line). cell l x) s.big_picture w (row_of s.scr_lns y s.roll) _
        no_line refl)

next_place :
    (n i w roll : ℕ)
    → roll < n
    → i < n
    → w ≡ row_of n i roll
    → (if leb n (w + 1) then 0 else w + 1) ≡ row_of n (i + 1) roll
next_place n i w roll r h e = ground arith

-- The picture in line `i`, which is at the place `w`.
picture-at :
    (i w : ℕ) (s : Screen) (x : ℕ)
    → i < s.scr_lns
    → w ≡ row_of s.scr_lns i s.roll
    → picture s i x ≡ cell (line_at s w) x
picture-at i w s x lt e = let low : ltb i s.scr_lns ≡ true = ground arith in rw (low, ← e) refl

Redrawn-empty :
    (i w : ℕ) (s : Screen) (d : Display) (s' : Screen) (d' : Display)
    → i < s.scr_lns
    → w ≡ row_of s.scr_lns i s.roll
    → ((line_at s w).len == 0) ≡ true
    → ((y x : ℕ) → i ≤ y → d.at y x ≡ b' ')
    → Redrawn (i + 1) s d s' d'
    → Redrawn i s d s' d'
Redrawn-empty i w s d s' d' lt e h blank r = record {
  cursor = r.cursor;
  bottom = r.bottom;
  lines = r.lines;
  columns = r.columns;
  cur_col = r.cur_col;
  cur_ln = r.cur_ln;
  shows = λ y x. r.shows y x ∙ elim (Bool-cases (y == i)) [
    | inl q ↦
        let eq : y ≡ i = ground arith in
        let up : ltb y (i + 1) ≡ true = ground arith in
        let here : ltb y i ≡ false = ground arith in
        let short : ltb x (line_at s w).len ≡ false = ground arith in
        rw (up, here)
          (blank y x (omega (arith, eq))
            ∙ sym (ap (λ v. picture s v x) eq ∙ picture-at i w s x lt e ∙ rw short refl))
    | inr q ↦ let same : ltb y (i + 1) ≡ ltb y i = ground arith in rw same refl
  ];
}

Redrawn-full :
    (i w : ℕ) (s : Screen) (d : Display) (s' : Screen) (d' : Display)
    → i < s.scr_lns
    → w ≡ row_of s.scr_lns i s.roll
    → IsLine (line_at s w)
    → ((y x : ℕ) → i ≤ y → d.at y x ≡ b' ')
    → Redrawn (i + 1) (drawn i w s) (written i (line_at s w) d) s' d'
    → Redrawn i s d s' d'
Redrawn-full i w s d s' d' lt e h blank r =
    let (cur, bot, all) = written_lem i (line_at s w) d h in
    record {
      cursor = r.cursor;
      bottom = r.bottom ∙ bot;
      lines = r.lines;
      columns = r.columns;
      cur_col = r.cur_col;
      cur_ln = r.cur_ln;
      shows = λ y x. r.shows y x ∙ elim (Bool-cases (y == i)) [
        | inl q ↦
            let eq : y ≡ i = ground arith in
            let up : ltb y (i + 1) ≡ true = ground arith in
            let here : ltb y i ≡ false = ground arith in
            rw (up, here)
              (all y x
                ∙ rw (q, blank y x (omega (arith, eq)))
                    (sym (ap (λ v. picture s v x) eq ∙ picture-at i w s x lt e)))
        | inr q ↦
            let same : ltb y (i + 1) ≡ ltb y i = ground arith in
            let old : (written i (line_at s w) d).at y x ≡ d.at y x = all y x ∙ rw q refl in
            rw (same, old, picture-drawn i w s y x) refl
      ];
    }

redo_loop-Redrawn :
    (count i j : ℕ) (s : Screen) (d : Display)
    → IsScreen s
    → i + count ≡ s.scr_lns
    → (if leb s.scr_lns j then 0 else j) ≡ row_of s.scr_lns i s.roll
    → d.cursor ≡ s.tc
    → s.t_lines ≤ d.bottom + 1
    → ((y x : ℕ) → i ≤ y → d.at y x ≡ b' ')
    → Redrawn i s d (redo_loop count i j s).1 (obey_all (redo_loop count i j s).0 d)
unfolding redo_loop
redo_loop-Redrawn zero i j s d h n e k b blank = record {
  cursor = k;
  bottom = refl;
  lines = refl;
  columns = refl;
  cur_col = refl;
  cur_ln = refl;
  shows = λ y x. ground (arith, blank y x);
}
redo_loop-Redrawn (suc count) i j s d h n e k b blank =
    let w = row_of s.scr_lns i s.roll in
    let bp = line_at s w in
    let lt : i < s.scr_lns = omega arith in
    let next = next_place s.scr_lns i w s.roll h.ring lt refl in
    elim (Bool-cases (bp.len == 0)) [
      | inl z ↦
          subst (λ (r : List Out × Screen). Redrawn i s d r.1 (obey_all r.0 d))
            (sym (redo_loop-empty count i j w s e z))
            (Redrawn-empty i w s d _ _ lt refl z blank (
              redo_loop-Redrawn count (i + 1) (w + 1) s d h (omega arith) next k b
                (λ y x le. blank y x (omega arith))))
      | inr z ↦
          let (cur, bot, all) = written_lem i bp d (h.each w) in
          let (mv, tc) =
            obey_all-rel_move s.t_lines s.t_columns 0 i s.tc d k b (omega (arith, h.lines))
              (omega (arith, h.columns)) in
          let fits : leb s.t_columns bp.len ≡ false = ground (arith, h.columns, (h.each w).short) in
          let d1 = written i bp d in
          let rest = redo_loop count (i + 1) (w + 1) (drawn i w s) in
          let more =
            redo_loop-Redrawn count (i + 1) (w + 1) (drawn i w s) d1 (drawn-IsScreen i w s h)
              (omega arith) next cur (omega (arith, b, bot))
              (λ y x le.
                let q : (y == i) ≡ false = ground arith in
                all y x ∙ rw q (blank y x (omega arith))) in
          let out : obey_all
                (map plain (rel_move s.t_lines s.t_columns s.tc.tc_col s.tc.tc_line 0 i s.tc).0
                  ++ (line_output bp 0 bp.len ++ rest.0))
                d
              ≡ obey_all rest.0 d1 =
            obey_all-append
              (map plain (rel_move s.t_lines s.t_columns s.tc.tc_col s.tc.tc_line 0 i s.tc).0) _ d
            ∙ obey_all-append (line_output bp 0 bp.len) rest.0 _
            ∙ ap (obey_all rest.0) (
                ap (obey_all (line_output bp 0 bp.len)) mv
                ∙ obey_all-line_output bp _ (h.each w)) in
          subst (λ (r : List Out × Screen). Redrawn i s d r.1 (obey_all r.0 d))
            (sym (redo_loop-full count i j w s e z tc fits))
            (subst (λ (u : Display). Redrawn i s d rest.1 u) (sym out)
              (Redrawn-full i w s d rest.1 (obey_all rest.0 d1) lt refl (h.each w) blank more))
    ]

-- On a terminal of the lines that the code takes it to have, redoscr shows the picture, whatever the
-- terminal showed and wherever its cursor was, and leaves its cursor where the drawing functions have
-- theirs and where tc_line and tc_col say.
pub redoscr_lem :
    (s : Screen) (d : Display)
    → IsScreen s
    → s.t_lines ≤ d.bottom + 1
    → s.cur_ln < s.t_lines
    → s.cur_col < s.t_columns
    → ((y x : ℕ) → (obey_all (redoscr s).0 d).at y x ≡ picture s y x)
      × ((obey_all (redoscr s).0 d).cursor ≡ record { tc_col = s.cur_col; tc_line = s.cur_ln })
      × ((redoscr s).1.tc ≡ record { tc_col = s.cur_col; tc_line = s.cur_ln })
unfolding redoscr
redoscr_lem s d h b low left =
    let d0 = obey o_clear d in
    let s0 = record s { tc = record { tc_col = 0; tc_line = 0 } } in
    let first : (if leb s.scr_lns s.roll then 0 else s.roll) ≡ row_of s.scr_lns 0 s.roll =
      ground (arith, h.ring) in
    let start : IsScreen s0 = record {
      lines = h.lines;
      tall = h.tall;
      columns = h.columns;
      width = h.width;
      ring = h.ring;
      whole = h.whole;
      each = h.each;
    } in
    let r =
      redo_loop-Redrawn s.scr_lns 0 s.roll s0 d0 start (omega arith) first refl b
        (λ y x le. refl) in
    let loop = redo_loop s.scr_lns 0 s.roll s0 in
    let s1 = loop.1 in
    let d1 = obey_all loop.0 d0 in
    let (mv, tc) =
      obey_all-rel_move s1.t_lines s1.t_columns s1.cur_col s1.cur_ln s1.tc d1 r.cursor
        (omega (arith, r.bottom, r.lines)) (omega (arith, r.lines, r.cur_ln))
        (omega (arith, r.columns, r.cur_col)) in
    let there : record { tc_col = s1.cur_col; tc_line = s1.cur_ln }
        ≡ record { tc_col = s.cur_col; tc_line = s.cur_ln } =
      rw (r.cur_col, r.cur_ln) refl in
    let out = obey_all-append loop.0 _ d0 ∙ mv in
    (
      λ y x.
          let no : ltb y 0 ≡ false = ground arith in
          ap (λ (u : Display). u.at y x) out ∙ r.shows y x ∙ rw no refl,
      ap (λ (u : Display). u.cursor) out ∙ there,
      tc ∙ there,
    )
