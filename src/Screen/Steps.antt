-- ===== src/Screen/Steps.antt =====
-- A line of redoscr of mbbsd/screen.c.
use openptt.Prelude.{
  ℕ, zero, suc, ◌+◌, ◌-◌, ◌<◌, ◌≡◌, refl, ap, ◌∙◌, true, false, [], ◌∷◌, ◌++◌, arith, inl, inr,
  Bool-cases, ltb, leb, ◌==◌, if◌then◌else◌, ◌&&◌, map, length, get_or, set, take, length-take,
}
use openptt.Prelude.Bytes.{Bytes}
use openptt.Terminal.{rel_move, standoutput, slice}
use openptt.Terminal.Highlight.{standoutput_lem}
use openptt.Screen.{Line, Screen, line_at}
use openptt.Screen.Redraw.{plain, line_output, redo_loop}
use openptt.Screen.Display.{Display, write, obey_all, obey_all-text, standoutput-IsText, write_lem}
use openptt.Screen.Picture.{IsLine}

pub obey_all-line_output :
    (bp : Line) (d : Display)
    → IsLine bp
    → obey_all (line_output bp 0 bp.len) d ≡ write (take bp.len bp.cells) d
unfolding line_output
obey_all-line_output bp d h =
    let whole : slice 0 bp.len bp.cells ≡ take bp.len bp.cells =
      let e : bp.len - 0 ≡ bp.len = omega arith in ap (λ n. take n bp.cells) e in
    elim (Bool-cases bp.standout_mode) [
      | inl e ↦
          rw (line_output, e)
            (obey_all-text (standoutput bp.cells 0 bp.len bp.sso bp.eso) d
                (standoutput-IsText bp.cells 0 bp.len bp.sso bp.eso)
              ∙ ap (λ b. write b d)
                  ((standoutput_lem bp.cells 0 bp.len bp.sso bp.eso (omega arith) h.lit).0 ∙ whole))
      | inr e ↦ rw (line_output, e) (ap (λ b. write b d) whole)
    ]

-- The state behind line `i`, which is at the place `w` and not empty.
abbrev pub drawn : (i w : ℕ) → Screen → Screen
drawn i w s =
    let bp = line_at s w in
    record s {
      big_picture = set s.big_picture w (record bp { modified = false; oldlen = bp.len });
      tc = record { tc_col = bp.len; tc_line = i };
    }

pub redo_loop-empty :
    (count i j w : ℕ) (s : Screen)
    → (if leb s.scr_lns j then 0 else j) ≡ w
    → ((line_at s w).len == 0) ≡ true
    → redo_loop (suc count) i j s ≡ redo_loop count (i + 1) (w + 1) s
unfolding redo_loop
redo_loop-empty count i j w s e h = rw (redo_loop, e) (rw h refl)

pub redo_loop-full :
    (count i j w : ℕ) (s : Screen)
    → (if leb s.scr_lns j then 0 else j) ≡ w
    → ((line_at s w).len == 0) ≡ false
    → (rel_move s.t_lines s.t_columns s.tc.tc_col s.tc.tc_line 0 i s.tc).1
      ≡ record { tc_col = 0; tc_line = i }
    → leb s.t_columns (line_at s w).len ≡ false
    → redo_loop (suc count) i j s ≡ (
      map plain (rel_move s.t_lines s.t_columns s.tc.tc_col s.tc.tc_line 0 i s.tc).0
          ++ (line_output (line_at s w) 0 (line_at s w).len
              ++ (redo_loop count (i + 1) (w + 1) (drawn i w s)).0),
      (redo_loop count (i + 1) (w + 1) (drawn i w s)).1,
    )
unfolding redo_loop
redo_loop-full count i j w s e h mv fits =
    let bp = line_at s w in
    let plus : 0 + bp.len ≡ bp.len = omega arith in
    rw (redo_loop, e) (rw h (rw mv (rw plus (rw fits refl))))

-- The terminal behind line `i`.
abbrev pub written : (i : ℕ) → Line → Display → Display
written i bp d =
    write (take bp.len bp.cells) (record d { cursor = record { tc_col = 0; tc_line = i } })

get_or-take : (n : ℕ) (s : Bytes) (x : ℕ) → x < n → get_or (take n s) x 0 ≡ get_or s x 0
get_or-take zero s x h = absurd (omega arith)
get_or-take (suc n) [] x h = refl
get_or-take (suc n) (c ∷ s) zero h = refl
get_or-take (suc n) (c ∷ s) (suc x) h = get_or-take n s x (omega arith)

pub written_lem :
    (i : ℕ) (bp : Line) (d : Display)
    → IsLine bp
    → ((written i bp d).cursor ≡ record { tc_col = bp.len; tc_line = i })
      × ((written i bp d).bottom ≡ d.bottom)
      × ((y x : ℕ)
          → (written i bp d).at y x
            ≡ (if (y == i) && ltb x bp.len then get_or bp.cells x 0 else d.at y x))
written_lem i bp d h =
    let count : length (take bp.len bp.cells) ≡ bp.len =
      omega (arith, length-take bp.len bp.cells, h.full, h.short) in
    let (cur, bot, all) =
      write_lem (take bp.len bp.cells) (record d { cursor = record { tc_col = 0; tc_line = i } }) in
    (
      cur ∙ ap (λ (n : ℕ). record { tc_col = n; tc_line = i }) (omega (arith, count)),
      bot,
      λ y x. all y x ∙ elim (Bool-cases (ltb x bp.len)) [
        | inl e ↦
            let in_it : (leb 0 x && ltb x (0 + length (take bp.len bp.cells))) ≡ true =
              ground (arith, count) in
            let place : x - 0 ≡ x = omega arith in
            rw (in_it, e, place, get_or-take bp.len bp.cells x (ground arith)) refl
        | inr e ↦
            let out : (leb 0 x && ltb x (0 + length (take bp.len bp.cells))) ≡ false =
              ground (arith, count) in
            rw (out, e) (ground arith)
      ],
    )
