-- ===== src/Editor/Joining.antt =====
-- join of mbbsd/edit.c on any line.
use openptt.Prelude.{
  ℕ, suc, ◌+◌, ◌≤◌, ◌<◌, ◌≡◌, refl, Bool, true, false, Option, some, ◌++◌, inl, inr, arith, ltb,
  ◌==◌, ◌||◌, not, length, Bool-cases, set, length-append,
}
use openptt.Editor.{Editor, line_at, wrapmargin, leading}
use openptt.Editor.Lines.{AllBelow-erase, AllBelow, AllBelow-get, AllBelow-set}
use openptt.Editor.Join.{join_point, join_pad, mark_rest, join}
use openptt.Editor.Cutting.{IsJoinable, join-fits, length-join_pad, over, short', fits'}

-- The value and the text that join gives, with lines that fit their buffers.
abbrev pub Ends : Option (Bool × Editor) → Type 0
Ends x = (r : Bool) × (e : Editor) × (x ≡ some (r, e)) × AllBelow wrapmargin e.lines

mark_rest-Ends : (k : ℕ) (x : Option (Bool × Editor)) → Ends x → Ends (mark_rest k x)
unfolding mark_rest
mark_rest-Ends k x (r, e, run, short) = (
  false,
  record e { lines = set e.lines (k + 1) (join_pad (line_at e (k + 1))) },
  rw run refl,
  AllBelow-set wrapmargin (k + 1) e.lines (join_pad (line_at e (k + 1))) short (
      length-join_pad (line_at e (k + 1))
        (AllBelow-get wrapmargin (k + 1) e.lines (omega arith) short)),
)

join-fits-Ends :
    (fuel k : ℕ) (e : Editor)
    → AllBelow wrapmargin e.lines
    → length (line_at e k) + length (line_at e (k + 1)) < wrapmargin
    → Ends (join (suc fuel) k e)
unfolding join
join-fits-Ends fuel k e short fits =
    elim (Bool-cases (not (ltb (k + 1) (length e.lines)) || not (leading (line_at e (k + 1))).1)) [
      | inl stop ↦ (true, e, rw stop refl, short)
      | inr go ↦
          let (e', run, lines) = join-fits fuel k e (ground arith) (ground arith) fits in
          (
            true,
            e',
            run,
            rw lines (
                AllBelow-erase wrapmargin (k + 1) (set e.lines k (line_at e k ++ line_at e (k + 1)))
                  (AllBelow-set wrapmargin k e.lines (line_at e k ++ line_at e (k + 1)) short
                    (omega (arith, length-append (line_at e k) (line_at e (k + 1)), fits)))),
          )
    ]

-- Without auto-indent and with lines that fit their buffers, join calls itself at most once, whatever
-- the line, and leaves lines that fit their buffers.
pub join-Ends :
    (k : ℕ) (e : Editor) → e.indent_mode ≡ false → AllBelow wrapmargin e.lines → Ends (join 2 k e)
unfolding join
join-Ends k e off short =
    elim (Bool-cases (ltb (length (line_at e k) + length (line_at e (k + 1))) wrapmargin)) [
      | inl few ↦ join-fits-Ends 1 k e short (ground arith)
      | inr many ↦
          elim (Bool-cases (
            not (ltb (k + 1) (length e.lines))
            || not (leading (line_at e (k + 1))).1
            || (join_point (length (line_at e k)) (line_at e (k + 1)) == 0))) [
              | inl stop ↦ (true, e, ground arith, short)
              | inr go ↦
                  let i : IsJoinable k e = record {
                    off = off;
                    short = short;
                    inside = ground arith;
                    words = ground arith;
                  } in
                  let long : wrapmargin ≤ length (line_at e k) + length (line_at e (k + 1)) =
                    ground arith in
                  let cut : (join_point (length (line_at e k)) (line_at e (k + 1)) == 0) ≡ false =
                    ground arith in
                  rw (over k e i long cut 1) (
                    mark_rest-Ends k _
                      (join-fits-Ends 0 k _ (short' k e i long cut) (fits' k e i long cut)))
            ]
    ]
