-- ===== src/Votes/Stripping.antt =====
-- strip_ansi of mbbsd/vote.c where it strips all.
use openptt.Prelude.{
  ◌≤◌, ◌≡◌, refl, ap, Bool, true, false, [], ◌∷◌, arith, inl, inr, Bool-cases, ◌==◌, ◌&&◌, length,
}
use openptt.Prelude.Bytes.{Bytes, codes}
use openptt.Votes.{Strip, strip_all, escape, strchr, strip_loop, strip_ansi}

abbrev pub NoEscape : Bytes → Type 0
NoEscape [] = Unit {0}
NoEscape (c ∷ s) = ((c == escape) ≡ false) × NoEscape s

strip_loop-NoEscape :
    (ansi : Bool) (s : Bytes)
    → NoEscape (strip_loop strip_all ansi s) × (length (strip_loop strip_all ansi s) ≤ length s)
unfolding strip_loop
strip_loop-NoEscape ansi [] = (tt, omega arith)
strip_loop-NoEscape ansi (c ∷ s) =
    let (on, fewer) = strip_loop-NoEscape true s in
    let (off, few) = strip_loop-NoEscape false s in
    elim (Bool-cases (c == escape)) [
      | inl e ↦ rw (strip_loop, e) (on, omega arith)
      | inr e ↦ elim (Bool-cases (ansi && strchr (codes "[;1234567890mfHABCDnsuJKc=n") c)) [
        | inl g ↦ elim (Bool-cases (strchr (codes "mHn ") c)) [
          | inl z ↦ rw (strip_loop, e, g, z) (off, omega arith)
          | inr z ↦ rw (strip_loop, e, g, z) (on, omega arith)
        ]
        | inr g ↦ rw (strip_loop, e, g) ((e, off), omega arith)
      ]
    ]

strip_ansi_id : (mode : Strip) (s : Bytes) → NoEscape s → strip_ansi mode s ≡ s
unfolding strip_loop
strip_ansi_id mode [] h = refl
strip_ansi_id mode (c ∷ s) h = rw (strip_loop, h.0) (ap (c ∷◌) (strip_ansi_id mode s h.1))

-- With STRIP_ALL no escape is left and nothing is added; in no mode does stripping change a text without
-- escapes, so that stripping again, in any mode, changes nothing.
pub strip_ansi-strip_ansi :
    (mode : Strip) (s : Bytes)
    → NoEscape (strip_ansi strip_all s)
      × (length (strip_ansi strip_all s) ≤ length s)
      × (strip_ansi mode (strip_ansi strip_all s) ≡ strip_ansi strip_all s)
strip_ansi-strip_ansi mode s =
    let (clean, short) = strip_loop-NoEscape false s in
    (clean, short, strip_ansi_id mode (strip_ansi strip_all s) clean)
