-- ===== src/Screen/Lines.antt =====
-- The lines that outch of mbbsd/screen.c leaves.
use openptt.Prelude.{
  ℕ, zero, suc, ◌+◌, ◌-◌, ◌%◌, ◌<◌, ◌≤◌, ◌≡◌, refl, ap, ◌∙◌, true, false, arith, inl, inr,
  Bool-cases, ltb, leb, ◌==◌, if◌then◌else◌, ◌&&◌, length, get_or, set, length-set, get_or-set,
}
use openptt.Prelude.Bytes.{Bytes}
use openptt.Screen.{Line, fill, reach, put_byte}
use openptt.Screen.Picture.{IsLine, cell}

pub length-fill : (i k : ℕ) (s : Bytes) → length (fill i k s) ≡ length s
length-fill i zero s = refl
length-fill i (suc k) s = length-fill (suc i) k (set s i 32) ∙ length-set s i 32

pub get_or-fill :
    (i k : ℕ) (s : Bytes) (x : ℕ)
    → i + k ≤ length s
    → get_or (fill i k s) x 0 ≡ (if leb i x && ltb x (i + k) then b' ' else get_or s x 0)
get_or-fill i zero s x h = ground arith
get_or-fill i (suc k) s x h =
    get_or-fill (suc i) k (set s i 32) x (omega (arith, length-set s i 32))
    ∙ ground (arith, get_or-set s i x 32 (omega arith))

reach_lem :
    (col : ℕ) (slp : Line)
    → IsLine slp
    → col < 255
    → IsLine (reach col slp)
      × (col < (reach col slp).len)
      × ((x : ℕ) → (x == col) ≡ false → cell (reach col slp) x ≡ cell slp x)
unfolding reach
reach_lem col slp h lt = elim (Bool-cases (leb slp.len col)) [
  | inl e ↦
      let small : (col + 1) % 256 ≡ col + 1 = omega arith in
      let long = length-fill slp.len (col - slp.len) slp.cells in
      rw (reach, e, small)
        (
          record {
            full = length-set (fill slp.len (col - slp.len) slp.cells) col 0 ∙ long ∙ h.full;
            short = omega arith;
            lit = h.lit;
          },
          omega arith,
          λ x ne. ground (
            arith,
            get_or-set (fill slp.len (col - slp.len) slp.cells) col x 0
                (omega (arith, long, h.full)),
            get_or-fill slp.len (col - slp.len) slp.cells x (ground (arith, h.full)),
          ),
        )
  | inr e ↦ rw (reach, e) (h, ground arith, λ x ne. refl)
]

put_byte_lem :
    (c col : ℕ) (slp : Line)
    → IsLine slp
    → col < slp.len
    → IsLine (put_byte c col slp)
      × ((x : ℕ) → cell (put_byte c col slp) x ≡ (if x == col then c else cell slp x))
unfolding put_byte
put_byte_lem c col slp h lt = elim (Bool-cases (get_or slp.cells col 0 == c)) [
  | inl e ↦
      rw (put_byte, e)
        (
          h,
          λ x. elim (Bool-cases (x == col)) [
            | inl q ↦
                let eq : x ≡ col = ground arith in
                let low : ltb col slp.len ≡ true = ground arith in
                let has : get_or slp.cells col 0 ≡ c = ground arith in
                rw q (ap (cell slp) eq ∙ rw (low, has) refl)
            | inr q ↦ rw q refl
          ],
        )
  | inr e ↦
      rw (put_byte, e)
        (
          record { full = length-set slp.cells col c ∙ h.full; short = h.short; lit = h.lit },
          λ x. ground (arith, get_or-set slp.cells col x c (omega (arith, h.full, h.short))),
        )
]

-- The line that outch leaves has the byte, and what it had elsewhere.
pub put_byte-reach :
    (c col : ℕ) (slp : Line)
    → IsLine slp
    → col < 255
    → IsLine (put_byte c col (reach col slp))
      × ((x : ℕ) → cell (put_byte c col (reach col slp)) x ≡ (if x == col then c else cell slp x))
put_byte-reach c col slp h lt =
    let (line, there, same) = reach_lem col slp h lt in
    let (line', byte) = put_byte_lem c col (reach col slp) line there in
    (
      line',
      λ x. byte x ∙ elim (Bool-cases (x == col)) [ inl e ↦ rw e refl | inr e ↦ rw e (same x e) ],
    )
