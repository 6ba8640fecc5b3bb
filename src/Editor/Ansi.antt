-- ===== src/Editor/Ansi.antt =====
-- ansi2n and n2ansi of mbbsd/edit.c, the byte positions and the screen columns of a line with escape
-- codes.
use Prim.Native.Nat.{min}
use openptt.Prelude.{
  ℕ, zero, suc, ◌+◌, ◌≤◌, ◌<◌, ◌≡◌, refl, Bool, true, false, [], ◌∷◌, inl, inr, arith, leb, ◌==◌,
  if◌then◌else◌, length, Bool-cases, ap, sym, ◌∙◌,
}
use openptt.Prelude.Bytes.{Bytes}
use openptt.Editor.{key_esc, isalpha, skip_code, ansi2n_loop, ansi2n, n2ansi_loop, n2ansi}

-- The number of screen columns: the bytes outside escape codes, which run from an escape to the
-- first letter.
abbrev pub columns_in : Bool → Bytes → ℕ
columns_in b [] = 0
columns_in true (c ∷ s) = if isalpha c then columns_in false s else columns_in true s
columns_in false (c ∷ s) = if c == key_esc then columns_in true s else suc (columns_in false s)

abbrev pub columns : Bytes → ℕ
columns s = columns_in false s

skip_code_lem :
    (s : Bytes)
    → (columns_in true s ≡ columns (skip_code s).1)
      × ((skip_code s).0 + length (skip_code s).1 ≡ length s)
unfolding skip_code
skip_code_lem [] = (refl, omega arith)
skip_code_lem (c ∷ s) = ground (arith, skip_code_lem s)

esc_code : (c : ℕ) (s : Bytes) → (c == key_esc) ≡ true → (skip_code (c ∷ s)).1 ≡ (skip_code s).1
unfolding skip_code
esc_code c s e = ground arith

esc_step : (c : ℕ) (s : Bytes) → (c == key_esc) ≡ true → (skip_code (c ∷ s)).0 ≡ (skip_code s).0 + 1
unfolding skip_code
esc_step c s e = ground arith

ansi2n_loop-bounds :
    (fuel x at : ℕ) (s : Bytes)
    → (at ≤ ansi2n_loop fuel x at s) × (ansi2n_loop fuel x at s ≤ at + length s)
unfolding ansi2n_loop
ansi2n_loop-bounds zero x at s = (omega arith, omega arith)
ansi2n_loop-bounds (suc fuel) x at [] = (omega arith, omega arith)
ansi2n_loop-bounds (suc fuel) zero at (c ∷ s) = ground (
  arith,
  ansi2n_loop-bounds fuel zero (at + (skip_code (c ∷ s)).0) (skip_code (c ∷ s)).1,
  (skip_code_lem (c ∷ s)).1,
)
ansi2n_loop-bounds (suc fuel) (suc x) at (c ∷ s) = ground (
  arith,
  ansi2n_loop-bounds fuel (suc x) (at + (skip_code (c ∷ s)).0) (skip_code (c ∷ s)).1,
  (skip_code_lem (c ∷ s)).1,
  ansi2n_loop-bounds fuel x (at + 1) s,
)

-- One round of each loop.
module _ (fuel at c : ℕ) (s : Bytes) where
  abbrev past : ℕ
  past = at + (skip_code (c ∷ s)).0

  abbrev rest : Bytes
  rest = (skip_code (c ∷ s)).1

  ansi2n_loop-esc :
      (x : ℕ)
      → (c == key_esc) ≡ true
      → ansi2n_loop (suc fuel) x at (c ∷ s) ≡ ansi2n_loop fuel x past rest
  unfolding ansi2n_loop
  ansi2n_loop-esc x e = rw (e, ansi2n_loop)

  ansi2n_loop-text :
      (x : ℕ)
      → (c == key_esc) ≡ false
      → ansi2n_loop (suc fuel) (suc x) at (c ∷ s) ≡ ansi2n_loop fuel x (at + 1) s
  unfolding ansi2n_loop
  ansi2n_loop-text x e = rw (e, ansi2n_loop)

  ansi2n_loop-stop : (c == key_esc) ≡ false → ansi2n_loop (suc fuel) zero at (c ∷ s) ≡ at
  unfolding ansi2n_loop
  ansi2n_loop-stop e = rw (e, ansi2n_loop)

  n2ansi_loop-esc :
      (nx y : ℕ)
      → (c == key_esc) ≡ true
      → n2ansi_loop (suc fuel) nx at y (c ∷ s) ≡ n2ansi_loop fuel nx past y rest
  unfolding n2ansi_loop
  n2ansi_loop-esc nx y e = rw (e, n2ansi_loop)

  n2ansi_loop-text :
      (nx y : ℕ)
      → (c == key_esc) ≡ false
      → at < nx
      → n2ansi_loop (suc fuel) nx at y (c ∷ s) ≡ n2ansi_loop fuel nx (at + 1) (y + 1) s
  unfolding n2ansi_loop
  n2ansi_loop-text nx y e h = let f : leb nx at ≡ false = ground arith in rw (e, f, n2ansi_loop)

  n2ansi_loop-stop :
      (nx y : ℕ) → (c == key_esc) ≡ false → nx ≤ at → n2ansi_loop (suc fuel) nx at y (c ∷ s) ≡ y
  unfolding n2ansi_loop
  n2ansi_loop-stop nx y e h = let f : leb nx at ≡ true = ground arith in rw (e, f, n2ansi_loop)

columns-esc : (c : ℕ) (s : Bytes) → (c == key_esc) ≡ true → columns (c ∷ s) ≡ columns (rest 0 0 c s)
columns-esc c s e = rw e ((skip_code_lem s).0 ∙ ap columns (sym (esc_code c s e)))

rest-short : (c : ℕ) (s : Bytes) → (c == key_esc) ≡ true → length (rest 0 0 c s) ≤ length s
rest-short c s e = omega (arith, (skip_code_lem s).1, ap length (esc_code c s e))

-- Reading the column back at the position that ansi2n gives.
n2ansi-ansi2n_loop :
    (fuel x at y : ℕ) (s : Bytes)
    → length s < fuel
    → n2ansi_loop fuel (ansi2n_loop fuel x at s) at y s ≡ y + min x (columns s)
n2ansi-ansi2n_loop zero x at y s h = elim h [ ]
n2ansi-ansi2n_loop (suc fuel) x at y [] h = unfold n2ansi_loop in omega arith
n2ansi-ansi2n_loop (suc fuel) zero at y (c ∷ s) h = elim (Bool-cases (c == key_esc)) [
  | inl e ↦
      rw (ansi2n_loop-esc fuel at c s zero e, n2ansi_loop-esc fuel at c s _ y e, columns-esc c s e)
        (n2ansi-ansi2n_loop fuel zero (past fuel at c s) y (rest 0 0 c s)
          (omega (arith, rest-short c s e)))
  | inr e ↦
      rw (ansi2n_loop-stop fuel at c s e, n2ansi_loop-stop fuel at c s at y e (omega arith))
        (omega arith)
]
n2ansi-ansi2n_loop (suc fuel) (suc x) at y (c ∷ s) h = elim (Bool-cases (c == key_esc)) [
  | inl e ↦
      rw
        (
          ansi2n_loop-esc fuel at c s (suc x) e,
          n2ansi_loop-esc fuel at c s _ y e,
          columns-esc c s e,
        )
        (n2ansi-ansi2n_loop fuel (suc x) (past fuel at c s) y (rest 0 0 c s)
          (omega (arith, rest-short c s e)))
  | inr e ↦
      rw
        (
          ansi2n_loop-text fuel at c s x e,
          n2ansi_loop-text fuel at c s (ansi2n_loop fuel x (at + 1) s) y e
              (omega (arith, (ansi2n_loop-bounds fuel x (at + 1) s).0)),
          e,
        )
        (omega (arith, n2ansi-ansi2n_loop fuel x (at + 1) (y + 1) s (omega arith)))
]

-- A column goes to a position within the line and back to itself, or to the last column of a
-- shorter line.
pub n2ansi-ansi2n :
    (x : ℕ) (s : Bytes) → (n2ansi (ansi2n x s) s ≡ min x (columns s)) × (ansi2n x s ≤ length s)
unfolding ansi2n n2ansi
n2ansi-ansi2n x s = (
  omega (arith, n2ansi-ansi2n_loop (suc (length s)) x 0 0 s (omega arith)),
  omega (arith, (ansi2n_loop-bounds (suc (length s)) x 0 s).1),
)
