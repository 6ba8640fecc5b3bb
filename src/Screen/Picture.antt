-- ===== src/Screen/Picture.antt =====
-- The lines that the drawing functions of mbbsd/screen.c leave, and the picture that they stand for.
use openptt.Prelude.{
  ℕ, zero, suc, ◌+◌, ◌%◌, ◌<◌, ◌≤◌, ◌≡◌, refl, sym, arith, length-replicate, get_or-replicate, List,
  [], ◌∷◌, ltb, if◌then◌else◌, length, get_or, set,
}
use mathlib.Core.Path.{subst}
use openptt.Screen.{Line, Screen, ansilinelen, row_of, line_at, no_line, initscr}

-- A line that the drawing functions may leave.
pub record IsLine (l : Line) : Type 0 where
  pub full : length l.cells ≡ ansilinelen + 1
  pub short : l.len ≤ 255
  pub lit : l.sso ≤ l.eso

-- The lines fit a terminal, and `roll`, which is a char.
pub record IsScreen (s : Screen) : Type 0 where
  pub lines : s.scr_lns ≡ s.t_lines
  pub tall : s.scr_lns ≤ 127
  pub columns : s.t_columns ≡ ansilinelen
  pub width : s.scr_cols ≡ 255
  pub ring : s.roll < s.scr_lns
  pub whole : length s.big_picture ≡ s.scr_lns
  pub each : (m : ℕ) → IsLine (line_at s m)

-- What a line of the picture has in a column,
abbrev pub cell : Line → ℕ → ℕ
cell l x = if ltb x l.len then get_or l.cells x 0 else b' '

-- and the screen in a line and a column.
abbrev pub picture : Screen → ℕ → ℕ → ℕ
picture s y x = if ltb y s.scr_lns then cell (line_at s (row_of s.scr_lns y s.roll)) x else b' '

module _ {ℓ κ} {A : Type ℓ} where
  pub get_or-set_same :
      {B : Type κ} (f : A → B) (xs : List A) (i m : ℕ) (v d : A)
      → f v ≡ f (get_or xs i d)
      → f (get_or (set xs i v) m d) ≡ f (get_or xs m d)
  get_or-set_same f [] i m v d h = refl
  get_or-set_same f (x ∷ xs) zero zero v d h = h
  get_or-set_same f (x ∷ xs) zero (suc m) v d h = refl
  get_or-set_same f (x ∷ xs) (suc i) zero v d h = refl
  get_or-set_same f (x ∷ xs) (suc i) (suc m) v d h = get_or-set_same f xs i m v d h

  pub get_or-set_all :
      (P : A → Type κ) (xs : List A) (i : ℕ) (v d : A)
      → ((m : ℕ) → P (get_or xs m d))
      → P v
      → (m : ℕ) → P (get_or (set xs i v) m d)
  get_or-set_all P [] i v d h hv m = h m
  get_or-set_all P (x ∷ xs) zero v d h hv zero = hv
  get_or-set_all P (x ∷ xs) zero v d h hv (suc m) = h (suc m)
  get_or-set_all P (x ∷ xs) (suc i) v d h hv zero = h zero
  get_or-set_all P (x ∷ xs) (suc i) v d h hv (suc m) =
      get_or-set_all P xs i v d (λ k. h (suc k)) hv m

-- The picture that initscr makes is as it should be.
pub initscr-IsScreen :
    (lines : ℕ) (s : Screen) → 0 < lines → lines ≤ 127 → s.roll ≡ 0 → IsScreen (initscr lines s)
unfolding initscr
initscr-IsScreen lines s some few top =
    let fits : lines % 256 ≡ lines = omega arith in
    record {
      lines = fits;
      tall = omega (arith, fits);
      columns = refl;
      width = refl;
      ring = omega (arith, fits, top);
      whole = length-replicate (lines % 256) no_line;
      each = λ m.
          subst (λ (l : Line). IsLine l) (sym (get_or-replicate (lines % 256) m no_line))
            (record {
              full = length-replicate {A = ℕ} 512 0;
              short = omega arith;
              lit = omega arith;
            });
    }
