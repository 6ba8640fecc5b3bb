-- ===== src/Users/Cells.antt =====
-- Reads and writes of the cells of the user hash.
use openptt.Prelude.{
  ℕ, Bool, true, false, Option, ◌≡◌, refl, arith, ◌==◌, if◌then◌else◌, List, [], ◌∷◌, ◌||◌,
}
use openptt.Users.{Uhash, Cell, head_cell, next_cell, read, write}

abbrev pub cell_eq : Cell → Cell → Bool
cell_eq (head_cell a) (head_cell b) = a == b
cell_eq (next_cell a) (next_cell b) = a == b
cell_eq (head_cell a) (next_cell b) = false
cell_eq (next_cell a) (head_cell b) = false

pub read-write :
    (u : Uhash) (p q : Cell) (v : Option ℕ)
    → read (write u p v) q ≡ (if cell_eq p q then v else read u q)
unfolding read write
read-write u (head_cell a) (head_cell b) v = refl
read-write u (next_cell a) (next_cell b) v = refl
read-write u (head_cell a) (next_cell b) v = refl
read-write u (next_cell a) (head_cell b) v = refl

pub cell_eq_refl : (p : Cell) → cell_eq p p ≡ true
cell_eq_refl (head_cell a) = ground arith
cell_eq_refl (next_cell a) = ground arith

abbrev pub elem : ℕ → List ℕ → Bool
elem k [] = false
elem k (x ∷ xs) = k == x || elem k xs
