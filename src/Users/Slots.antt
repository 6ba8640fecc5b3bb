-- ===== src/Users/Slots.antt =====
-- Lists of slots without repetition.
use openptt.Prelude.{
  ℕ, zero, suc, ◌<◌, ◌≤◌, true, false, ◌≡◌, refl, arith, ◌==◌, ◌≢◌, List, [], ◌∷◌, ◌++◌, ◌||◌,
  length, inl, inr, Bool-cases,
}
use openptt.Users.Cells.{elem}
use openptt.Users.Chains.{erase}

abbrev pub Nodup : List ℕ → Type 0
Nodup [] = Unit {0}
Nodup (k ∷ ks) = (elem k ks ≡ false) × Nodup ks

pub elem-erase : (n k : ℕ) (ks : List ℕ) → elem k (erase n ks) ≡ true → elem k ks ≡ true
elem-erase n k [] h = h
elem-erase n k (j ∷ ks) h = ground (arith, elem-erase n k ks)

pub elem-erase_self : (n : ℕ) (ks : List ℕ) → Nodup ks → elem n (erase n ks) ≡ false
elem-erase_self n [] d = refl
elem-erase_self n (j ∷ ks) d = ground (arith, elem-erase_self n ks)

pub elem-erase_ne : (n k : ℕ) (ks : List ℕ) → n ≢ k → elem k ks ≡ true → elem k (erase n ks) ≡ true
elem-erase_ne n k [] ne h = h
elem-erase_ne n k (j ∷ ks) ne h = ground (arith, elem-erase_ne n k ks)

pub Nodup-erase : (n : ℕ) (ks : List ℕ) → Nodup ks → Nodup (erase n ks)
Nodup-erase n [] d = tt
Nodup-erase n (j ∷ ks) d = elim (Bool-cases (j == n)) [
  | inl e ↦ rw e d.1
  | inr e ↦ rw e (ground (arith, elem-erase n j ks), Nodup-erase n ks d.1)
]

pub elem-snoc : (n k : ℕ) (ks : List ℕ) → elem k (ks ++ n ∷ []) ≡ (elem k ks || k == n)
elem-snoc n k [] = ground arith
elem-snoc n k (j ∷ ks) = ground (arith, elem-snoc n k ks)

pub Nodup-snoc : (n : ℕ) (ks : List ℕ) → Nodup ks → elem n ks ≡ false → Nodup (ks ++ n ∷ [])
Nodup-snoc n [] d e = (refl, tt)
Nodup-snoc n (j ∷ ks) d e = (ground (arith, elem-snoc n j ks), Nodup-snoc n ks d.1 (ground arith))

length-erase : (n : ℕ) (ks : List ℕ) → length ks ≤ suc (length (erase n ks))
length-erase n [] = omega arith
length-erase n (j ∷ ks) = ground (arith, length-erase n ks)

-- At most `m` different slots below `m`.
pub length-Nodup :
    (m : ℕ) (ks : List ℕ) → Nodup ks → ((k : ℕ) → elem k ks ≡ true → k < m) → length ks ≤ m
length-Nodup zero [] d b = omega arith
length-Nodup zero (k ∷ ks) d b = absurd (omega (arith, b k (ground arith)))
length-Nodup (suc m) ks d b =
    let below : (k : ℕ) → elem k (erase m ks) ≡ true → k < m =
      λ k e. ground (arith, b k (elem-erase m k ks e), elem-erase_self m ks d) in
    omega (arith, length-erase m ks, length-Nodup m (erase m ks) (Nodup-erase m ks d) below)
