-- ===== src/Menu/Cursor.antt =====
-- The searches of domenu in mbbsd/menu.c for an item that the user may use.
use openptt.Prelude.{
  ℕ, zero, suc, ◌+◌, ◌-◌, ◌<◌, ◌≤◌, Bool, true, false, some, ◌≡◌, ◌≢◌, refl, ◌==◌, if◌then◌else◌,
  ltb, leb, arith, Bool-cases, inl, inr,
}
use mathlib.Core.Path.{subst}
use openptt.Menu.{go_down, go_up}

-- How far the place `k` is from `j` on, downwards with a wrap behind `total`.
abbrev below : (j total k : ℕ) → ℕ
below j total k =
    let i = (if ltb total j then 0 else j) in if leb i k then k - i else total + 1 - i + k

down_step :
    (j total k : ℕ) (i : ℕ)
    → i ≡ (if ltb total j then 0 else j)
    → k ≤ total
    → i ≢ k
    → below (i + 1) total k < below j total k
down_step j total k i e le ne = ground arith

other_item : (ok : ℕ → Bool) (i k : ℕ) → i ≡ k → ok i ≡ false → ok k ≡ true → ⊥
other_item ok i k same e good = cc (subst (λ m. ok m ≡ false) same e, good)

go_down-found :
    (fuel total j k : ℕ) (ok : ℕ → Bool)
    → k ≤ total
    → ok k ≡ true
    → below j total k < fuel
    → (i : ℕ) × (go_down fuel total ok j ≡ some i) × (i ≤ total) × (ok i ≡ true)
unfolding go_down
go_down-found zero total j k ok le good h = absurd (omega arith)
go_down-found (suc fuel) total j k ok le good h =
    let i = (if ltb total j then 0 else j) in
    elim (Bool-cases (ok i)) [
      | inl e ↦ (i, rw (go_down, e) refl, ground arith, e)
      | inr e ↦
          let ne : i ≢ k = λ same. other_item ok i k same e good in
          let (m, run, inside, fine) =
            go_down-found fuel total (i + 1) k ok le good
              (omega (arith, down_step j total k i refl le ne)) in
          (m, rw (go_down, e) run, inside, fine)
    ]

abbrev above : (i total k : ℕ) → ℕ
above i total k =
    let m = (if i == 0 then total else i - 1) in if leb k m then m - k else m + total + 1 - k

up_step :
    (i total k m : ℕ)
    → m ≡ (if i == 0 then total else i - 1)
    → k ≤ total
    → m ≢ k
    → above m total k < above i total k
up_step i total k m e le ne = ground arith

go_up-found :
    (fuel total i k : ℕ) (ok : ℕ → Bool)
    → i ≤ total
    → k ≤ total
    → ok k ≡ true
    → above i total k < fuel
    → (m : ℕ) × (go_up fuel total ok i ≡ some m) × (m ≤ total) × (ok m ≡ true)
unfolding go_up
go_up-found zero total i k ok small le good h = absurd (omega arith)
go_up-found (suc fuel) total i k ok small le good h =
    let m = (if i == 0 then total else i - 1) in
    elim (Bool-cases (ok m)) [
      | inl e ↦ (m, rw (go_up, e) refl, ground arith, e)
      | inr e ↦
          let (n, run, inside, fine) =
            go_up-found fuel total m k ok (ground arith) le good (
              omega (arith, up_step i total k m refl le (λ same. other_item ok m k same e good))) in
          (n, rw (go_up, e) run, inside, fine)
    ]

below-le : (j total k : ℕ) → k ≤ total → below j total k < total + 1
below-le j total k le = ground arith

above-le : (i total k : ℕ) → i ≤ total → k ≤ total → above i total k < total + 1
above-le i total k small le = ground arith

-- Where the user may use any item of the menu, both searches end within one round of it, from any
-- place, at an item of the menu that the user may use.
pub searches-end :
    (total i j k : ℕ) (ok : ℕ → Bool)
    → i ≤ total
    → k ≤ total
    → ok k ≡ true
    → ((m : ℕ) × (go_down (total + 1) total ok j ≡ some m) × (m ≤ total) × (ok m ≡ true))
      × ((m : ℕ) × (go_up (total + 1) total ok i ≡ some m) × (m ≤ total) × (ok m ≡ true))
searches-end total i j k ok small le good = (
  go_down-found (total + 1) total j k ok le good (below-le j total k le),
  go_up-found (total + 1) total i k ok small le good (above-le i total k small le),
)
