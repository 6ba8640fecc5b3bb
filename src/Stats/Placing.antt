-- ===== src/Stats/Placing.antt =====
-- Where sort of util/poststat.c places a record.
use openptt.Prelude.{
  ℕ, zero, suc, ◌+◌, ◌-◌, ◌<◌, ◌≤◌, Bool, true, false, Option, none, some, ◌==◌, ◌&&◌,
  if◌then◌else◌, ltb, leb, ◌≡◌, refl, arith, Bool-cases, inl, inr, ◌⊎◌, ◌∙◌, ap, sym,
}
use mathlib.Core.Path.{subst}
use openptt.Users.{update}
use openptt.Stats.{Post, topcount, find, shift}

shift_lem :
    (rounds i j : ℕ) (top : ℕ → Post)
    → shift rounds i top j ≡ (if ltb i j && leb j (i + rounds) then top (j - 1) else top j)
unfolding shift
shift_lem zero i j top = ground arith
shift_lem (suc rounds) i j top = elim (Bool-cases (i + rounds + 1 == j)) [
  | inl e ↦
      let at : j ≡ i + rounds + 1 = ground arith in
      let before : j - 1 ≡ i + rounds = omega arith in
      let inside : (ltb i j && leb j (i + suc rounds)) ≡ true = ground arith in
      let outside : (ltb i j && leb j (i + rounds)) ≡ false = ground arith in
      rw (shift_lem rounds i j (update top (i + rounds + 1) (top (i + rounds))))
        (rw (inside, outside) (rw e (ap top (omega arith))))
  | inr e ↦
      rw (shift_lem rounds i j (update top (i + rounds + 1) (top (i + rounds))))
        (elim (Bool-cases (ltb i j && leb j (i + rounds))) [
          | inl f ↦
              let inside : (ltb i j && leb j (i + suc rounds)) ≡ true = ground arith in
              let apart : (i + rounds + 1 == j - 1) ≡ false = ground arith in
              rw (f, inside, apart) refl
          | inr f ↦
              let outside : (ltb i j && leb j (i + suc rounds)) ≡ false = ground arith in
              rw (f, outside, e) refl
        ])
]

-- What find says.
pub data Found (count number : ℕ) (top : ℕ → Post) : Option ℕ → Type 0 where
  nowhere : ((j : ℕ) → j ≤ count → number ≤ (top j).number) → Found count number top none
  place :
      (i : ℕ)
      → i ≤ count
      → (top i).number < number
      → ((j : ℕ) → j < i → number ≤ (top j).number)
      → Found count number top (some i)

pub find-Found :
    (rounds i count number : ℕ) (top : ℕ → Post)
    → i + rounds ≡ count + 1
    → ((j : ℕ) → j < i → number ≤ (top j).number)
    → Found count number top (find rounds i number top)
unfolding find
find-Found zero i count number top e h = nowhere (λ j le. h j (omega arith))
find-Found (suc rounds) i count number top e h = elim (Bool-cases (ltb (top i).number number)) [
  | inl f ↦ rw (find, f) (place i (omega arith) (ground arith) h)
  | inr f ↦
      rw (find, f)
        (find-Found rounds (i + 1) count number top (omega arith) (λ j lt.
          elim (Bool-cases (j == i)) [
            | inl g ↦
                let at : i ≡ j = ground arith in
                subst (λ m. number ≤ (top m).number) at (ground arith)
            | inr g ↦ h j (ground arith)
          ]))
]

-- In order, with zeros behind the count, as long as there is room.
pub record IsTop (count : ℕ) (top : ℕ → Post) : Type 0 where
  pub small : count ≤ topcount - 1
  pub sorted : (j : ℕ) → (top (j + 1)).number ≤ (top j).number
  pub empty : (j : ℕ) → count < topcount - 1 → count ≤ j → (top j).number ≡ 0

-- The record is in the table, or no greater than the last of it.
unfoldable pub Covers : (p : Post) → (ℕ → Post) → Type 0
Covers p top = ((j : ℕ) × (j < topcount) × (top j ≡ p)) ⊎ (p.number ≤ (top (topcount - 1)).number)

number_if :
    (c : Bool) (x y : Post) → (if c then x else y).number ≡ (if c then x.number else y.number)
number_if true x y = refl
number_if false x y = refl

order_table :
    (i j g p ti t0 tm t1 tj : ℕ)
    → tj ≡ t0
    → (i ≡ j → ti ≡ t0)
    → (j < i → p ≤ t0)
    → t1 ≤ t0
    → (0 < j → t0 ≤ tm)
    → ti < p
    → (if i == j + 1 then p else (if ltb i (j + 1) && leb (j + 1) g then tj else t1))
      ≤ (if i == j then p else (if ltb i j && leb j g then tm else t0))
order_table i j g p ti t0 tm t1 tj a b c d e f = elim (Bool-cases (i == j)) [
  | inl x ↦ let same : ti ≡ t0 = b (ground arith) in rw x (ground arith)
  | inr x ↦ elim (Bool-cases (ltb j i)) [
    | inl y ↦ let less : p ≤ t0 = c (ground arith) in rw x (ground arith)
    | inr y ↦ let more : t0 ≤ tm = e (ground arith) in rw x (ground arith)
  ]
]

rise_table :
    (i j g p ti t0 tm : ℕ)
    → (i ≡ j → ti ≡ t0)
    → (0 < j → t0 ≤ tm)
    → ti < p
    → t0 ≤ (if i == j then p else (if ltb i j && leb j g then tm else t0))
rise_table i j g p ti t0 tm a b c = elim (Bool-cases (i == j)) [
  | inl x ↦ let same : ti ≡ t0 = a (ground arith) in rw x (ground arith)
  | inr x ↦ elim (Bool-cases (ltb i j)) [
    | inl y ↦ let more : t0 ≤ tm = b (ground arith) in rw (x, y) (ground arith)
    | inr y ↦ rw (x, y) (ground arith)
  ]
]

module _ (pp : Post) (count i : ℕ) (top : ℕ → Post) (h : IsTop count top) (le : i ≤ count)
    (less : (top i).number < pp.number)
    (before : (j : ℕ) → j < i → pp.number ≤ (top j).number) where
  abbrev pub grown : ℕ
  grown = if ltb count (topcount - 1) then count + 1 else count

  abbrev pub placed : ℕ → Post
  placed = update (shift (grown - i) i top) i pp

  placed_lem :
      (j : ℕ)
      → placed j ≡ (if i == j then pp else (if ltb i j && leb j grown then top (j - 1) else top j))
  placed_lem j =
      let end : i + (grown - i) ≡ grown = ground arith in
      rw (shift_lem (grown - i) i j top) (rw end refl)

  sorted_pred : (j : ℕ) → 0 < j → (top j).number ≤ (top (j - 1)).number
  sorted_pred j pos =
      subst (λ m. (top m).number ≤ (top (j - 1)).number) (omega arith) (h.sorted (j - 1))

  placed_number :
      (j : ℕ)
      → (placed j).number ≡ (
          if i == j
          then pp.number
          else (if ltb i j && leb j grown then (top (j - 1)).number else (top j).number))
  placed_number j =
      ap (λ (p : Post). p.number) (placed_lem j)
      ∙ number_if (i == j) pp _
      ∙ ap (λ n. if i == j then pp.number else n)
          (number_if (ltb i j && leb j grown) (top (j - 1)) (top j))

  placed-sorted : (j : ℕ) → (placed (j + 1)).number ≤ (placed j).number
  placed-sorted j =
      rw (placed_number j, placed_number (j + 1))
        (order_table i j grown pp.number (top i).number (top j).number (top (j - 1)).number
          (top (j + 1)).number (top (j + 1 - 1)).number
          (subst (λ m. (top m).number ≡ (top j).number) (omega arith) refl)
          (λ e. ap (λ m. (top m).number) e) (before j) (h.sorted j) (sorted_pred j) less)

  placed-empty : (j : ℕ) → grown < topcount - 1 → grown ≤ j → (placed j).number ≡ 0
  placed-empty j room far =
      let here : (top j).number ≡ 0 = h.empty j (ground arith) (ground arith) in
      let back : (top (j - 1)).number ≡ 0 = h.empty (j - 1) (ground arith) (ground arith) in
      let apart : (i == j) ≡ false = ground arith in
      rw (placed_number j, apart, here, back) (ground arith)

  rises : (j : ℕ) → (top j).number ≤ (placed j).number
  rises j = rw (placed_number j) (
      rise_table i j grown pp.number (top i).number (top j).number (top (j - 1)).number
        (λ e. ap (λ m. (top m).number) e) (sorted_pred j) less)

  pub placed-IsTop : IsTop grown placed
  placed-IsTop = record {
    small = ground (arith, h.small);
    sorted = placed-sorted;
    empty = placed-empty;
  }

  moved : (j : ℕ) → i ≤ j → j < grown → placed (j + 1) ≡ top j
  moved j low high =
      let apart : (i == j + 1) ≡ false = ground arith in
      let inside : (ltb i (j + 1) && leb (j + 1) grown) ≡ true = ground arith in
      placed_lem (j + 1) ∙ rw (apart, inside) (ap top (omega arith))

  -- A record stays in the table, moves one place on, or falls out behind the last.
  pub placed-Covers : (p : Post) → Covers p top → Covers p placed
  unfolding Covers
  placed-Covers p (inl (j, lt, e)) = elim (Bool-cases (ltb j i)) [
    | inl low ↦ inl (j, lt, placed_lem j ∙ ground arith)
    | inr high ↦ elim (Bool-cases (ltb j grown)) [
      | inl inside ↦ inl (j + 1, ground (arith, h.small), moved j (ground arith) (ground arith) ∙ e)
      | inr outside ↦ elim (Bool-cases (j == topcount - 1)) [
        | inl last ↦
            let at : j ≡ topcount - 1 = ground arith in
            inr (subst (λ m. p.number ≤ (placed m).number) at (rw (sym e) (rises j)))
        | inr more ↦
            let none_yet : (top j).number ≡ 0 = h.empty j (ground arith) (ground arith) in
            inr (rw (sym e) (omega arith))
      ]
    ]
  ]
  placed-Covers p (inr last) = inr (omega (arith, rises (topcount - 1)))

  pub pp-Covers : Covers pp placed
  unfolding Covers
  pp-Covers = inl (i, ground (arith, h.small), placed_lem i ∙ ground arith)
