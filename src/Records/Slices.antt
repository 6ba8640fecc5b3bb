-- ===== src/Records/Slices.antt =====
-- Parts of the files of mbbsd/record.c: a file of whole records is `flat` of them.
use openptt.Prelude.{
  ℕ, zero, suc, ◌+◌, ◌-◌, ◌*◌, ◌<◌, ◌≤◌, ◌≡◌, refl, ap, arith, true, false, none, some, List, [],
  ◌∷◌, ◌++◌, leb, length, take, drop, replicate, length-append, length-drop, ◌∙◌, length-take,
  length-replicate,
}
use openptt.Prelude.Bytes.{Bytes}
use mathlib.Core.List.{append_assoc}
use mathlib.Core.Logic.{◌⊎◌, inl, inr}
use openptt.Records.{read_rec, read_at, write_at}

abbrev pub flat : List Bytes → Bytes
flat [] = []
flat (r ∷ rs) = r ++ flat rs

-- Every record has the size.
abbrev pub AllSize : ℕ → List Bytes → Type 0
AllSize size [] = Unit {0}
AllSize size (r ∷ rs) = (length r ≡ size) × AllSize size rs

module _ {ℓ} {A : Type ℓ} where
  pub take-append : (n : ℕ) (xs ys : List A) → length xs ≡ n → take n (xs ++ ys) ≡ xs
  take-append zero [] ys h = refl
  take-append zero (x ∷ xs) ys h = absurd (omega arith)
  take-append (suc n) [] ys h = absurd (omega arith)
  take-append (suc n) (x ∷ xs) ys h = ap (x ∷◌) (take-append n xs ys (omega arith))

  pub take_all : (n : ℕ) (xs : List A) → length xs ≡ n → take n xs ≡ xs
  take_all zero [] h = refl
  take_all zero (x ∷ xs) h = absurd (omega arith)
  take_all (suc n) [] h = refl
  take_all (suc n) (x ∷ xs) h = ap (x ∷◌) (take_all n xs (omega arith))

  pub drop-append_ge :
      (pos : ℕ) (xs ys : List A) → length xs ≤ pos → drop pos (xs ++ ys) ≡ drop (pos - length xs) ys
  drop-append_ge pos [] ys h = let e : pos - 0 ≡ pos = omega arith in rw e
  drop-append_ge zero (x ∷ xs) ys h = absurd (omega arith)
  drop-append_ge (suc pos) (x ∷ xs) ys h =
      let e : suc pos - suc (length xs) ≡ pos - length xs = omega arith in
      rw e (drop-append_ge pos xs ys (omega arith))

  pub drop-append : (n : ℕ) (xs ys : List A) → length xs ≡ n → drop n (xs ++ ys) ≡ ys
  drop-append zero [] ys h = refl
  drop-append zero (x ∷ xs) ys h = absurd (omega arith)
  drop-append (suc n) [] ys h = absurd (omega arith)
  drop-append (suc n) (x ∷ xs) ys h = drop-append n xs ys (omega arith)

  drop-nil : (n : ℕ) → drop {A = A} n [] ≡ []
  drop-nil zero = refl
  drop-nil (suc n) = refl

  pub drop-drop : (a b : ℕ) (xs : List A) → drop a (drop b xs) ≡ drop (b + a) xs
  drop-drop a zero xs = let e : 0 + a ≡ a = omega arith in rw e
  drop-drop a (suc b) [] = let e : suc b + a ≡ suc (b + a) = omega arith in rw e (drop-nil a)
  drop-drop a (suc b) (x ∷ xs) =
      let e : suc b + a ≡ suc (b + a) = omega arith in rw e (drop-drop a b xs)

  -- A slice inside the front part.
  pub slice-append :
      (n pos : ℕ) (xs ys : List A)
      → pos + n ≤ length xs
      → take n (drop pos (xs ++ ys)) ≡ take n (drop pos xs)
  slice-append zero zero xs ys h = refl
  slice-append (suc n) zero [] ys h = absurd (omega arith)
  slice-append (suc n) zero (x ∷ xs) ys h = ap (x ∷◌) (slice-append n zero xs ys (omega arith))
  slice-append zero (suc pos) [] ys h = absurd (omega arith)
  slice-append (suc n) (suc pos) [] ys h = absurd (omega arith)
  slice-append zero (suc pos) (x ∷ xs) ys h = slice-append zero pos xs ys (omega arith)
  slice-append (suc n) (suc pos) (x ∷ xs) ys h = slice-append (suc n) pos xs ys (omega arith)

  -- A slice inside what `take` keeps.
  pub slice-take :
      (n pos m : ℕ) (xs : List A)
      → pos + n ≤ m
      → take n (drop pos (take m xs)) ≡ take n (drop pos xs)
  slice-take zero zero m xs h = refl
  slice-take (suc n) zero zero xs h = absurd (omega arith)
  slice-take (suc n) zero (suc m) [] h = refl
  slice-take (suc n) zero (suc m) (x ∷ xs) h = ap (x ∷◌) (slice-take n zero m xs (omega arith))
  slice-take zero (suc pos) zero xs h = absurd (omega arith)
  slice-take (suc n) (suc pos) zero xs h = absurd (omega arith)
  slice-take zero (suc pos) (suc m) [] h = refl
  slice-take (suc n) (suc pos) (suc m) [] h = refl
  slice-take zero (suc pos) (suc m) (x ∷ xs) h = slice-take zero pos m xs (omega arith)
  slice-take (suc n) (suc pos) (suc m) (x ∷ xs) h = slice-take (suc n) pos m xs (omega arith)

pub read_rec-append :
    (size : ℕ) (r b : Bytes) → length r ≡ size → read_rec size (r ++ b) ≡ some (r, b)
read_rec-append size r b h =
    let e : leb size (length (r ++ b)) ≡ true = ground (arith, length-append r b) in
    rw (e, take-append size r b h, drop-append size r b h)

pub read_rec-short : (size : ℕ) (b : Bytes) → length b < size → read_rec size b ≡ none
read_rec-short size b h = let e : leb size (length b) ≡ false = ground arith in rw e

pub length-flat :
    (size : ℕ) (rs : List Bytes) → AllSize size rs → length (flat rs) ≡ size * length rs
length-flat size [] h = omega arith
length-flat size (r ∷ rs) h = grind (arith, length-append r (flat rs), length-flat size rs h.1, h.0)

pub flat-append : (xs ys : List Bytes) → flat (xs ++ ys) ≡ flat xs ++ flat ys
flat-append [] ys = refl
flat-append (x ∷ xs) ys = simp (flat-append xs ys, append_assoc)

-- Where the part before the position `pos` of a write is in the file.
front : (pos : ℕ) (b : Bytes) → length (take pos (b ++ replicate (pos - length b) 0)) ≡ pos
front pos b = omega (
  arith,
  length-take pos (b ++ replicate (pos - length b) 0),
  length-append b (replicate (pos - length b) 0),
  length-replicate {A = ℕ} (pos - length b) 0,
)

-- What was written is read again.
pub read_at-write_at : (pos : ℕ) (r b : Bytes) → read_at (length r) pos (write_at pos r b) ≡ some r
read_at-write_at pos r b =
    let x = take pos (b ++ replicate (pos - length b) 0) in
    let y = drop (pos + length r) b in
    let inside : leb (pos + length r) (length (x ++ (r ++ y))) ≡ true =
      ground (arith, front pos b, length-append x (r ++ y), length-append r y) in
    rw (inside, drop-append pos x (r ++ y) (front pos b), take-append (length r) r y refl)

pub read_at-some :
    (size at : ℕ) (b : Bytes) {s : Bytes}
    → read_at size at b ≡ some s
    → (at + size ≤ length b) × (take size (drop at b) ≡ s)
read_at-some size at b h = ground arith

pub some-read_at :
    (size at : ℕ) (b : Bytes)
    → at + size ≤ length b
    → read_at size at b ≡ some (take size (drop at b))
some-read_at size at b h = let e : leb (at + size) (length b) ≡ true = ground arith in rw e

pub length-write_at :
    (pos : ℕ) (r b : Bytes)
    → length (write_at pos r b) ≡ pos + (length r + (length b - (pos + length r)))
length-write_at pos r b =
    let x = take pos (b ++ replicate (pos - length b) 0) in
    let y = drop (pos + length r) b in
    omega (
      arith,
      front pos b,
      length-append x (r ++ y),
      length-append r y,
      length-drop (pos + length r) b,
    )

-- A slice of the file that the write does not touch stays.
pub slice-write_at :
    (size pos at : ℕ) (r b : Bytes)
    → (at + size ≤ pos) ⊎ (pos + length r ≤ at)
    → at + size ≤ length b
    → take size (drop at (write_at pos r b)) ≡ take size (drop at b)
slice-write_at size pos at r b (inl before) inside =
    let pad = replicate (pos - length b) 0 in
    let x = take pos (b ++ pad) in
    slice-append size at x (r ++ drop (pos + length r) b) (omega (arith, front pos b))
    ∙ slice-take size at pos (b ++ pad) before
    ∙ slice-append size at b pad inside
slice-write_at size pos at r b (inr behind) inside =
    let x = take pos (b ++ replicate (pos - length b) 0) in
    let y = drop (pos + length r) b in
    let same : pos + length r + (at - pos - length r) ≡ at = omega arith in
    rw (
      drop-append_ge at x (r ++ y) (omega (arith, front pos b)),
      front pos b,
      drop-append_ge (at - pos) r y (omega arith),
      drop-drop (at - pos - length r) (pos + length r) b,
      same,
    )

pub read_at-write_at_ne :
    (size pos at : ℕ) (r b : Bytes) {s : Bytes}
    → (at + size ≤ pos) ⊎ (pos + length r ≤ at)
    → read_at size at b ≡ some s
    → read_at size at (write_at pos r b) ≡ some s
read_at-write_at_ne size pos at r b {s} apart h =
    let (inside, e) = read_at-some size at b h in
    some-read_at size at (write_at pos r b) (omega (arith, length-write_at pos r b))
    ∙ ap some (slice-write_at size pos at r b apart inside ∙ e)
