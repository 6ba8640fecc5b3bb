-- ===== src/Records/Shift.antt =====
-- delete_file of mbbsd/record.c: the record that goes when the check holds at the given number, and
-- the one that goes when the file has to be scanned.
use openptt.Prelude.{
  ℕ, zero, suc, ◌+◌, ◌-◌, ◌*◌, ◌/◌, ◌<◌, ◌≤◌, ◌≡◌, refl, sym, ap, ◌∙◌, arith, Bool, true, false,
  none, some, List, [], ◌∷◌, ◌++◌, leb, length, take, drop, replicate, length-append,
}
use mathlib.Core.List.{append_assoc, append-nil}
use native.Mathlib.Nat.{mul_comm, mul-add-div, div-eq_of_lt}
use openptt.Prelude.Bytes.{Bytes}
use openptt.Records.{read_at, write_at, shift_down, scan, check_at, delete_in}
use openptt.Records.Slices.{
  AllSize, flat, length-flat, flat-append, take-append, drop-append, drop-drop, some-read_at,
  read_rec-append,
}

read_at-mid :
    (size pos : ℕ) (pre z post : Bytes)
    → length pre ≡ pos
    → length z ≡ size
    → read_at size pos (pre ++ (z ++ post)) ≡ some z
read_at-mid size pos pre z post hp hz =
    some-read_at size pos (pre ++ (z ++ post))
      (omega (arith, length-append pre (z ++ post), length-append z post))
    ∙ rw (drop-append pos pre (z ++ post) hp, take-append size z post hz)

read_at-short : (size pos : ℕ) (b : Bytes) → length b < pos + size → read_at size pos b ≡ none
read_at-short size pos b h = let e : leb (pos + size) (length b) ≡ false = ground arith in rw e

write_at-mid :
    (pos : ℕ) (pre y z post : Bytes)
    → length pre ≡ pos
    → length y ≡ length z
    → write_at pos z (pre ++ (y ++ post)) ≡ pre ++ (z ++ post)
write_at-mid pos pre y z post hp hy =
    let zeros = replicate {A = ℕ} (pos - length (pre ++ (y ++ post))) 0 in
    let front : take pos ((pre ++ (y ++ post)) ++ zeros) ≡ pre =
      rw (append_assoc pre (y ++ post) zeros) (take-append pos pre _ hp) in
    let back : drop (pos + length z) (pre ++ (y ++ post)) ≡ post =
      sym (drop-drop (length z) pos (pre ++ (y ++ post)))
      ∙ rw (drop-append pos pre (y ++ post) hp) (drop-append (length z) y post hy) in
    rw (front, back)

AllSize-append :
    (size : ℕ) (xs ys : List Bytes) → AllSize size xs → AllSize size ys → AllSize size (xs ++ ys)
AllSize-append size [] ys hx hy = hy
AllSize-append size (x ∷ xs) ys hx hy = (hx.0, AllSize-append size xs ys hx.1 hy)

length-flat' :
    (size n : ℕ) (xs : List Bytes) → AllSize size xs → length xs ≡ n → length (flat xs) ≡ n * size
length-flat' size n xs s e = length-flat size xs s ∙ rw e (mul_comm size n)

module _ (writes : ℕ → Bool) (all_succeed : (k : ℕ) → writes k ≡ true) where
  shift_step :
      (left size src dst : ℕ) (b : Bytes) {r : Bytes}
      → read_at size (src * size) b ≡ some r
      → shift_down writes (suc left) size src dst b
        ≡ shift_down writes left size (src + 1) (dst + 1) (write_at (dst * size) r b)
  unfolding shift_down
  shift_step left size src dst b e = rw (e, shift_down, all_succeed dst)

  -- Moving the records `zs` down over `y` leaves them behind `xs`, and one record too many.
  shift_down-flat :
      (left size n : ℕ) (xs zs : List Bytes) (y tail : Bytes)
      → length zs ≤ left
      → length xs ≡ n
      → AllSize size xs
      → AllSize size zs
      → length y ≡ size
      → length tail < size
      → (y' : Bytes) × (length y' ≡ size)
        × (shift_down writes left size (n + 1) n (flat xs ++ (y ++ (flat zs ++ tail)))
            ≡ flat (xs ++ zs) ++ (y' ++ tail))
  unfolding shift_down
  shift_down-flat zero size n xs [] y tail l e sx sz hy ht = (y, hy, rw append-nil)
  shift_down-flat zero size n xs (z ∷ zs) y tail l e sx sz hy ht = elim l [ ]
  shift_down-flat (suc left) size n xs [] y tail l e sx sz hy ht = (
    y,
    hy,
    rw
        (
          read_at-short size ((n + 1) * size) (flat xs ++ (y ++ tail)) (
              grind (
                arith,
                length-append (flat xs) (y ++ tail),
                length-append y tail,
                length-flat' size n xs sx e,
              )),
          shift_down,
        )
        (rw append-nil),
  )
  shift_down-flat (suc left) size n xs (z ∷ zs) y tail l e sx sz hy ht =
      let more =
        shift_down-flat left size (n + 1) (xs ++ z ∷ []) zs z tail (omega arith)
          (omega (arith, length-append {0} xs (z ∷ [])))
          (AllSize-append size xs (z ∷ []) sx (sz.0, tt)) sz.1 sz.0 ht in
      let rest = flat zs ++ tail in
      let before : length (flat xs ++ y) ≡ (n + 1) * size =
        grind (arith, length-append (flat xs) y, length-flat' size n xs sx e) in
      let found : read_at size ((n + 1) * size) (flat xs ++ (y ++ (z ++ rest))) ≡ some z =
        rw (← append_assoc (flat xs) y (z ++ rest))
          (read_at-mid size ((n + 1) * size) (flat xs ++ y) z rest before sz.0) in
      let put : write_at (n * size) z (flat xs ++ (y ++ (z ++ rest)))
          ≡ flat (xs ++ z ∷ []) ++ (z ++ rest) =
        write_at-mid (n * size) (flat xs) y z (z ++ rest) (length-flat' size n xs sx e)
          (hy ∙ sym sz.0)
        ∙ simp (flat-append xs (z ∷ []), append_assoc, append-nil) in
      (
        more.0,
        more.1,
        ap (λ (t : Bytes). shift_down writes (suc left) size (n + 1) n (flat xs ++ (y ++ t)))
              (append_assoc z (flat zs) tail)
            ∙ shift_step left size (n + 1) n _ found
            ∙ ap (shift_down writes left size (n + 1 + 1) (n + 1)) put
            ∙ more.2
            ∙ ap (λ (t : List Bytes). flat t ++ (more.0 ++ tail)) (append_assoc xs (z ∷ []) zs),
      )

-- The bytes of a file that holds `y` between `xs` and `zs`.
around :
    (xs zs : List Bytes) (y tail : Bytes)
    → flat (xs ++ y ∷ zs) ++ tail ≡ flat xs ++ (y ++ (flat zs ++ tail))
around xs zs y tail = simp (flat-append xs (y ∷ zs), append_assoc)

module _ (size : ℕ) (rs : List Bytes) (tail : Bytes) (s : AllSize size rs)
    (t : length tail < size) where
  length-file : length (flat rs ++ tail) ≡ size * length rs + length tail
  length-file = omega (arith, length-append (flat rs) tail, length-flat size rs s)

  count-file : length (flat rs ++ tail) / size ≡ length rs
  count-file = rw length-file (
      mul-add-div {m = size} (omega arith) (length rs) (length tail)
      ∙ rw (div-eq_of_lt t) (omega arith))

AllSize-left : (size : ℕ) (xs ys : List Bytes) → AllSize size (xs ++ ys) → AllSize size xs
AllSize-left size [] ys s = tt
AllSize-left size (x ∷ xs) ys s = (s.0, AllSize-left size xs ys s.1)

AllSize-right : (size : ℕ) (xs ys : List Bytes) → AllSize size (xs ++ ys) → AllSize size ys
AllSize-right size [] ys s = s
AllSize-right size (x ∷ xs) ys s = AllSize-right size xs ys s.1

-- From record `n + 1` on everything moves down one place, and the file loses its last place.
shifted :
    (writes : ℕ → Bool) (all_succeed : (k : ℕ) → writes k ≡ true) (left size n : ℕ)
    (xs zs : List Bytes) (y tail : Bytes)
    → length zs ≤ left
    → length xs ≡ n
    → AllSize size (xs ++ y ∷ zs)
    → length tail < size
    → take
        (size * (length (flat (xs ++ y ∷ zs) ++ tail) / size - 1))
        (shift_down writes left size (n + 1) n (flat (xs ++ y ∷ zs) ++ tail))
      ≡ flat (xs ++ zs)
shifted writes all_succeed left size n xs zs y tail l e s t =
    let sx = AllSize-left size xs (y ∷ zs) s in
    let sz = AllSize-right size xs (y ∷ zs) s in
    let (y', hy, run) =
      shift_down-flat writes all_succeed left size n xs zs y tail l e sx sz.1 sz.0 t in
    let count : length (flat (xs ++ y ∷ zs) ++ tail) / size - 1 ≡ length (xs ++ zs) = omega (
      arith,
      count-file size (xs ++ y ∷ zs) tail s t,
      length-append {0} xs (y ∷ zs),
      length-append {0} xs zs,
    ) in
    rw count (
      rw (around xs zs y tail) (
        rw run (
          take-append (size * length (xs ++ zs)) (flat (xs ++ zs)) (y' ++ tail)
            (length-flat size (xs ++ zs) (AllSize-append size xs zs sx sz.1)))))

-- Where all writes succeed and the record with the given number passes the check, delete_file takes exactly that record
-- out of a file of whole records (a shorter rest goes with it).
pub delete_in-at :
    (writes : ℕ → Bool) (all_succeed : (k : ℕ) → writes k ≡ true) (size : ℕ) (check : Bytes → Bool)
    (xs zs : List Bytes) (y tail : Bytes)
    → AllSize size (xs ++ y ∷ zs)
    → length tail < size
    → check y ≡ true
    → delete_in writes size (length xs + 1) check (flat (xs ++ y ∷ zs) ++ tail)
      ≡ some (flat (xs ++ zs))
unfolding delete_in
delete_in-at writes all_succeed size check xs zs y tail s t ok =
    let b = flat (xs ++ y ∷ zs) ++ tail in
    let k : length xs + 1 - 1 ≡ length xs = omega arith in
    let sx = AllSize-left size xs (y ∷ zs) s in
    let sz = AllSize-right size xs (y ∷ zs) s in
    let found : read_at size (size * length xs) b ≡ some y = rw (around xs zs y tail) (
      read_at-mid size (size * length xs) (flat xs) y (flat zs ++ tail) (length-flat size xs sx)
        sz.0) in
    let checks : check_at size (size * length xs) check b ≡ true = rw (found, check_at) ok in
    let left : length zs ≤ length b / size - (length xs + 1) =
      omega (arith, count-file size (xs ++ y ∷ zs) tail s t, length-append {0} xs (y ∷ zs)) in
    rw (k, checks)
      (ap some (
        shifted writes all_succeed (length b / size - (length xs + 1)) size (length xs) xs zs y tail
          left refl s t))

le_product : (size k n : ℕ) → 0 < size → k < n → k < size * n
le_product size k n p h = grind arith

abbrev AllFail : (Bytes → Bool) → List Bytes → Type 0
AllFail check [] = Unit {0}
AllFail check (x ∷ xs) = (check x ≡ false) × AllFail check xs

scan-flat :
    (fuel size ent : ℕ) (check : Bytes → Bool) (xs : List Bytes) (y rest : Bytes)
    → length xs < fuel
    → AllSize size xs
    → length y ≡ size
    → AllFail check xs
    → check y ≡ true
    → scan fuel size ent check (flat xs ++ (y ++ rest)) ≡ some (ent + length xs)
unfolding scan
scan-flat zero size ent check xs y rest f sx hy fails ok = elim f [ ]
scan-flat (suc fuel) size ent check [] y rest f sx hy fails ok =
    let e : ent + 0 ≡ ent = omega arith in rw (read_rec-append size y rest hy, scan, ok) (rw e)
scan-flat (suc fuel) size ent check (x ∷ xs) y rest f sx hy fails ok =
    let e : ent + suc (length xs) ≡ ent + 1 + length xs = omega arith in
    rw
      (
        append_assoc x (flat xs) (y ++ rest),
        read_rec-append size x (flat xs ++ (y ++ rest)) sx.0,
        scan,
        fails.0,
        e,
      )
      (scan-flat fuel size (ent + 1) check xs y rest (omega arith) sx.1 hy fails.1 ok)

-- `y` and the records behind it, without the next one, or without `y` where it is the last.
abbrev pub without_next : Bytes → List Bytes → List Bytes
without_next y [] = []
without_next y (w ∷ ws) = y ∷ ws

-- What is left after the scan has found `y`.
next_goes :
    (writes : ℕ → Bool) (all_succeed : (k : ℕ) → writes k ≡ true) (size : ℕ) (xs : List Bytes)
    (y : Bytes) (zs : List Bytes) (tail : Bytes)
    → AllSize size (xs ++ y ∷ zs)
    → length tail < size
    → let b = flat (xs ++ y ∷ zs) ++ tail in
      take (size * (length b / size - 1)) (
        shift_down writes
          (length b / size - (1 + length xs))
          size
          (1 + length xs + 1)
          (1 + length xs)
          b)
      ≡ flat (xs ++ without_next y zs)
unfolding shift_down
next_goes writes all_succeed size xs y [] tail s t =
    let b = flat (xs ++ y ∷ []) ++ tail in
    let count : length b / size ≡ length xs + 1 =
      count-file size (xs ++ y ∷ []) tail s t ∙ length-append {0} xs (y ∷ []) in
    let left : length b / size - (1 + length xs) ≡ 0 = omega (arith, count) in
    let rest : length b / size - 1 ≡ length xs = omega (arith, count) in
    rw (left, rest, around xs [] y tail, append-nil)
      (take-append (size * length xs) (flat xs) (y ++ tail)
        (length-flat size xs (AllSize-left size xs (y ∷ []) s)))
next_goes writes all_succeed size xs y (w ∷ ws) tail s t =
    let rs = xs ++ y ∷ w ∷ ws in
    let b = flat rs ++ tail in
    let front = xs ++ y ∷ [] in
    let same : front ++ w ∷ ws ≡ rs = append_assoc xs (y ∷ []) (w ∷ ws) in
    let left : length ws ≤ length b / size - (1 + length xs) =
      omega (arith, count-file size rs tail s t, length-append {0} xs (y ∷ w ∷ ws)) in
    let done =
      shifted writes all_succeed (length b / size - (1 + length xs)) size (1 + length xs) front ws w
        tail left (omega (arith, length-append {0} xs (y ∷ []))) (rw same s) t in
    rw same at done ∙ ap flat (append_assoc xs (y ∷ []) ws)

-- Where all writes succeed and the record with the given number does not pass the check, or is not
-- there, the scan finds the first record that passes, `y`. If it is the last record it goes. If not,
-- `y` stays and the record behind it goes. A rest shorter than a record goes with it.
pub delete_in-scan :
    (writes : ℕ → Bool) (all_succeed : (k : ℕ) → writes k ≡ true) (size ent : ℕ)
    (check : Bytes → Bool) (xs : List Bytes) (y : Bytes) (zs : List Bytes) (tail : Bytes)
    → AllSize size (xs ++ y ∷ zs)
    → length tail < size
    → check_at size (size * (ent - 1)) check (flat (xs ++ y ∷ zs) ++ tail) ≡ false
    → AllFail check xs
    → check y ≡ true
    → delete_in writes size ent check (flat (xs ++ y ∷ zs) ++ tail)
      ≡ some (flat (xs ++ without_next y zs))
unfolding delete_in
delete_in-scan writes all_succeed size ent check xs y zs tail s t miss fails ok =
    let rs = xs ++ y ∷ zs in
    let b = flat rs ++ tail in
    let sx = AllSize-left size xs (y ∷ zs) s in
    let sz = AllSize-right size xs (y ∷ zs) s in
    let many : length rs ≡ length xs + (1 + length zs) =
      omega (arith, length-append {0} xs (y ∷ zs)) in
    let enough : length xs < suc (length b) =
      grind (arith, length-file size rs tail s t, many, le_product size (length xs) (length rs)) in
    let found : scan (suc (length b)) size 1 check b ≡ some (1 + length xs) =
      ap (scan (suc (length b)) size 1 check) (around xs zs y tail)
      ∙ scan-flat (suc (length b)) size 1 check xs y (flat zs ++ tail) enough sx sz.0 fails ok in
    rw (miss, found) (ap some (next_goes writes all_succeed size xs y zs tail s t))
