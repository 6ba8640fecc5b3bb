-- ===== src/Records/Delete.antt =====
-- delete_record of mbbsd/record.c: which records are left, and what a failure leaves.
use openptt.Prelude.{
  ℕ, zero, suc, ◌+◌, ◌<◌, ◌≡◌, ◌⊎◌, inl, inr, refl, ap, ◌∙◌, arith, Bool, true, false, Option, none,
  some, List, [], ◌∷◌, ◌++◌, if◌then◌else◌, ◌==◌, length, length-append, Bool-cases,
}
use mathlib.Core.List.{append_assoc, append-nil}
use openptt.Prelude.Bytes.{Bytes, str_eq, str_eq_refl}
use openptt.Records.{
  Fs, Code, succeeded, failed, Answers, created, store, new_fn, old_fn, lock_fn, Copy, copied,
  write_failed, endless, copy_others, swap_in, delete_record,
}
use openptt.Records.Slices.{AllSize, flat, read_rec-append, read_rec-short, length-flat}

-- The records but the one with number `id`, counted from `count`.
abbrev pub without : (id count : ℕ) → List Bytes → List Bytes
without id count [] = []
without id count (r ∷ rs) =
    if id == count then without id (count + 1) rs else r ∷ without id (count + 1) rs

copy_others-flat :
    (fuel size id count : ℕ) (ok : ℕ → Bool) (rs : List Bytes) (tail out : Bytes)
    → ((n : ℕ) → ok n ≡ true)
    → AllSize size rs
    → length tail < size
    → length rs < fuel
    → copy_others fuel size id count ok (flat rs ++ tail) out
      ≡ copied (out ++ flat (without id count rs))
unfolding copy_others
copy_others-flat zero size id count ok rs tail out w s t f = elim f [ ]
copy_others-flat (suc fuel) size id count ok [] tail out w s t f =
    rw (read_rec-short size tail t, copy_others) (rw append-nil)
copy_others-flat (suc fuel) size id count ok (r ∷ rs) tail out w s t f =
    rw (append_assoc r (flat rs) tail, read_rec-append size r (flat rs ++ tail) s.0, copy_others)
      (elim (Bool-cases (id == count)) [
        | inl e ↦
            rw (e, copy_others)
              (copy_others-flat fuel size id (count + 1) ok rs tail out w s.1 t (omega arith))
        | inr e ↦
            rw (e, w count, copy_others)
              (copy_others-flat fuel size id (count + 1) ok rs tail (out ++ r) w s.1 t (omega arith)
                ∙ ap copied (append_assoc out r _))
      ])

pub files-store_self : (p : Bytes) (v : Option Bytes) (fs : Fs) → (store p v fs).files p ≡ v
unfolding store
files-store_self p v fs = rw (str_eq_refl p)

pub files-store_ne :
    (p q : Bytes) (v : Option Bytes) (fs : Fs)
    → str_eq p q ≡ false
    → (store p v fs).files q ≡ fs.files q
unfolding store
files-store_ne p q v fs ne = rw ne

str_eq-append : (p x y : Bytes) → str_eq (p ++ x) (p ++ y) ≡ str_eq x y
unfolding str_eq
str_eq-append [] x y = refl
str_eq-append (c ∷ p) x y = ground (arith, str_eq-append p x y)

str_eq-longer : (p : Bytes) (c : ℕ) (x : Bytes) → str_eq (p ++ c ∷ x) p ≡ false
unfolding str_eq
str_eq-longer [] c x = refl
str_eq-longer (d ∷ p) c x = ground (arith, str_eq-longer p c x)

str_eq-shorter : (p : Bytes) (c : ℕ) (x : Bytes) → str_eq p (p ++ c ∷ x) ≡ false
unfolding str_eq
str_eq-shorter [] c x = refl
str_eq-shorter (d ∷ p) c x = ground (arith, str_eq-shorter p c x)

-- The names that one deletion uses are different files.
pub names_apart :
    (p : Bytes)
    → (str_eq (lock_fn p) p ≡ false)
      × (str_eq (lock_fn p) (new_fn p) ≡ false)
      × (str_eq (new_fn p) p ≡ false)
      × (str_eq (new_fn p) (old_fn p) ≡ false)
      × (str_eq (old_fn p) p ≡ false)
      × (str_eq p (old_fn p) ≡ false)
unfolding str_eq
names_apart p = (
  str_eq-longer p _ _,
  rw (str_eq-append p),
  str_eq-longer p _ _,
  rw (str_eq-append p),
  str_eq-longer p _ _,
  str_eq-shorter p _ _,
)

-- Every call succeeds.
pub record AllWell (a : Answers) : Type 0 where
  pub locks : a.lock_opens ≡ true
  pub opens : a.new_opens ≡ true
  pub writes : (n : ℕ) → a.writes n ≡ true
  pub renames_old : a.renames_old ≡ true
  pub renames_new : a.renames_new ≡ true

pub fits :
    (size : ℕ) (rs : List Bytes) (tail : Bytes)
    → AllSize size rs
    → length tail < size
    → length rs < suc (length (flat rs ++ tail))
fits size rs tail s t = grind (arith, length-append (flat rs) tail, length-flat size rs s)

abbrev pub locked : Bytes → Fs → Fs
locked p fs = store (lock_fn p) (some (created (lock_fn p) fs)) fs

module _ (p : Bytes) (fs : Fs) where
  pub locked_p : (locked p fs).files p ≡ fs.files p
  locked_p = files-store_ne (lock_fn p) p _ fs (names_apart p).0

  pub locked_new : (locked p fs).files (new_fn p) ≡ fs.files (new_fn p)
  locked_new = files-store_ne (lock_fn p) (new_fn p) _ fs (names_apart p).1

-- delete_record up to the renames, on a file of whole records with a short rest.
delete_record-run :
    (a : Answers) (p : Bytes) (size id : ℕ) (fs : Fs) (rs : List Bytes) (tail : Bytes)
    → AllWell a
    → AllSize size rs
    → length tail < size
    → fs.files p ≡ some (flat rs ++ tail)
    → fs.files (new_fn p) ≡ none
    → delete_record a p size id fs
      ≡ some (
          swap_in a p
            (flat rs ++ tail)
            (flat (without id 1 rs))
            (store (new_fn p) (some (flat (without id 1 rs))) (locked p fs)))
unfolding delete_record swap_in
delete_record-run a p size id fs rs tail well s t e fresh = rw (
  well.locks,
  locked_p p fs ∙ e,
  locked_new p fs ∙ fresh,
  well.opens,
  copy_others-flat (suc (length (flat rs ++ tail))) size id 1 a.writes rs tail [] well.writes s t
      (fits size rs tail s t),
  delete_record,
)

module _ (p : Bytes) (old new : Bytes) (fs : Fs) where
  -- The files after both renames.
  pub swapped : Fs
  swapped =
      store (new_fn p) none (store p (some new) (store p none (store (old_fn p) (some old) fs)))

  pub swap_in-lem : (a : Answers) → AllWell a → swap_in a p old new fs ≡ (succeeded, swapped)
  unfolding swap_in swapped
  swap_in-lem a well = rw (well.renames_old, well.renames_new)

  pub swapped_p : swapped.files p ≡ some new
  unfolding swapped
  swapped_p = files-store_ne (new_fn p) p none _ (names_apart p).2 ∙ files-store_self p (some new) _

  pub swapped_old : swapped.files (old_fn p) ≡ some old
  unfolding swapped
  swapped_old =
      files-store_ne (new_fn p) (old_fn p) none _ (names_apart p).3
      ∙ files-store_ne p (old_fn p) (some new) _ (names_apart p).5
      ∙ files-store_ne p (old_fn p) none _ (names_apart p).5
      ∙ files-store_self (old_fn p) (some old) fs

  pub swapped_new : swapped.files (new_fn p) ≡ none
  unfolding swapped
  swapped_new = files-store_self (new_fn p) none _

-- Where every call succeeds and no new file is left over, delete_record ends with success, takes
-- exactly the record with number `id` out of the file, drops a rest that is shorter than a record,
-- keeps the old bytes in the old file, and leaves no new file.
pub delete_record_lem :
    (a : Answers) (p : Bytes) (size id : ℕ) (fs : Fs) (rs : List Bytes) (tail : Bytes)
    → AllWell a
    → AllSize size rs
    → length tail < size
    → fs.files p ≡ some (flat rs ++ tail)
    → fs.files (new_fn p) ≡ none
    → (fs' : Fs) × (delete_record a p size id fs ≡ some (succeeded, fs'))
      × (fs'.files p ≡ some (flat (without id 1 rs)))
      × (fs'.files (old_fn p) ≡ some (flat rs ++ tail))
      × (fs'.files (new_fn p) ≡ none)
delete_record_lem a p size id fs rs tail well s t e fresh =
    let old = flat rs ++ tail in
    let new = flat (without id 1 rs) in
    let ready = store (new_fn p) (some new) (locked p fs) in
    (
      swapped p old new ready,
      delete_record-run a p size id fs rs tail well s t e fresh
          ∙ ap some (swap_in-lem p old new ready a well),
      swapped_p p old new ready,
      swapped_old p old new ready,
      swapped_new p old new ready,
    )

-- A failing swap leaves the bytes at the path or moves them to the old file.
swap_in-failed :
    (a : Answers) (p old new : Bytes) (fs fs' : Fs)
    → swap_in a p old new fs ≡ (failed, fs')
    → (fs'.files p ≡ fs.files p) ⊎ (fs'.files (old_fn p) ≡ some old)
unfolding swap_in
swap_in-failed a p old new fs fs' h = ground (
  arith,
  files-store_ne p (old_fn p) none (store (old_fn p) (some old) fs) (names_apart p).5,
  files-store_self (old_fn p) (some old) fs,
)

-- Whatever the system answers, a delete_record that fails loses no byte: the file is as before,
-- or its bytes are in the old file.
pub delete_record-failed :
    (a : Answers) (p : Bytes) (size id : ℕ) (fs fs' : Fs) (b : Bytes)
    → fs.files p ≡ some b
    → delete_record a p size id fs ≡ some (failed, fs')
    → (fs'.files p ≡ some b) ⊎ (fs'.files (old_fn p) ≡ some b)
unfolding delete_record
delete_record-failed a p size id fs fs' b e h = ground (
  arith,
  locked_p p fs,
  locked_new p fs,
  ending (copy_others (suc (length b)) size id 1 a.writes b []),
)
  where
    kept : (v : Option Bytes) → (store (new_fn p) v (locked p fs)).files p ≡ some b
    kept v = files-store_ne (new_fn p) p v (locked p fs) (names_apart p).2 ∙ locked_p p fs ∙ e

    ending :
        (c : Copy)
        → (elim c as (λ _. Option (Code × Fs)) [
          | copied out ↦ some (swap_in a p b out (store (new_fn p) (some out) (locked p fs)))
          | write_failed ↦ some (failed, store (new_fn p) none (locked p fs))
          | endless ↦ none
        ])
          ≡ some (failed, fs')
        → (fs'.files p ≡ some b) ⊎ (fs'.files (old_fn p) ≡ some b)
    ending (copied out) r = ground (
      arith,
      swap_in-failed a p b out (store (new_fn p) (some out) (locked p fs)) fs' (cc),
      kept (some out),
    )
    ending write_failed r = ground (arith, kept none)
    ending endless r = cc
