-- ===== src/Records/Access.antt =====
-- get_record, substitute_record and do_append of mbbsd/record.c.
use openptt.Prelude.{
  ℕ, zero, suc, ◌+◌, ◌*◌, ◌/◌, ◌<◌, ◌≤◌, ◌≡◌, ◌≢◌, ◌⊎◌, inl, inr, refl, ap, ◌∙◌, arith, true, false,
  none, some, List, ◌++◌, length, length-append,
}
use native.Mathlib.Numerals.{add-one}
use native.Mathlib.Decide.{dec_lt}
use native.Mathlib.Nat.{mul-div_cancel_left}
use openptt.Prelude.Bytes.{Bytes, str_eq, str_eq_refl}
use openptt.Records.{
  Fs, created, read_at, write_at, get_record, get_num_records, substitute_record, do_append, store,
}
use openptt.Records.Slices.{
  AllSize, flat, read_at-write_at, read_at-write_at_ne, some-read_at, read_at-some, length-flat,
  take_all, drop-append, slice-append,
}

slot_apart : (size j id : ℕ) → j < id → size * j + size ≤ size * id
slot_apart size j id h = grind arith

get_record-store :
    (p b : Bytes) (size id : ℕ) (fs : Fs)
    → get_record p size (suc id) (store p (some b) fs) ≡ read_at size (size * id) b
unfolding get_record store
get_record-store p b size id fs = rw (str_eq_refl p, get_record)

get_record-created :
    (p : Bytes) (size id : ℕ) (fs : Fs) {s : Bytes}
    → get_record p size (suc id) fs ≡ some s
    → read_at size (size * id) (created p fs) ≡ some s
unfolding get_record
get_record-created p size id fs h = ground arith

apart : (size j id : ℕ) → j ≢ id → (size * j + size ≤ size * id) ⊎ (size * id + size ≤ size * j)
apart size j id ne = elim (dec_lt j id) [
  | yes h ↦ inl (slot_apart size j id h)
  | no h ↦ inr (slot_apart size id j (omega arith))
]

-- Where the file opens, substitute_record puts the record in its place: get_record reads it back
-- under its number, and every other record of the file and every other file as before.
pub get_record-substitute_record :
    (p r : Bytes) (id : ℕ) (fs : Fs)
    → (get_record p (length r) (suc id) (substitute_record true p r (suc id) fs).1 ≡ some r)
      × ((j : ℕ) (s : Bytes)
          → j ≢ id
          → get_record p (length r) (suc j) fs ≡ some s
          → get_record p (length r) (suc j) (substitute_record true p r (suc id) fs).1 ≡ some s)
      × ((q : Bytes)
          → str_eq p q ≡ false
          → (substitute_record true p r (suc id) fs).1.files q ≡ fs.files q)
unfolding substitute_record
get_record-substitute_record p r id fs = (
  rw (get_record-store p (write_at (length r * id) r (created p fs)) (length r) id fs)
      (read_at-write_at (length r * id) r (created p fs)),
  λ j s ne h. rw (get_record-store p (write_at (length r * id) r (created p fs)) (length r) j fs) (
      read_at-write_at_ne (length r) (length r * id) (length r * j) r (created p fs)
        (apart (length r) j id ne) (get_record-created p (length r) j fs h)),
  λ q ne. rw (ne, store),
)

get_num_records-store :
    (p b : Bytes) (size : ℕ) (fs : Fs)
    → get_num_records p size (store p (some b) fs) ≡ length b / size
unfolding get_num_records store
get_num_records-store p b size fs = rw (str_eq_refl p, get_num_records)

div_lem : (n k : ℕ) → (n * k + n) ≡ n * (k + 1)
div_lem n k = grind arith

read_at-last :
    (n : ℕ) (b r : Bytes) (k : ℕ)
    → length b ≡ n * k
    → length r ≡ n
    → read_at n (n * k) (b ++ r) ≡ some r
read_at-last n b r k hb hr =
    some-read_at n (n * k) (b ++ r) (omega (arith, length-append b r))
    ∙ rw (drop-append (n * k) b r hb, take_all n r hr)

read_at-append :
    (n at : ℕ) (b r : Bytes) {s : Bytes} → read_at n at b ≡ some s → read_at n at (b ++ r) ≡ some s
read_at-append n at b r h =
    let (inside, e) = read_at-some n at b h in
    some-read_at n at (b ++ r) (omega (arith, length-append b r))
    ∙ ap some (slice-append n at b r inside ∙ e)

-- do_append to a file of whole records adds one record at the end: the count goes up by one, the
-- new record is read under the last number, and the others as before.
pub get_record-do_append :
    (p r : Bytes) (rs : List Bytes) (fs : Fs)
    → 0 < length r
    → AllSize (length r) rs
    → fs.files p ≡ some (flat rs)
    → (get_num_records p (length r) (do_append true p r fs).1 ≡ length rs + 1)
      × (get_record p (length r) (length rs + 1) (do_append true p r fs).1 ≡ some r)
      × ((j : ℕ) (s : Bytes)
          → get_record p (length r) j fs ≡ some s
          → get_record p (length r) j (do_append true p r fs).1 ≡ some s)
unfolding do_append
get_record-do_append p r rs fs positive sizes e =
    let n = length r in
    let found : created p fs ≡ flat rs = rw (e, created) in
    rw found (
      rw
          (
            get_num_records-store p (flat rs ++ r) n fs,
            length-append (flat rs) r,
            length-flat n rs sizes,
          )
          (rw (div_lem n (length rs)) (mul-div_cancel_left (length rs + 1) positive)),
      rw (add-one (length rs), get_record-store p (flat rs ++ r) n (length rs) fs)
          (read_at-last n (flat rs) r (length rs) (length-flat n rs sizes) refl),
      λ j s h. kept j s h,
    )
  where
    kept :
        (j : ℕ) (s : Bytes)
        → get_record p (length r) j fs ≡ some s
        → get_record p (length r) j (store p (some (flat rs ++ r)) fs) ≡ some s
    kept zero s h = let impossible : none ≡ some s = unfold get_record in h in cc
    kept (suc j) s h = rw (get_record-store p (flat rs ++ r) (length r) j fs) (
        read_at-append (length r) (length r * j) (flat rs) r
          (rw (e, created) at (get_record-created p (length r) j fs h)))
