-- ===== src/Reading/Keeps.antt =====
-- getkeep and fixkeep of mbbsd/read.c.
use openptt.Prelude.{
  ℕ, zero, suc, ◌-◌, ◌<◌, ◌≤◌, ◌≡◌, ◌⊎◌, refl, ap, sym, ◌∙◌, false, Option, none, some, List, [],
  ◌∷◌, arith, inl, inr, Bool-cases, Option-cases, ltb, leb, ◌==◌, if◌then◌else◌, get_or, set,
  length, get_or-set_at,
}
use openptt.Prelude.Bytes.{Bytes, str_eq, str_eq_iff, str_eq_refl}
use openptt.Reading.{Keep, no_keep, keep_loop, getkeep, fixkeep}

-- The entry of a key: the first in the list.
abbrev pub lookup : Bytes → List Keep → Option Keep
lookup s [] = none
lookup s (p ∷ ps) = if str_eq s p.key then some p else lookup s ps

keep_loop-lookup :
    (s : Bytes) (ps : List Keep) (i : ℕ)
    → keep_loop s ps ≡ some i
    → (lookup s ps ≡ some (get_or ps i no_keep)) × ((get_or ps i no_keep).key ≡ s) × (i < length ps)
unfolding keep_loop
keep_loop-lookup s [] i h = cc
keep_loop-lookup s (p ∷ ps) i h = elim (Bool-cases (str_eq s p.key)) [
  | inl e ↦
      let here : 0 ≡ i = ground arith in
      let named : p.key ≡ s = sym ((str_eq_iff s p.key).0 e) in
      rw (← here, e) (refl, named, omega arith)
  | inr e ↦ elim (Option-cases (keep_loop s ps)) [
    | inl missing ↦ absurd (ground arith)
    | inr (k, found) ↦
        let there : suc k ≡ i = ground arith in
        let (same, named, lt) = keep_loop-lookup s ps k found in
        rw (← there, e) (same, named, omega arith)
  ]
]

lookup-set :
    (s : Bytes) (ps : List Keep) (i : ℕ) (q : Keep)
    → q.key ≡ (get_or ps i no_keep).key
    → str_eq s q.key ≡ false
    → lookup s (set ps i q) ≡ lookup s ps
lookup-set s [] i q k ne = refl
lookup-set s (p ∷ ps) zero q k ne =
    let away : str_eq s p.key ≡ false = rw (← k) ne in rw (ne, away) refl
lookup-set s (p ∷ ps) (suc i) q k ne = rw (lookup-set s ps i q k ne) refl

keep_loop-set :
    (s : Bytes) (ps : List Keep) (i : ℕ) (q : Keep)
    → q.key ≡ (get_or ps i no_keep).key
    → keep_loop s (set ps i q) ≡ keep_loop s ps
unfolding keep_loop
keep_loop-set s [] i q k = refl
keep_loop-set s (p ∷ ps) zero q k = rw k refl
keep_loop-set s (p ∷ ps) (suc i) q k = elim (Bool-cases (str_eq s p.key)) [
  | inl e ↦ rw (keep_loop, e) refl
  | inr e ↦ rw (keep_loop, e) (rw (keep_loop-set s ps i q k) refl)
]

-- getkeep gives the entry of the key, with a cursor on a post, where the default is on one; it is the
-- entry found from then on, and the entries of other keys are as they were.
pub getkeep_lem :
    (s : Bytes) (top crs : ℕ) (keeps : List Keep)
    → 1 ≤ crs
    → let (i, ks) = getkeep s top false crs keeps in
      (keep_loop s ks ≡ some i)
      × (lookup s ks ≡ some (get_or ks i no_keep))
      × (1 ≤ (get_or ks i no_keep).crs_ln)
      × ((t : Bytes) → str_eq t s ≡ false → lookup t ks ≡ lookup t keeps)
unfolding getkeep
getkeep_lem s top crs keeps h = elim (Option-cases (keep_loop s keeps)) [
  | inl missing ↦
      let self = str_eq_refl s in
      rw (getkeep, missing) (rw (keep_loop, self) refl, rw self refl, h, λ t ne. rw ne refl)
  | inr (i, found) ↦
      let (same, named, lt) = keep_loop-lookup s keeps i found in
      let p = get_or keeps i no_keep in
      elim (Bool-cases (p.crs_ln == 0)) [
        | inl e ↦
            let q : Keep = record p { crs_ln = 1 } in
            let again = keep_loop-set s keeps i q refl ∙ found in
            let at = get_or-set_at keeps i q no_keep lt in
            rw (getkeep, found)
              (rw e (
                again,
                (keep_loop-lookup s (set keeps i q) i again).0,
                rw at (omega arith),
                λ t ne. lookup-set t keeps i q refl (rw named ne),
              ))
        | inr e ↦ rw (getkeep, found) (rw e (found, same, ground arith, λ t ne. refl))
      ]
]

-- After posts from the place `first` on have gone, fixkeep leaves the cursor of the list before that
-- place, or on the first post; other lists keep theirs.
pub fixkeep_lem :
    (s : Bytes) (first : ℕ) (keeps : List Keep)
    → 1 ≤ first
    → (k : Keep) × (lookup s (fixkeep s first keeps) ≡ some k)
      × (1 ≤ k.crs_ln)
      × ((k.crs_ln < first) ⊎ (k.crs_ln ≡ 1))
      × ((t : Bytes) → str_eq t s ≡ false → lookup t (fixkeep s first keeps) ≡ lookup t keeps)
unfolding fixkeep
fixkeep_lem s first keeps h =
    let i = (getkeep s 1 false 1 keeps).0 in
    let ks = (getkeep s 1 false 1 keeps).1 in
    let (again, found, on, others) = getkeep_lem s 1 1 keeps (omega arith) in
    let (same, named, lt) = keep_loop-lookup s ks i again in
    let k = get_or ks i no_keep in
    elim (Bool-cases (leb first k.crs_ln)) [
      | inl e ↦
          let q : Keep = record k {
            crs_ln = if first == 1 then 1 else first - 1;
            top_ln = if ltb first 11 then 1 else first - 10;
          } in
          let at = get_or-set_at ks i q no_keep lt in
          rw (fixkeep, e)
            (
              q,
              (keep_loop-lookup s (set ks i q) i (keep_loop-set s ks i q refl ∙ again)).0
                  ∙ ap some at,
              ground arith,
              before first h,
              λ t ne. lookup-set t ks i q refl (rw named ne) ∙ others t ne,
            )
      | inr e ↦ rw (fixkeep, e) (k, found, on, inl (ground arith), others)
    ]
  where
    before :
        (n : ℕ) → 1 ≤ n → ((if n == 1 then 1 else n - 1) < n) ⊎ ((if n == 1 then 1 else n - 1) ≡ 1)
    before n low = elim (Bool-cases (n == 1)) [
      | inl e ↦ rw e (inr refl)
      | inr e ↦ rw e (inl (ground arith))
    ]
