-- ===== src/Users/NewUser.antt =====
-- searchnewuser of mbbsd/cache.c, and registration as a whole.
use openptt.Prelude.{
  ltb, ℕ, zero, suc, ◌+◌, ◌-◌, ◌<◌, ◌≤◌, Bool, true, false, none, some, ◌≡◌, refl, arith, ◌==◌, [],
  ◌∷◌, inl, inr, Bool-cases, ◌≢◌, ==_iff, ◌⊎◌,
}
use openptt.Prelude.Bytes.{Bytes, str_case_eq, str_case_eq_iff}
use openptt.Users.{Uhash, searchuser, searchnewuser, free_slot, is_empty, max_users, setuserid}
use openptt.Users.Register.{setuserid-IsSound}
use native.Mathlib.Numerals.{sub-one}
use openptt.Users.Invariant.{IsSound}
use openptt.Users.Search.{searchuser_number}

free_slot_lem :
    (left i : ℕ) (u : Uhash)
    → ((n : ℕ) × (free_slot left i u ≡ some (suc n))
        × (n < i + left)
        × (is_empty (u.userid n) ≡ true))
      ⊎ ((free_slot left i u ≡ none)
          × ((k : ℕ) → i ≤ k → k < i + left → is_empty (u.userid k) ≡ false))
unfolding free_slot
free_slot_lem zero i u = inr (refl, λ k a b. absurd (omega arith))
free_slot_lem (suc left) i u = elim (Bool-cases (is_empty (u.userid i))) [
  | inl e ↦ inl (i, rw (e, free_slot) (ground arith), omega arith, e)
  | inr e ↦ elim (free_slot_lem left (i + 1) u) [
    | inl (n, run, lt, f) ↦ inl (n, rw (e, free_slot) run, omega arith, f)
    | inr (run, all) ↦ inr (
      rw (e, free_slot) run,
      λ k a b. elim (Bool-cases (i == k)) [
        | inl f ↦ rw (← (==_iff i k).0 f) e
        | inr f ↦ all k (ground arith) (omega arith)
      ],
    )
  ]
]

is_empty→nil : (s : Bytes) → is_empty s ≡ true → s ≡ []
is_empty→nil [] h = refl
is_empty→nil (c ∷ s) h = cc

nonempty→ne : (s : Bytes) → is_empty s ≡ false → s ≢ []
nonempty→ne [] h e = cc
nonempty→ne (c ∷ s) h e = cc

searchnewuser_number :
    (mode : Bool) (u : Uhash)
    → IsSound u
    → (searchnewuser mode u ≤ max_users)
      × (searchnewuser mode u ≤ u.number + 1)
      × (0 < searchnewuser mode u
          → searchnewuser mode u ≤ u.number
          → u.userid (searchnewuser mode u - 1) ≡ [])
      × (mode ≡ true
          → searchnewuser mode u ≡ 0
          → (u.number ≡ max_users) × ((k : ℕ) → k < u.number → u.userid k ≢ []))
unfolding searchnewuser
searchnewuser_number mode u s = elim (free_slot_lem u.number 0 u) [
  | inl (n, run, lt, e) ↦
      rw (run, searchnewuser)
        (
          omega (arith, s.bounded),
          omega arith,
          λ p q. rw sub-one (is_empty→nil (u.userid n) e),
          λ m z. absurd (omega arith),
        )
  | inr (run, all) ↦
      rw (run, searchnewuser)
        (
          ground (arith, s.bounded),
          ground arith,
          λ p q. absurd (ground arith),
          λ m z. (
            ground (arith, s.bounded),
            λ k lt. nonempty→ne (u.userid k) (all k (omega arith) (omega arith)),
          ),
        )
]

-- Every user has a name.
abbrev pub IsFull : Uhash → Type 0
IsFull u = (k : ℕ) → k < u.number → u.userid k ≢ []

-- searchnewuser gives the number of a user without a name; if there is none and `mode` asks for it,
-- the next number, as long as there are fewer than MAX_USERS; and else 0.
pub searchnewuser_lem :
    (mode : Bool) (u : Uhash)
    → IsSound u
    → ((searchnewuser mode u ≡ 0) × ((mode ≡ false) ⊎ (u.number ≡ max_users)) × IsFull u)
      ⊎ ((n : ℕ) × (searchnewuser mode u ≡ suc n)
          × (n < max_users)
          × (((n < u.number) × (u.userid n ≡ [])) ⊎ ((n ≡ u.number) × (mode ≡ true) × IsFull u)))
unfolding searchnewuser
searchnewuser_lem mode u s = elim (free_slot_lem u.number 0 u) [
  | inl (n, run, lt, e) ↦ inr (
    n,
    rw (run, searchnewuser) refl,
    omega (arith, s.bounded),
    inl (omega arith, is_empty→nil (u.userid n) e),
  )
  | inr (run, all) ↦
      let full : IsFull u = λ k lt. nonempty→ne (u.userid k) (all k (omega arith) (omega arith)) in
      elim (Bool-cases mode) [
        | inl m ↦ elim (Bool-cases (ltb u.number max_users)) [
          | inl room ↦
              inr (
                u.number,
                rw (run, searchnewuser) (ground arith),
                ground arith,
                inr (refl, m, full),
              )
          | inr room ↦
              inl (rw (run, searchnewuser) (ground arith), inr (ground (arith, s.bounded)), full)
        ]
        | inr m ↦ inl (rw (run, searchnewuser) (ground arith), inl m, full)
      ]
]

str_case_eq_refl : (s : Bytes) → str_case_eq s s ≡ true
str_case_eq_refl s = (str_case_eq_iff s s).1 refl

found_number :
    (id : Bytes) (u : Uhash) (j : ℕ)
    → IsSound u
    → j < u.number
    → str_case_eq (u.userid j) id ≡ true
    → (k : ℕ) × (searchuser id u ≡ some (suc k)) × (str_case_eq (u.userid k) id ≡ true)
found_number id u j s lt same = by_number (searchuser_number id u s)
  where
    by_number :
        ((n : ℕ) × (searchuser id u ≡ some n)
          × (n ≡ 0 → (k : ℕ) → k < u.number → str_case_eq (u.userid k) id ≡ false)
          × ((k : ℕ) → n ≡ suc k → (k < u.number) × (str_case_eq (u.userid k) id ≡ true)))
        → (k : ℕ) × (searchuser id u ≡ some (suc k)) × (str_case_eq (u.userid k) id ≡ true)
    by_number (zero, run, miss, hit) = cc (miss refl j lt)
    by_number (suc k, run, miss, hit) = (k, run, (hit k refl).1)

-- Registration: where searchnewuser gives a number, setuserid under it keeps the hash sound, and
-- searchuser then finds the new name.
pub register_lem :
    (mode : Bool) (id : Bytes) (u : Uhash)
    → IsSound u
    → 0 < searchnewuser mode u
    → (u' : Uhash) × (setuserid (searchnewuser mode u) id u ≡ some u')
      × IsSound u'
      × ((k : ℕ) × (searchuser id u' ≡ some (suc k)) × (str_case_eq (u'.userid k) id ≡ true))
register_lem mode id u s positive =
    let num = searchnewuser mode u in
    let (fits, next, _, _) = searchnewuser_number mode u s in
    let (u', run, sound, names, count) = setuserid-IsSound num id u positive fits next s in
    let same : str_case_eq (u'.userid (num - 1)) id ≡ true =
      rw names (ground (arith, str_case_eq_refl id)) in
    (u', run, sound, found_number id u' (num - 1) sound (omega arith) same)
