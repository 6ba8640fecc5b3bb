-- ===== src/Users/Cleaned.antt =====
-- What the cleaning of getnewuserid in mbbsd/register.c does to the accounts.
use openptt.Prelude.{
  ℕ, zero, suc, ◌+◌, ◌-◌, ◌<◌, ◌≤◌, true, false, some, ◌≡◌, refl, arith, ◌==◌, [], inl, inr,
  Bool-cases, ◌∙◌, ltb,
}
use mathlib.Core.Path.{subst}
use openptt.Users.{Uhash, update, add_to_uhash, remove_from_uhash}
use openptt.Users.Invariant.{IsSound}
use openptt.Users.Register.{rename}
use openptt.Users.Clean.{
  User, Accounts, zerorec, is_kept, is_dated, compute_user_value, clean_user, clean_loop,
}

-- The hash is sound, and the password file has no user behind its last.
pub record IsConsistent (a : Accounts) : Type 0 where
  pub sound : IsSound a.uhash
  pub behind : (k : ℕ) → a.uhash.number ≤ k → (a.passwd k).userid ≡ []

kept-is_dated :
    (u : User) (clock : ℕ) → is_kept u ≡ true → is_dated (compute_user_value u clock) ≡ false
unfolding compute_user_value
kept-is_dated u clock h = rw (compute_user_value, h) refl

empty-is_kept : (u : User) → u.userid ≡ [] → is_kept u ≡ true
unfolding is_kept
empty-is_kept u h = rw h refl

-- Only users below the last are taken back.
dated_inside :
    (clock k : ℕ) (a : Accounts)
    → IsConsistent a
    → is_dated (compute_user_value (a.passwd k) clock) ≡ true
    → k < a.uhash.number
dated_inside clock k a h e = elim (Bool-cases (ltb k a.uhash.number)) [
  | inl f ↦ ground arith
  | inr f ↦ absurd (
      ground (
        arith,
        e,
        kept-is_dated (a.passwd k) clock (empty-is_kept (a.passwd k) (h.behind k (ground arith))),
      ))
]

eq_self : (k : ℕ) → (k == k) ≡ true
eq_self k = ground arith

pub Keeps : Accounts → Accounts → ℕ → ℕ → Type 0
Keeps a a' clock j =
    is_dated (compute_user_value (a.passwd j) clock) ≡ false
    → (a'.passwd j ≡ a.passwd j) × (a'.uhash.userid j ≡ a.uhash.userid j)

pub IsFreed : Accounts → Accounts → ℕ → ℕ → Type 0
IsFreed a a' clock j =
    is_dated (compute_user_value (a.passwd j) clock) ≡ true
    → (a'.passwd j ≡ zerorec) × (a'.uhash.userid j ≡ [])

module _ (clock k : ℕ) (a : Accounts) (u' : Uhash) (h : IsConsistent a)
    (e : is_dated (compute_user_value (a.passwd k) clock) ≡ true) (sound : IsSound u')
    (names : u'.userid ≡ update a.uhash.userid k []) (count : u'.number ≡ a.uhash.number) where
  abbrev freed : Accounts
  freed = record { passwd = update a.passwd k zerorec; uhash = u' }

  freed_behind : (j : ℕ) → u'.number ≤ j → (update a.passwd k zerorec j).userid ≡ []
  freed_behind j le = elim (Bool-cases (k == j)) [
    | inl f ↦ rw f refl
    | inr f ↦ rw f (h.behind j (rw count at le))
  ]

  freed_keeps : (j : ℕ) → Keeps a freed clock j
  unfolding Keeps
  freed_keeps j kept = elim (Bool-cases (k == j)) [
    | inl f ↦
        let same : j ≡ k = ground arith in
        absurd (
          ground (
            arith,
            e,
            subst (λ n. is_dated (compute_user_value (a.passwd n) clock) ≡ false) same kept,
          ))
    | inr f ↦ (rw f refl, rw names (rw f refl))
  ]

  freed_undated : is_dated (compute_user_value (update a.passwd k zerorec k) clock) ≡ false
  freed_undated =
      kept-is_dated (update a.passwd k zerorec k) clock
        (empty-is_kept (update a.passwd k zerorec k) (rw (eq_self k) refl))

  freed_others : (j : ℕ) → (k == j) ≡ false → update a.passwd k zerorec j ≡ a.passwd j
  freed_others j f = rw f refl

  freed_gone : (update a.passwd k zerorec k ≡ zerorec) × (u'.userid k ≡ [])
  freed_gone = (rw (eq_self k) refl, rw names (rw (eq_self k) refl))

step_back : (k : ℕ) → k + 1 - 1 ≡ k
step_back k = omega arith

free_slot :
    (k : ℕ) (u : Uhash)
    → k < u.number
    → IsSound u
    → (v : Uhash) × (remove_from_uhash k u ≡ some v)
      × (u' : Uhash) × (add_to_uhash k [] v ≡ some u')
      × IsSound u'
      × (u'.userid ≡ update u.userid k [])
      × (u'.number ≡ u.number)
free_slot k u inside s =
    rw (step_back k) at
      (rename (k + 1) [] u (omega arith) (omega (arith, s.bounded)) s (omega arith))

clean_user-IsConsistent :
    (clock k : ℕ) (a : Accounts)
    → IsConsistent a
    → (a' : Accounts) × (clean_user clock k a ≡ some a')
      × IsConsistent a'
      × (a'.uhash.number ≡ a.uhash.number)
      × ((j : ℕ) → Keeps a a' clock j)
      × (is_dated (compute_user_value (a'.passwd k) clock) ≡ false)
      × ((j : ℕ) → (k == j) ≡ false → a'.passwd j ≡ a.passwd j)
      × IsFreed a a' clock k
unfolding clean_user Keeps IsFreed
clean_user-IsConsistent clock k a h =
    elim (Bool-cases (is_dated (compute_user_value (a.passwd k) clock))) [
      | inl e ↦
          let (v, removed, u', added, sound, names, count) =
            free_slot k a.uhash (dated_inside clock k a h e) h.sound in
          (
            freed clock k a u' h e sound names count,
            rw e (rw removed (rw added refl)),
            record { sound = sound; behind = freed_behind clock k a u' h e sound names count },
            count,
            freed_keeps clock k a u' h e sound names count,
            freed_undated clock k a u' h e sound names count,
            freed_others clock k a u' h e sound names count,
            λ dated. freed_gone clock k a u' h e sound names count,
          )
      | inr e ↦ (
        a,
        rw (clean_user, e) refl,
        h,
        refl,
        λ j kept. (refl, refl),
        e,
        λ j f. refl,
        λ dated. absurd (ground (arith, e, dated)),
      )
    ]

-- What the loop has done to the slots from `k` up to `top`.
pub record IsCleaned (clock k top : ℕ) (a a' : Accounts) : Type 0 where
  pub consistent : IsConsistent a'
  pub number : a'.uhash.number ≡ a.uhash.number
  pub keeps : (j : ℕ) → Keeps a a' clock j
  pub freed : (j : ℕ) → k ≤ j → j < top → IsFreed a a' clock j
  pub cleared :
      (j : ℕ) → k ≤ j → j < top → is_dated (compute_user_value (a'.passwd j) clock) ≡ false

Keeps-trans :
    (clock j : ℕ) (a b c : Accounts) → Keeps a b clock j → Keeps b c clock j → Keeps a c clock j
unfolding Keeps
Keeps-trans clock j a b c p q kept =
    let (same, name) = p kept in
    let (same', name') = q (rw same kept) in (same' ∙ same, name' ∙ name)

Keeps-undated :
    (clock j : ℕ) (a b : Accounts)
    → Keeps a b clock j
    → is_dated (compute_user_value (a.passwd j) clock) ≡ false
    → is_dated (compute_user_value (b.passwd j) clock) ≡ false
unfolding Keeps
Keeps-undated clock j a b p kept = let (same, name) = p kept in rw same kept

-- What is free stays free.
IsFreed-Keeps :
    (clock j : ℕ) (a b c : Accounts)
    → is_dated (compute_user_value (b.passwd j) clock) ≡ false
    → IsFreed a b clock j
    → Keeps b c clock j
    → IsFreed a c clock j
unfolding Keeps IsFreed
IsFreed-Keeps clock j a b c undated p q dated =
    let (record_b, name_b) = p dated in
    let (record_c, name_c) = q undated in (record_c ∙ record_b, name_c ∙ name_b)

IsFreed-others :
    (clock j : ℕ) (a b c : Accounts)
    → b.passwd j ≡ a.passwd j
    → IsFreed b c clock j
    → IsFreed a c clock j
unfolding IsFreed
IsFreed-others clock j a b c same p dated = p (rw same dated)

-- On a sound hash and a password file without users behind the last one, the loop that takes
-- accounts back ends. The hash stays sound and of the same size. Each slot visited whose value is
-- below zero, but not by a year, has the empty record and the empty name afterwards; all accounts
-- with other values keep their record and name. No slot visited is to be taken back again.
pub clean_loop-IsCleaned :
    (count clock k : ℕ) (a : Accounts)
    → IsConsistent a
    → (a' : Accounts) × (clean_loop count clock k a ≡ some a') × IsCleaned clock k (k + count) a a'
unfolding clean_loop Keeps IsFreed
clean_loop-IsCleaned zero clock k a h = (
  a,
  refl,
  record {
    consistent = h;
    number = refl;
    keeps = λ j kept. (refl, refl);
    freed = λ j le lt. absurd (omega arith);
    cleared = λ j le lt. absurd (omega arith);
  },
)
clean_loop-IsCleaned (suc count) clock k a h =
    let (b, step, held, same, keeps, undated, others, gone) = clean_user-IsConsistent clock k a h in
    let (c, run, s) = clean_loop-IsCleaned count clock (k + 1) b held in
    (
      c,
      rw (clean_loop, step) run,
      record {
        consistent = s.consistent;
        number = s.number ∙ same;
        keeps = λ j. Keeps-trans clock j a b c (keeps j) (s.keeps j);
        freed = λ j le lt. elim (Bool-cases (k == j)) [
          | inl e ↦
              subst (λ n. IsFreed a c clock n) (ground arith)
                (IsFreed-Keeps clock k a b c undated gone (s.keeps k))
          | inr e ↦
              IsFreed-others clock j a b c (others j e) (s.freed j (ground arith) (omega arith))
        ];
        cleared = λ j le lt. elim (Bool-cases (k == j)) [
          | inl e ↦ Keeps-undated clock j b c (s.keeps j) (
              subst (λ n. is_dated (compute_user_value (b.passwd n) clock) ≡ false) (ground arith)
                undated)
          | inr e ↦ s.cleared j (ground arith) (omega arith)
        ];
      },
    )
