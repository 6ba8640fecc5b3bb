-- ===== src/Users/Load.antt =====
-- util/uhash_loader.c, which fills the user hash from the password file before the server runs.
use openptt.Prelude.{
  ℕ, zero, suc, ◌+◌, ◌<◌, ◌≤◌, true, false, Option, none, some, ◌≡◌, refl, ap, arith, ◌==◌, List,
  [], ◌∷◌, inl, inr, Bool-cases, ◌⊎◌, ◌∙◌, length, take, take_short, get_or,
}
use mathlib.Core.Path.{subst}
use openptt.Prelude.Bytes.{Bytes, str_case_eq}
use openptt.Users.{
  Uhash, read, head_cell, max_users, string_hash, update, add_to_uhash, setuserid, searchuser,
}
use openptt.Users.Cells.{elem}
use openptt.Users.Chains.{Linked}
use openptt.Users.Invariant.{Holds, IsSound, Linked-same, reads_same, appended, add_to_uhash-Holds}
use openptt.Users.Register.{elem-appended, setuserid-IsSound}
use openptt.Users.Search.{IsUnknown, searchuser_lem}

-- The loop of fill_uhash; `ids` are the names in the records of the password file.
unfoldable pub fill_loop : (ids : List Bytes) → (usernumber : ℕ) → Uhash → Option Uhash
fill_loop [] usernumber u = some u
fill_loop (id ∷ ids) usernumber u = elim (add_to_uhash usernumber id u) [
  | none ↦ none
  | some u' ↦ fill_loop ids (usernumber + 1) u'
]

-- fill_uhash, where the password file can be read.
unfoldable pub fill_uhash : (ids : List Bytes) → Uhash → Option Uhash
unfolding fill_loop
fill_uhash ids u =
    let ids = take max_users ids in
    elim (fill_loop ids 0 (record u { hash_head = λ h. none })) [
      | none ↦ none
      | some u' ↦ some (record u' { number = length ids })
    ]

-- The hash when the slots below `n` are in it.
record Filled (n : ℕ) (u : Uhash) : Type 0 where
  pub chains : ℕ → List ℕ
  pub holds : Holds u chains
  pub used : (h k : ℕ) → elem k (chains h) ≡ true → k < n
  pub present : (k : ℕ) → k < n → elem k (chains (string_hash (u.userid k))) ≡ true

add_to_uhash-Filled :
    (n : ℕ) (id : Bytes) (u : Uhash)
    → n < max_users
    → Filled n u
    → (u' : Uhash) × (add_to_uhash n id u ≡ some u')
      × Filled (n + 1) u'
      × (u'.userid ≡ update u.userid n id)
add_to_uhash-Filled n id u small f =
    let fresh : (h : ℕ) → elem n (f.chains h) ≡ false = λ h.
      elim (Bool-cases (elem n (f.chains h))) [
        | inl e ↦ absurd (omega (arith, f.used h n e))
        | inr e ↦ e
      ] in
    let (u', e, holds, names, count) = add_to_uhash-Holds n id u f.chains small fresh f.holds in
    let b = string_hash id in
    (
      u',
      e,
      record {
        chains = appended b n f.chains;
        holds = holds;
        used = λ h k m. ground (arith, elem-appended b n k f.chains h, f.used h k);
        present = λ k lt. rw names (elim (Bool-cases (n == k)) [
          | inl q ↦ rw q (rw (elem-appended b n k f.chains b) (ground arith))
          | inr q ↦ rw q (
              rw (elem-appended b n k f.chains (string_hash (u.userid k)))
                (rw (f.present k (ground arith)) refl))
        ]);
      },
      names,
    )

-- A name that has been put in stays.
fill_loop-Filled :
    (ids : List Bytes) (n : ℕ) (u : Uhash)
    → n + length ids ≤ max_users
    → Filled n u
    → (u' : Uhash) × (fill_loop ids n u ≡ some u')
      × Filled (n + length ids) u'
      × ((k : ℕ) → k < n → u'.userid k ≡ u.userid k)
      × ((k : ℕ) → k < length ids → u'.userid (n + k) ≡ get_or ids k [])
unfolding fill_loop
fill_loop-Filled [] n u fits f =
    (u, refl, subst (λ m. Filled m u) (omega arith) f, λ k lt. refl, λ k lt. absurd (omega arith))
fill_loop-Filled (id ∷ ids) n u fits f =
    let (v, e, g, names) = add_to_uhash-Filled n id u (omega arith) f in
    let (u', run, done, old, new) = fill_loop-Filled ids (n + 1) v (omega arith) g in
    (
      u',
      rw (fill_loop, e) run,
      subst (λ m. Filled m u') (omega arith) done,
      λ k lt.
          let other : (n == k) ≡ false = ground arith in
          old k (omega arith) ∙ ap (λ (g : ℕ → Bytes). g k) names ∙ rw other refl,
      named n id ids u'
          (let self : (n == n) ≡ true = ground arith in
            old n (omega arith) ∙ ap (λ (g : ℕ → Bytes). g n) names ∙ rw self refl)
          new,
    )
  where
    named :
        (n : ℕ) (id : Bytes) (ids : List Bytes) (u' : Uhash)
        → u'.userid n ≡ id
        → ((k : ℕ) → k < length ids → u'.userid (n + 1 + k) ≡ get_or ids k [])
        → (k : ℕ) → k < length (id ∷ ids)
        → u'.userid (n + k) ≡ get_or (id ∷ ids) k []
    named n id ids u' here rest zero lt = ap u'.userid (omega arith) ∙ here
    named n id ids u' here rest (suc k) lt = ap u'.userid (omega arith) ∙ rest k (omega arith)

empty_chain : (v : Uhash) (h : ℕ) → v.hash_head h ≡ none → Linked v (head_cell h) []
unfolding read
empty_chain v h e = e

empty-Filled : (v : Uhash) → ((h : ℕ) → v.hash_head h ≡ none) → Filled 0 v
empty-Filled v e = record {
  chains = λ h. [];
  holds = record {
    linked = λ h. empty_chain v h (e h);
    nodup = λ h. tt;
    hashed = λ h k m. cc;
    small = λ h k m. cc;
  };
  used = λ h k m. cc;
  present = λ k lt. absurd (omega arith);
}

Filled-IsSound :
    (n : ℕ) (u : Uhash) → n ≤ max_users → Filled n u → IsSound (record u { number = n })
Filled-IsSound n u fits f = record {
  chains = f.chains;
  holds = record {
    linked = λ h.
        Linked-same u _ (head_cell h) (f.chains h) (reads_same u u.userid n) (f.holds.linked h);
    nodup = f.holds.nodup;
    hashed = f.holds.hashed;
    small = f.holds.small;
  };
  bounded = fits;
  used = f.used;
  present = f.present;
}

fill_uhash-fill_loop :
    (ids : List Bytes) (u u' : Uhash)
    → length ids ≤ max_users
    → fill_loop ids 0 (record u { hash_head = λ h. none }) ≡ some u'
    → fill_uhash ids u ≡ some (record u' { number = length ids })
unfolding fill_uhash
fill_uhash-fill_loop ids u u' fits run =
    let all = take_short max_users ids fits in
    rw (fill_uhash, all)
      (rw run (ap (λ (is : List Bytes). some (record u' { number = length is })) all))

-- The loader leaves a sound hash, of the names in the password file in their order, as long as there are
-- no more than the hash has slots for, whatever was in the shared memory before.
pub fill_uhash-IsSound :
    (ids : List Bytes) (u : Uhash)
    → length ids ≤ max_users
    → (u' : Uhash) × (fill_uhash ids u ≡ some u')
      × IsSound u'
      × (u'.number ≡ length ids)
      × ((k : ℕ) → k < length ids → u'.userid k ≡ get_or ids k [])
fill_uhash-IsSound ids u fits =
    let v : Uhash = record u { hash_head = λ h. none } in
    let (u', run, done, old, new) =
      fill_loop-Filled ids 0 v (omega arith) (empty-Filled v (λ h. refl)) in
    (
      record u' { number = length ids },
      fill_uhash-fill_loop ids u u' fits run,
      Filled-IsSound (length ids) u' fits (subst (λ m. Filled m u') (omega arith) done),
      refl,
      λ k lt. ap u'.userid (omega arith) ∙ new k lt,
    )

-- The hashes that the server may come to: what the loader leaves, and what setuserid makes of one, for a
-- user or for the one behind the last.
pub data Reachable : Uhash → Type 0 where
  loaded :
      (ids : List Bytes) (u u' : Uhash)
      → length ids ≤ max_users
      → fill_uhash ids u ≡ some u'
      → Reachable u'
  named :
      (num : ℕ) (id : Bytes) (u u' : Uhash)
      → Reachable u
      → 0 < num
      → num ≤ max_users
      → num ≤ u.number + 1
      → setuserid num id u ≡ some u'
      → Reachable u'

-- On every hash that the server comes to, searchuser ends: with 0 where no user has the name, in upper or
-- lower case, and else with the number of one that has it.
pub searchuser-Reachable :
    (id : Bytes) (u : Uhash)
    → Reachable u
    → ((searchuser id u ≡ some 0) × IsUnknown id u)
      ⊎ ((k : ℕ) × (searchuser id u ≡ some (suc k))
          × (k < u.number)
          × (str_case_eq (u.userid k) id ≡ true))
searchuser-Reachable id u r = searchuser_lem id u (sound u r)
  where
    sound : (u : Uhash) → Reachable u → IsSound u
    sound u' (loaded ids u _ fits run) =
        let (v, run', ok, count, names) = fill_uhash-IsSound ids u fits in
        let same : v ≡ u' = cc in subst (λ w. IsSound w) same ok
    sound u' (named num id u _ r low high next run) =
        let (v, run', ok, names, count) = setuserid-IsSound num id u low high next (sound u r) in
        let same : v ≡ u' = cc in subst (λ w. IsSound w) same ok
