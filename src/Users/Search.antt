-- ===== src/Users/Search.antt =====
-- StringHash of mbbsd/toolkit.c on names in either case, and searchuser of mbbsd/cache.c.
use Prim.Native.Nat.{bit_xor}
use openptt.Prelude.{
  ◌*◌, ◌/◌, ◌%◌, ◌^◌, ℕ, zero, suc, ◌+◌, ◌<◌, true, false, some, ◌≡◌, refl, arith, List, [], ◌∷◌,
  inl, inr, Bool-cases, map, length, ◌⊎◌,
}
use openptt.Prelude.Bytes.{Bytes, toupper, tolower, str_case_eq, str_case_eq_iff}
use openptt.Users.{
  Uhash, Cell, head_cell, next_cell, read, rounds, hash_loop, string_hash, search_loop, searchuser,
}
use openptt.Users.Cells.{elem}
use openptt.Users.Chains.{Linked}
use openptt.Users.Invariant.{IsSound, short}

toupper-of_tolower : (a b : ℕ) → tolower a ≡ tolower b → toupper a ≡ toupper b
unfolding tolower toupper
toupper-of_tolower a b h = ground arith

hash_loop-case :
    (v : ℕ) (s t : Bytes) → map tolower s ≡ map tolower t → hash_loop v s ≡ hash_loop v t
unfolding hash_loop
hash_loop-case v [] [] h = refl
hash_loop-case v [] (b ∷ t) h = cc
hash_loop-case v (a ∷ s) [] h = cc
hash_loop-case v (a ∷ s) (b ∷ t) h =
    rw (toupper-of_tolower a b (cc))
      (hash_loop-case (bit_xor ((v * 256 + v / 2 ^ 24) % 2 ^ 32) (toupper b)) s t (cc))

-- StringHash gives names that strcasecmp identifies the same bucket, within the table.
pub string_hash-case :
    (s t : Bytes)
    → str_case_eq s t ≡ true
    → (string_hash s ≡ string_hash t) × (string_hash s < 65536)
unfolding string_hash
string_hash-case s t h =
    let e = hash_loop-case 0 s t ((str_case_eq_iff s t).0 h) in (rw e, omega arith)

-- What the number found says of the slots of a chain.
abbrev Found : Uhash → Bytes → List ℕ → ℕ → Type 0
Found u id ks n =
    (n ≡ 0 → (k : ℕ) → elem k ks ≡ true → str_case_eq (u.userid k) id ≡ false)
    × ((k : ℕ) → n ≡ suc k → (elem k ks ≡ true) × (str_case_eq (u.userid k) id ≡ true))

search_loop-Linked :
    (fuel : ℕ) (id : Bytes) (u : Uhash) (p : Cell) (ks : List ℕ)
    → length ks < fuel
    → Linked u p ks
    → (n : ℕ) × (search_loop fuel id u (read u p) ≡ some n) × Found u id ks n
unfolding search_loop read
search_loop-Linked zero id u p ks h l = elim h [ ]
search_loop-Linked (suc fuel) id u p [] h l =
    (0, rw (l, search_loop), ((λ e k m. cc), λ k e. absurd (omega arith)))
search_loop-Linked (suc fuel) id u p (k ∷ ks) h l =
    elim (Bool-cases (str_case_eq (u.userid k) id)) [
      | inl e ↦ (
        k + 1,
        rw (l.0, search_loop, e),
        (
          (λ z. absurd (omega arith)),
          λ j f. let g : k ≡ j = omega arith in (ground arith, rw (← g) e),
        ),
      )
      | inr e ↦
          let (n, run, found) = search_loop-Linked fuel id u (next_cell k) ks (omega arith) l.1 in
          (
            n,
            rw (l.0, search_loop, e) run,
            (
              (λ z j m. ground (arith, found.0 z j)),
              λ j f. (ground (arith, found.1 j f), (found.1 j f).1),
            ),
          )
    ]

pub searchuser_number :
    (id : Bytes) (u : Uhash)
    → IsSound u
    → (n : ℕ) × (searchuser id u ≡ some n)
      × (n ≡ 0 → (k : ℕ) → k < u.number → str_case_eq (u.userid k) id ≡ false)
      × ((k : ℕ) → n ≡ suc k → (k < u.number) × (str_case_eq (u.userid k) id ≡ true))
unfolding searchuser
searchuser_number id u s =
    let b = string_hash id in
    let (n, run, found) =
      search_loop-Linked rounds id u (head_cell b) (s.chains b) (short s.holds b)
        (s.holds.linked b) in
    (
      n,
      unfold read in run,
      λ z k lt. elim (Bool-cases (str_case_eq (u.userid k) id)) [
        | inl e ↦
            let same = (string_hash-case (u.userid k) id e).0 in
            cc (found.0 z k (rw same at (s.present k lt)))
        | inr e ↦ e
      ],
      λ k f. let (m, e) = found.1 k f in (s.used b k m, e),
    )

-- No user has the name, in upper or lower case.
abbrev pub IsUnknown : Bytes → Uhash → Type 0
IsUnknown id u = (k : ℕ) → k < u.number → str_case_eq (u.userid k) id ≡ false

-- On a sound hash searchuser ends: either with 0, and no user has the name, or with the number of a
-- user that has it, in upper or lower case.
pub searchuser_lem :
    (id : Bytes) (u : Uhash)
    → IsSound u
    → ((searchuser id u ≡ some 0) × IsUnknown id u)
      ⊎ ((k : ℕ) × (searchuser id u ≡ some (suc k))
          × (k < u.number)
          × (str_case_eq (u.userid k) id ≡ true))
searchuser_lem id u s = by_number (searchuser_number id u s)
  where
    by_number :
        ((n : ℕ) × (searchuser id u ≡ some n)
          × (n ≡ 0 → IsUnknown id u)
          × ((k : ℕ) → n ≡ suc k → (k < u.number) × (str_case_eq (u.userid k) id ≡ true)))
        → ((searchuser id u ≡ some 0) × IsUnknown id u)
          ⊎ ((k : ℕ) × (searchuser id u ≡ some (suc k))
              × (k < u.number)
              × (str_case_eq (u.userid k) id ≡ true))
    by_number (zero, run, miss, hit) = inl (run, miss refl)
    by_number (suc k, run, miss, hit) = inr (k, run, (hit k refl).0, (hit k refl).1)
