-- ===== src/Users/Invariant.antt =====
-- What a sound user hash is: the chains behind the buckets of mbbsd/cache.c, the slots in them, and
-- add_to_uhash and remove_from_uhash.
use openptt.Prelude.{
  ℕ, ◌<◌, ◌≤◌, true, false, some, ◌≡◌, refl, arith, ◌==◌, if◌then◌else◌, List, [], ◌∷◌, ◌++◌,
  length, inl, inr, Bool-cases, ==_iff,
}
use openptt.Prelude.Bytes.{Bytes}
use openptt.Users.{
  Uhash, Cell, head_cell, next_cell, read, max_users, rounds, string_hash, update, add_to_uhash,
  remove_from_uhash,
}
use openptt.Users.Cells.{elem}
use openptt.Users.Chains.{Linked, Distinct, erase, add_walk-Linked, remove_walk-Linked}
use openptt.Users.Slots.{Nodup, elem-erase, Nodup-erase, elem-snoc, Nodup-snoc, length-Nodup}

-- The buckets' chains are `chains`, and hold slots of the names that hash there.
pub record Holds (u : Uhash) (chains : ℕ → List ℕ) : Type 0 where
  pub linked : (h : ℕ) → Linked u (head_cell h) (chains h)
  pub nodup : (h : ℕ) → Nodup (chains h)
  pub hashed : (h k : ℕ) → elem k (chains h) ≡ true → string_hash (u.userid k) ≡ h
  pub small : (h k : ℕ) → elem k (chains h) ≡ true → k < max_users

-- Every chain ends, holds a slot once at most, and the slots in use are those in the chain of
-- the hash of their name.
pub record IsSound (u : Uhash) : Type 0 where
  pub chains : ℕ → List ℕ
  pub holds : Holds u chains
  pub bounded : u.number ≤ max_users
  pub used : (h k : ℕ) → elem k (chains h) ≡ true → k < u.number
  pub present : (k : ℕ) → k < u.number → elem k (chains (string_hash (u.userid k))) ≡ true

Distinct-next : (k : ℕ) (ks : List ℕ) → Nodup (k ∷ ks) → Distinct (next_cell k) ks
Distinct-next k [] d = tt
Distinct-next k (j ∷ ks) d = (d.0, Distinct-next j ks d.1)

Distinct-head : (h : ℕ) (ks : List ℕ) → Nodup ks → Distinct (head_cell h) ks
Distinct-head h [] d = tt
Distinct-head h (k ∷ ks) d = (refl, Distinct-next k ks d)

module _ {u : Uhash} {chains : ℕ → List ℕ} (s : Holds u chains) where
  pub short : (h : ℕ) → length (chains h) < rounds
  short h = omega (arith, length-Nodup max_users (chains h) (s.nodup h) (s.small h))

  -- Different buckets share no slot.
  apart :
      (h g : ℕ) → (h == g) ≡ false → (k : ℕ) → elem k (chains h) ≡ true → elem k (chains g) ≡ false
  apart h g ne k e = elim (Bool-cases (elem k (chains g))) [
    | inl f ↦ ground (arith, s.hashed h k e, s.hashed g k f)
    | inr f ↦ f
  ]

pub Linked-same :
    (u v : Uhash) (p : Cell) (ks : List ℕ)
    → ((q : Cell) → read u q ≡ read v q)
    → Linked u p ks
    → Linked v p ks
Linked-same u v p [] same l = rw (← same p) l
Linked-same u v p (k ∷ ks) same l = (rw (← same p) l.0, Linked-same u v (next_cell k) ks same l.1)

-- Changes of the names and of the count leave the cells alone.
pub reads_same :
    (u : Uhash) (names : ℕ → Bytes) (m : ℕ) (q : Cell)
    → read u q ≡ read (record u { userid = names; number = m }) q
unfolding read
reads_same u names m (head_cell h) = refl
reads_same u names m (next_cell k) = refl

-- The chains when `n` goes to the end of bucket `b`, and when it leaves it.
abbrev pub appended : (b n : ℕ) → (ℕ → List ℕ) → ℕ → List ℕ
appended b n chains h = if b == h then chains h ++ n ∷ [] else chains h

abbrev pub erased : (b n : ℕ) → (ℕ → List ℕ) → ℕ → List ℕ
erased b n chains h = if b == h then erase n (chains h) else chains h

Holds-appended :
    (n : ℕ) (id : Bytes) (u u' : Uhash) (chains : ℕ → List ℕ)
    → n < max_users
    → ((h : ℕ) → elem n (chains h) ≡ false)
    → Holds u chains
    → ((h : ℕ) → Linked u' (head_cell h) (appended (string_hash id) n chains h))
    → u'.userid ≡ update u.userid n id
    → Holds u' (appended (string_hash id) n chains)
Holds-appended n id u u' chains small fresh s l names = record {
  linked = l;
  nodup = λ h. elim (Bool-cases (b == h)) [
    | inl e ↦ rw e (Nodup-snoc n (chains h) (s.nodup h) (fresh h))
    | inr e ↦ rw e (s.nodup h)
  ];
  hashed = λ h k m. rw names (hashed h k m);
  small = λ h k m. elim (Bool-cases (b == h)) [
    | inl e ↦ ground (arith, rw e at m, elem-snoc n k (chains h), s.small h k)
    | inr e ↦ s.small h k (rw e at m)
  ];
}
  where
    b : ℕ
    b = string_hash id

    old : (h k : ℕ) → elem k (chains h) ≡ true → string_hash (update u.userid n id k) ≡ h
    old h k m = elim (Bool-cases (n == k)) [
      | inl e ↦ ground (arith, fresh h)
      | inr e ↦ rw e (s.hashed h k m)
    ]

    hashed :
        (h k : ℕ)
        → elem k (appended (string_hash id) n chains h) ≡ true
        → string_hash (update u.userid n id k) ≡ h
    hashed h k m = elim (Bool-cases (string_hash id == h)) [
      | inl e ↦ elim (Bool-cases (elem k (chains h))) [
        | inl f ↦ old h k f
        | inr f ↦ ground (arith, rw e at m, elem-snoc n k (chains h))
      ]
      | inr e ↦ old h k (rw e at m)
    ]

Holds-erased :
    (b n : ℕ) (u u' : Uhash) (chains : ℕ → List ℕ)
    → Holds u chains
    → ((h : ℕ) → Linked u' (head_cell h) (erased b n chains h))
    → u'.userid ≡ u.userid
    → Holds u' (erased b n chains)
Holds-erased b n u u' chains s l names = record {
  linked = l;
  nodup = λ h. elim (Bool-cases (b == h)) [
    | inl e ↦ rw e (Nodup-erase n (chains h) (s.nodup h))
    | inr e ↦ rw e (s.nodup h)
  ];
  hashed = λ h k m. rw names (s.hashed h k (old h k m));
  small = λ h k m. s.small h k (old h k m);
}
  where
    old : (h k : ℕ) → elem k (erased b n chains h) ≡ true → elem k (chains h) ≡ true
    old h k m = elim (Bool-cases (b == h)) [
      | inl e ↦ elem-erase n k (chains h) (rw e at m)
      | inr e ↦ rw e at m
    ]

-- add_to_uhash of a slot in no chain appends it to the chain of its new name.
pub add_to_uhash-Holds :
    (n : ℕ) (id : Bytes) (u : Uhash) (chains : ℕ → List ℕ)
    → n < max_users
    → ((h : ℕ) → elem n (chains h) ≡ false)
    → Holds u chains
    → (u' : Uhash) × (add_to_uhash n id u ≡ some u')
      × Holds u' (appended (string_hash id) n chains)
      × (u'.userid ≡ update u.userid n id)
      × (u'.number ≡ u.number)
unfolding add_to_uhash
add_to_uhash-Holds n id u chains small fresh s =
    let v : Uhash = record u { userid = update u.userid n id } in
    let b = string_hash id in
    let linked : (h : ℕ) → Linked v (head_cell h) (chains h) =
      λ h. Linked-same u v (head_cell h) (chains h) (reads_same u v.userid u.number) (s.linked h) in
    let (u', e, l, elsewhere, names, count) =
      add_walk-Linked rounds n v (head_cell b) (chains b) (short s b)
        (Distinct-head b (chains b) (s.nodup b)) (refl, fresh b) (linked b) in
    let all : (h : ℕ) → Linked u' (head_cell h) (appended b n chains h) = λ h.
      elim (Bool-cases (b == h)) [
        | inl f ↦ rw f (rw (← (==_iff b h).0 f) l)
        | inr f ↦ rw f (
            elsewhere (head_cell h) (chains h) (f, refl) (refl, fresh h)
              (λ k m. (refl, apart s b h f k m)) (linked h))
      ] in
    (u', e, Holds-appended n id u u' chains small fresh s all names, names, count)

-- remove_from_uhash takes a slot out of the chain of its name.
pub remove_from_uhash-Holds :
    (n : ℕ) (u : Uhash) (chains : ℕ → List ℕ)
    → Holds u chains
    → (u' : Uhash) × (remove_from_uhash n u ≡ some u')
      × Holds u' (erased (string_hash (u.userid n)) n chains)
      × (u'.userid ≡ u.userid)
      × (u'.number ≡ u.number)
unfolding remove_from_uhash
remove_from_uhash-Holds n u chains s =
    let b = string_hash (u.userid n) in
    let (u', e, l, elsewhere, names, count) =
      remove_walk-Linked rounds n u (head_cell b) (chains b) (short s b)
        (Distinct-head b (chains b) (s.nodup b)) (s.linked b) in
    let all : (h : ℕ) → Linked u' (head_cell h) (erased b n chains h) = λ h.
      elim (Bool-cases (b == h)) [
        | inl f ↦ rw f (rw (← (==_iff b h).0 f) l)
        | inr f ↦ rw f (
            elsewhere (head_cell h) (chains h) (f, refl) (λ k m. (refl, apart s b h f k m))
              (s.linked h))
      ] in
    (u', e, Holds-erased b n u u' chains s all names, names, count)
