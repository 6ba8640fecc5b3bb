-- ===== src/Users/Register.antt =====
-- setuserid of mbbsd/cache.c on a sound user hash.
use Prim.Native.Nat.{max}
use openptt.Prelude.{
  ℕ, ◌+◌, ◌-◌, ◌<◌, ◌≤◌, true, false, some, ◌≡◌, refl, arith, ◌==◌, List, ◌||◌, inl, inr,
  Bool-cases, ◌≢◌, ◌∙◌, ltb, ◌&&◌,
}
use openptt.Prelude.Bytes.{Bytes}
use openptt.Users.{
  Uhash, head_cell, max_users, string_hash, update, add_to_uhash, remove_from_uhash, setuserid,
}
use openptt.Users.Cells.{elem}
use openptt.Users.Slots.{elem-erase, elem-erase_self, elem-erase_ne, elem-snoc}
use openptt.Users.Invariant.{
  Holds, IsSound, Linked-same, reads_same, appended, erased, add_to_uhash-Holds,
  remove_from_uhash-Holds,
}

pub elem-appended :
    (b n k : ℕ) (chains : ℕ → List ℕ) (h : ℕ)
    → elem k (appended b n chains h) ≡ (elem k (chains h) || ((b == h) && (k == n)))
elem-appended b n k chains h = elim (Bool-cases (b == h)) [
  | inl e ↦ rw e (elem-snoc n k (chains h))
  | inr e ↦ rw e (ground arith)
]

elem-erased_ne :
    (b n k : ℕ) (chains : ℕ → List ℕ) (h : ℕ)
    → n ≢ k
    → elem k (chains h) ≡ true
    → elem k (erased b n chains h) ≡ true
elem-erased_ne b n k chains h ne m = elim (Bool-cases (b == h)) [
  | inl e ↦ rw e (elem-erase_ne n k (chains h) ne m)
  | inr e ↦ rw e m
]

elem-of_erased :
    (b n k : ℕ) (chains : ℕ → List ℕ) (h : ℕ)
    → elem k (erased b n chains h) ≡ true
    → elem k (chains h) ≡ true
elem-of_erased b n k chains h m = elim (Bool-cases (b == h)) [
  | inl e ↦ elem-erase n k (chains h) (rw e at m)
  | inr e ↦ rw e at m
]

-- A slot that leaves the bucket of its name is in no chain.
erased_fresh :
    (n : ℕ) {u : Uhash} {chains : ℕ → List ℕ}
    → Holds u chains
    → (h : ℕ) → elem n (erased (string_hash (u.userid n)) n chains h) ≡ false
erased_fresh n {u} {chains} s h = elim (Bool-cases (string_hash (u.userid n) == h)) [
  | inl e ↦ rw e (elem-erase_self n (chains h) (s.nodup h))
  | inr e ↦
      rw e (elim (Bool-cases (elem n (chains h))) [
        | inl f ↦ ground (arith, s.hashed h n f)
        | inr f ↦ f
      ])
]

-- Adding a fresh slot `n` under `id` to chains that hold all the other slots below `m`.
module _ (n : ℕ) (id : Bytes) (u u' : Uhash) (chains : ℕ → List ℕ) (m : ℕ)
    (holds : Holds u' (appended (string_hash id) n chains))
    (names : u'.userid ≡ update u.userid n id) (count : u'.number ≡ m) (bounded : m ≤ max_users)
    (inside : n < m) (used : (h k : ℕ) → elem k (chains h) ≡ true → k < m)
    (present : (k : ℕ) → k < m → n ≢ k → elem k (chains (string_hash (u.userid k))) ≡ true) where
  added_used : (h k : ℕ) → elem k (appended (string_hash id) n chains h) ≡ true → k < u'.number
  added_used h k e =
      rw count (ground (arith, elem-appended (string_hash id) n k chains h, used h k))

  added_present :
      (k : ℕ)
      → k < m
      → elem k (appended (string_hash id) n chains (string_hash (update u.userid n id k))) ≡ true
  added_present k lt = elim (Bool-cases (n == k)) [
    | inl e ↦ rw e (rw (elem-appended (string_hash id) n k chains (string_hash id)) (ground arith))
    | inr e ↦ rw e (
        rw (elem-appended (string_hash id) n k chains (string_hash (u.userid k)))
          (rw (present k lt (ground arith)) refl))
  ]

  added-IsSound : IsSound u'
  added-IsSound = record {
    chains = appended (string_hash id) n chains;
    holds = holds;
    bounded = rw count bounded;
    used = added_used;
    present = λ k lt. rw names (added_present k (rw count at lt));
  }

module _ (num : ℕ) (id : Bytes) (u : Uhash) (positive : 0 < num) (fits : num ≤ max_users) where
  -- A new last user.
  extend :
      IsSound u
      → num ≡ u.number + 1
      → (u' : Uhash) × (add_to_uhash (num - 1) id (record u { number = num }) ≡ some u')
        × IsSound u'
        × (u'.userid ≡ update u.userid (num - 1) id)
        × (u'.number ≡ num)
  extend s last =
      let v : Uhash = record u { number = num } in
      let chains = s.chains in
      let held : Holds v chains = record {
        linked = λ h.
            Linked-same u v (head_cell h) (chains h) (reads_same u u.userid num) (s.holds.linked h);
        nodup = s.holds.nodup;
        hashed = s.holds.hashed;
        small = s.holds.small;
      } in
      let fresh : (h : ℕ) → elem (num - 1) (chains h) ≡ false = λ h.
        elim (Bool-cases (elem (num - 1) (chains h))) [
          | inl e ↦ absurd (omega (arith, s.used h (num - 1) e))
          | inr e ↦ e
        ] in
      let (u', e, holds, names, count) =
        add_to_uhash-Holds (num - 1) id v chains (omega arith) fresh held in
      (
        u',
        e,
        added-IsSound (num - 1) id u u' chains num holds names count fits (omega arith)
            (λ h k f. omega (arith, s.used h k f)) (λ k lt ne. s.present k (omega arith)),
        names,
        count,
      )

  -- A new name for a user.
  pub rename :
      IsSound u
      → num ≤ u.number
      → (v : Uhash) × (remove_from_uhash (num - 1) u ≡ some v)
        × (u' : Uhash) × (add_to_uhash (num - 1) id v ≡ some u')
        × IsSound u'
        × (u'.userid ≡ update u.userid (num - 1) id)
        × (u'.number ≡ u.number)
  rename s old =
      let n = num - 1 in
      let b = string_hash (u.userid n) in
      let (v, r, held, names, count) = remove_from_uhash-Holds n u s.chains s.holds in
      let (u', e, holds, names', count') =
        add_to_uhash-Holds n id v (erased b n s.chains) (omega arith) (erased_fresh n s.holds)
          held in
      let named : u'.userid ≡ update u.userid n id = rw names at names' in
      (
        v,
        r,
        u',
        e,
        added-IsSound n id u u' (erased b n s.chains) u.number holds named (count' ∙ count)
            s.bounded (omega arith) (λ h k f. s.used h k (elem-of_erased b n k s.chains h f))
            (λ k lt ne. elem-erased_ne b n k s.chains _ ne (s.present k lt)),
        named,
        count' ∙ count,
      )

-- For a slot in use or the next one, setuserid ends, keeps the hash sound, changes that one name,
-- and counts a new slot.
pub setuserid-IsSound :
    (num : ℕ) (id : Bytes) (u : Uhash)
    → 0 < num
    → num ≤ max_users
    → num ≤ u.number + 1
    → IsSound u
    → (u' : Uhash) × (setuserid num id u ≡ some u')
      × IsSound u'
      × (u'.userid ≡ update u.userid (num - 1) id)
      × (u'.number ≡ max u.number num)
unfolding setuserid
setuserid-IsSound num id u positive fits next s = elim (Bool-cases (ltb u.number num)) [
  | inl e ↦
      let (u', run, sound, names, count) = extend num id u positive fits s (ground arith) in
      (u', rw (e, setuserid) (ground arith), sound, names, ground arith)
  | inr e ↦
      let (v, removed, u', run, sound, names, count) =
        rename num id u positive fits s (ground arith) in
      (u', ground arith, sound, names, ground arith)
]
