-- ===== src/Names/Toggle.antt =====
-- AddNameList, RemoveNameList and ToggleNameList of mbbsd/name.c.
use openptt.Prelude.{
  ℕ, zero, suc, ◌+◌, ◌-◌, ◌≤◌, ◌<◌, ◌≡◌, ◌⊎◌, refl, ap, Bool, true, false, Option, none, some, List,
  [], ◌∷◌, ◌++◌, inl, inr, arith, ◌==◌, if◌then◌else◌, ◌||◌, not, length, take, length-append,
  Bool-cases,
}
use openptt.Prelude.Bytes.{Bytes, str_eq, str_eq_iff}
use openptt.Names.{
  Names, add_name_list, index_of, in_name_list, erase_idx, remove_name_list, toggle,
  toggle_name_list,
}

abbrev last_of : List Bytes → Option ℕ
last_of [] = none
last_of (w ∷ ws) = some (length ws)

abbrev pub mem : Bytes → List Bytes → Bool
mem x [] = false
mem x (w ∷ ws) = str_eq w x || mem x ws

abbrev pub Nodup : List Bytes → Type 0
Nodup [] = Unit {0}
Nodup (w ∷ ws) = (mem w ws ≡ false) × Nodup ws

-- `current` is the last node, and no name is there twice.
pub record IsValid (n : Names) : Type 0 where
  pub tail : n.current ≡ last_of n.words
  pub once : Nodup n.words

in_name_list-mem : (x : Bytes) (n : Names) → in_name_list x n ≡ mem x n.words
unfolding in_name_list index_of
in_name_list-mem x n = by_words n.words
  where
    by_words :
        (ws : List Bytes)
        → (elim (index_of x ws) as (λ _. Bool) [ none ↦ false | some _ ↦ true ]) ≡ mem x ws
    by_words [] = refl
    by_words (w ∷ ws) = ground (arith, by_words ws)

abbrev erase_name : Bytes → List Bytes → List Bytes
erase_name x [] = []
erase_name x (w ∷ ws) = if str_eq w x then ws else w ∷ erase_name x ws

index_of_lem :
    (x : Bytes) (ws : List Bytes)
    → ((index_of x ws ≡ none) × (mem x ws ≡ false))
      ⊎ ((k : ℕ) × (index_of x ws ≡ some k)
          × (k < length ws)
          × (erase_idx k ws ≡ erase_name x ws)
          × (mem x ws ≡ true))
unfolding index_of
index_of_lem x [] = inl (refl, refl)
index_of_lem x (w ∷ ws) = elim (Bool-cases (str_eq w x)) [
  | inl e ↦ inr (0, rw (e, index_of), omega arith, rw e refl, rw e)
  | inr e ↦ elim (index_of_lem x ws) [
    | inl (i, m) ↦ inl (rw (e, index_of, i), rw e m)
    | inr (k, i, l, same, m) ↦
        inr (suc k, rw (e, index_of, i), omega arith, rw e (ap (w ∷◌) same), rw e m)
  ]
]

length-erase_name :
    (x : Bytes) (ws : List Bytes) → mem x ws ≡ true → length (erase_name x ws) + 1 ≡ length ws
length-erase_name x [] h = cc
length-erase_name x (w ∷ ws) h = ground (arith, length-erase_name x ws)

mem-snoc : (x y : Bytes) (ws : List Bytes) → mem x (ws ++ y ∷ []) ≡ (mem x ws || str_eq y x)
mem-snoc x y [] = ground arith
mem-snoc x y (w ∷ ws) = ground (arith, mem-snoc x y ws)

Nodup-snoc : (y : Bytes) (ws : List Bytes) → Nodup ws → mem y ws ≡ false → Nodup (ws ++ y ∷ [])
Nodup-snoc y [] d h = (refl, tt)
Nodup-snoc y (w ∷ ws) d h = (
  ground (arith, mem-snoc w y ws, str_eq_iff w y, str_eq_iff y w),
  Nodup-snoc y ws d.1 (ground arith),
)

mem-erase_name :
    (x y : Bytes) (ws : List Bytes)
    → Nodup ws
    → mem y (erase_name x ws) ≡ (if str_eq x y then false else mem y ws)
mem-erase_name x y [] d = ground arith
mem-erase_name x y (w ∷ ws) d = ground (
  arith,
  mem-erase_name x y ws d.1,
  str_eq_iff w x,
  str_eq_iff x y,
  str_eq_iff w y,
  mem_cong x y w ws d.0,
)
  where
    mem_cong : (x y w : Bytes) (ws : List Bytes) → mem w ws ≡ false → w ≡ y → mem y ws ≡ false
    mem_cong x y w ws h e = rw (← e) h

Nodup-erase_name : (x : Bytes) (ws : List Bytes) → Nodup ws → Nodup (erase_name x ws)
Nodup-erase_name x [] d = tt
Nodup-erase_name x (w ∷ ws) d = elim (Bool-cases (str_eq w x)) [
  | inl e ↦ rw e d.1
  | inr e ↦ rw e (ground (arith, mem-erase_name x w ws d.1), Nodup-erase_name x ws d.1)
]

last_of-eq :
    (ws : List Bytes) → last_of ws ≡ (if length ws == 0 then none else some (length ws - 1))
last_of-eq [] = refl
last_of-eq (w ∷ ws) = ground arith

take_all : (ws : List Bytes) (n : ℕ) → length ws ≡ n → take n ws ≡ ws
take_all [] zero h = refl
take_all [] (suc n) h = refl
take_all (w ∷ ws) zero h = absurd (omega arith)
take_all (w ∷ ws) (suc n) h = ap (w ∷◌) (take_all ws n (omega arith))

-- AddNameList never meets a null `current`, and puts a new name at the end.
add_name_list_lem :
    (x : Bytes) (n : Names)
    → IsValid n
    → mem x n.words ≡ false
    → (n' : Names) × (add_name_list x n ≡ some n') × (n'.words ≡ n.words ++ x ∷ []) × IsValid n'
unfolding add_name_list
add_name_list_lem x n v h = by_words n.words v.tail v.once h
  where
    by_words :
        (ws : List Bytes)
        → n.current ≡ last_of ws
        → Nodup ws
        → mem x ws ≡ false
        → (n' : Names) × (add_name_list x (record { words = ws; current = n.current }) ≡ some n')
          × (n'.words ≡ ws ++ x ∷ [])
          × IsValid n'
    by_words [] c d m = (
      record { words = x ∷ []; current = some 0 },
      refl,
      refl,
      record { tail = refl; once = (refl, tt) },
    )
    by_words (w ∷ ws) c d m =
        let all : take (length ws + 1) (w ∷ ws) ≡ w ∷ ws =
          take_all (w ∷ ws) (length ws + 1) (omega arith) in
        (
          record { words = (w ∷ ws) ++ x ∷ []; current = some (length ws + 1) },
          rw (c, all),
          refl,
          record {
            tail = ap some (omega (arith, length-append {0} ws (x ∷ [])));
            once = Nodup-snoc x (w ∷ ws) d m;
          },
        )

-- RemoveNameList of a name in the list.
remove_name_list_lem :
    (x : Bytes) (n : Names)
    → IsValid n
    → mem x n.words ≡ true
    → ((remove_name_list x n).1.words ≡ erase_name x n.words) × IsValid (remove_name_list x n).1
unfolding remove_name_list
remove_name_list_lem x n v h = elim (index_of_lem x n.words) [
  | inl (i, m) ↦ cc
  | inr (k, i, l, same, m) ↦
      rw (i, remove_name_list)
        (
          same,
          record {
            tail =
                rw (v.tail, same, last_of-eq n.words, last_of-eq (erase_name x n.words))
                  (ground (arith, length-erase_name x n.words));
            once = rw same (Nodup-erase_name x n.words v.once);
          },
        )
]

-- One name of the file: what changes for each name `y`, and the counter.
toggle_lem :
    (x : Bytes) (n : Names) (reciper : ℕ)
    → IsValid n
    → length n.words ≤ reciper
    → (n' : Names) × (r' : ℕ) × (toggle x (n, reciper) ≡ some (n', r'))
      × IsValid n'
      × (r' + length n.words ≡ reciper + length n'.words)
      × ((y : Bytes) → mem y n'.words ≡ (if str_eq x y then not (mem y n.words) else mem y n.words))
unfolding toggle
toggle_lem x n reciper v h = elim (Bool-cases (mem x n.words)) [
  | inl m ↦
      let (words, valid) = remove_name_list_lem x n v m in
      (
        (remove_name_list x n).1,
        reciper - 1,
        rw (in_name_list-mem x n, m, toggle) refl,
        valid,
        rw words (omega (arith, length-erase_name x n.words m)),
        λ y. rw words (ground (arith, mem-erase_name x y n.words v.once, same x y n.words m)),
      )
  | inr m ↦
      let (n', run, words, valid) = add_name_list_lem x n v m in
      (
        n',
        reciper + 1,
        rw (in_name_list-mem x n, m, toggle, run, toggle) refl,
        valid,
        rw words (omega (arith, length-append {0} n.words (x ∷ []))),
        λ y. rw words (ground (arith, mem-snoc y x n.words, differ x y n.words m)),
      )
]
  where
    same : (x y : Bytes) (ws : List Bytes) → mem x ws ≡ true → str_eq x y ≡ true → mem y ws ≡ true
    same x y ws m e = rw (← (str_eq_iff x y).0 e) m

    differ :
        (x y : Bytes) (ws : List Bytes) → mem x ws ≡ false → str_eq x y ≡ true → mem y ws ≡ false
    differ x y ws m e = rw (← (str_eq_iff x y).0 e) m

-- How often a name stands in the file, as a parity.
abbrev pub odd_in : Bytes → List Bytes → Bool
odd_in y [] = false
odd_in y (x ∷ xs) = if str_eq x y then not (odd_in y xs) else odd_in y xs

-- ToggleNameList ends, keeps `current` on the last node and the names distinct, has every name in
-- the list exactly when it was there and stands in the file an even number of times, or was not and
-- stands there an odd number of times, and keeps the counter's distance to the list's length.
pub toggle_name_list_lem :
    (xs : List Bytes) (n : Names) (reciper : ℕ)
    → IsValid n
    → length n.words ≤ reciper
    → (n' : Names) × (r' : ℕ) × (toggle_name_list xs (n, reciper) ≡ some (n', r'))
      × IsValid n'
      × (r' + length n.words ≡ reciper + length n'.words)
      × ((y : Bytes)
          → mem y n'.words ≡ (if odd_in y xs then not (mem y n.words) else mem y n.words))
unfolding toggle_name_list
toggle_name_list_lem [] n reciper v h = (n, reciper, refl, v, refl, λ y. refl)
toggle_name_list_lem (x ∷ xs) n reciper v h =
    let (n₁, r₁, run₁, v₁, count₁, flip₁) = toggle_lem x n reciper v h in
    let (n₂, r₂, run₂, v₂, count₂, flip₂) = toggle_name_list_lem xs n₁ r₁ v₁ (omega arith) in
    (
      n₂,
      r₂,
      rw (run₁, toggle_name_list) run₂,
      v₂,
      omega arith,
      λ y. ground (arith, flip₁ y, flip₂ y),
    )
