-- ===== src/Users/Chains.antt =====
-- A chain of slots behind a cell, and what the loops of the user hash do to it.
use openptt.Prelude.{
  ℕ, zero, suc, ◌<◌, Bool, true, false, Option, none, some, ◌≡◌, refl, arith, ◌==◌, if◌then◌else◌,
  List, [], ◌∷◌, ◌++◌, length, inl, inr, Bool-cases, ==_iff, ◌∙◌,
}
use openptt.Users.{
  Uhash, Cell, head_cell, next_cell, read, write, walk_end, walk_to, add_at, add_walk, remove_at,
  remove_walk,
}
use openptt.Users.Cells.{cell_eq, cell_eq_refl, read-write, elem}

-- From the cell `p` on, the chain runs through the slots `ks` and ends.
abbrev pub Linked : Uhash → Cell → List ℕ → Type 0
Linked u p [] = read u p ≡ none
Linked u p (k ∷ ks) = (read u p ≡ some k) × Linked u (next_cell k) ks

-- The cell is the `next` of one of the slots.
abbrev pub among : Cell → List ℕ → Bool
among (head_cell h) ks = false
among (next_cell k) ks = elem k ks

-- No cell occurs twice on the way.
abbrev pub Distinct : Cell → List ℕ → Type 0
Distinct p [] = Unit {0}
Distinct p (k ∷ ks) = (among p (k ∷ ks) ≡ false) × Distinct (next_cell k) ks

-- The cell is not on the way.
abbrev pub Off : Cell → Cell → List ℕ → Type 0
Off q p ks = (cell_eq q p ≡ false) × (among q ks ≡ false)

abbrev last_cell : Cell → List ℕ → Cell
last_cell p [] = p
last_cell p (k ∷ ks) = last_cell (next_cell k) ks

abbrev pub erase : ℕ → List ℕ → List ℕ
erase n [] = []
erase n (k ∷ ks) = if k == n then ks else k ∷ erase n ks

among-cons :
    (q : Cell) (k : ℕ) (ks : List ℕ)
    → among q (k ∷ ks) ≡ false
    → (cell_eq q (next_cell k) ≡ false) × (among q ks ≡ false)
among-cons (head_cell h) k ks e = (refl, refl)
among-cons (next_cell j) k ks e = ground arith

cell_eq_sym : (p q : Cell) → cell_eq p q ≡ cell_eq q p
cell_eq_sym (head_cell a) (head_cell b) = ground arith
cell_eq_sym (next_cell a) (next_cell b) = ground arith
cell_eq_sym (head_cell a) (next_cell b) = refl
cell_eq_sym (next_cell a) (head_cell b) = refl

-- A write off the way leaves the chain alone.
pub Linked-write :
    (u : Uhash) (q p : Cell) (v : Option ℕ) (ks : List ℕ)
    → Off q p ks
    → Linked u p ks
    → Linked (write u q v) p ks
Linked-write u q p v [] o l = rw (read-write u q p v, o.0) l
Linked-write u q p v (k ∷ ks) o l =
    let tail = among-cons q k ks o.1 in
    (rw (read-write u q p v, o.0) l.0, Linked-write u q (next_cell k) v ks tail l.1)

-- The two walks end within the length of the chain.
walk_end-Linked :
    (fuel : ℕ) (u : Uhash) (p : Cell) (ks : List ℕ)
    → length ks < fuel
    → Linked u p ks
    → walk_end fuel u p ≡ some (last_cell p ks)
unfolding walk_end
walk_end-Linked zero u p ks h l = elim h [ ]
walk_end-Linked (suc fuel) u p [] h l = rw (l, walk_end)
walk_end-Linked (suc fuel) u p (k ∷ ks) h l =
    rw (l.0, walk_end) (walk_end-Linked fuel u (next_cell k) ks (omega arith) l.1)

Off-last : (q p : Cell) (ks : List ℕ) → Off q p ks → cell_eq q (last_cell p ks) ≡ false
Off-last q p [] o = o.0
Off-last q p (k ∷ ks) o = Off-last q (next_cell k) ks (among-cons q k ks o.1)

Linked-add :
    (u : Uhash) (n : ℕ) (p : Cell) (ks : List ℕ)
    → Distinct p ks
    → Off (next_cell n) p ks
    → Linked u p ks
    → Linked (add_at n u (last_cell p ks)) p (ks ++ n ∷ [])
unfolding add_at
Linked-add u n p [] d o l = (
  rw (
    read-write (write u p (some n)) (next_cell n) p none,
    o.0,
    read-write u p p (some n),
    cell_eq_refl p,
  ),
  rw (read-write (write u p (some n)) (next_cell n) (next_cell n) none, cell_eq_refl (next_cell n)),
)
Linked-add u n p (k ∷ ks) d o l =
    let q = last_cell (next_cell k) ks in
    let away : cell_eq q p ≡ false =
      rw (cell_eq_sym q p) (Off-last p (next_cell k) ks (among-cons p k ks d.0)) in
    (
      rw
          (
            read-write (write u q (some n)) (next_cell n) p none,
            o.0,
            read-write u q p (some n),
            away,
          )
          l.0,
      Linked-add u n (next_cell k) ks d.1 (among-cons (next_cell n) k ks o.1) l.1,
    )

-- Where the walk to `n` stops.
abbrev stop_cell : ℕ → Cell → List ℕ → Cell
stop_cell n p [] = p
stop_cell n p (k ∷ ks) = if k == n then p else stop_cell n (next_cell k) ks

walk_to-Linked :
    (fuel n : ℕ) (u : Uhash) (p : Cell) (ks : List ℕ)
    → length ks < fuel
    → Linked u p ks
    → walk_to fuel n u p ≡ some (stop_cell n p ks)
unfolding walk_to
walk_to-Linked zero n u p ks h l = elim h [ ]
walk_to-Linked (suc fuel) n u p [] h l = rw (l, walk_to)
walk_to-Linked (suc fuel) n u p (k ∷ ks) h l = elim (Bool-cases (k == n)) [
  | inl e ↦ rw (l.0, walk_to, e)
  | inr e ↦ rw (l.0, walk_to, e) (walk_to-Linked fuel n u (next_cell k) ks (omega arith) l.1)
]

Off-stop : (n : ℕ) (q p : Cell) (ks : List ℕ) → Off q p ks → cell_eq q (stop_cell n p ks) ≡ false
Off-stop n q p [] o = o.0
Off-stop n q p (k ∷ ks) o = elim (Bool-cases (k == n)) [
  | inl e ↦ rw e o.0
  | inr e ↦ rw e (Off-stop n q (next_cell k) ks (among-cons q k ks o.1))
]

read-remove_at :
    (n : ℕ) (u : Uhash) (q p : Cell) → cell_eq q p ≡ false → read (remove_at n u q) p ≡ read u p
unfolding remove_at
read-remove_at n u q p e = by_read (read u q) refl
  where
    by_read : (o : Option ℕ) → read u q ≡ o → read (remove_at n u q) p ≡ read u p
    by_read none r = rw (r, remove_at)
    by_read (some k) r = elim (Bool-cases (k == n)) [
      | inl f ↦ rw (r, remove_at, f) (rw (read-write u q p (u.next_in_hash n), e))
      | inr f ↦ rw (r, remove_at, f)
    ]

relink :
    (u : Uhash) (p q : Cell) (ks : List ℕ)
    → among p ks ≡ false
    → Linked u q ks
    → Linked (write u p (read u q)) p ks
relink u p q [] a l = rw (read-write u p p (read u q), cell_eq_refl p) l
relink u p q (k ∷ ks) a l = (
  rw (read-write u p p (read u q), cell_eq_refl p) l.0,
  Linked-write u p (next_cell k) (read u q) ks (among-cons p k ks a) l.1,
)

Linked-remove :
    (n : ℕ) (u : Uhash) (p : Cell) (ks : List ℕ)
    → Distinct p ks
    → Linked u p ks
    → Linked (remove_at n u (stop_cell n p ks)) p (erase n ks)
unfolding remove_at
Linked-remove n u p [] d l = rw (l, remove_at) l
Linked-remove n u p (k ∷ ks) d l = elim (Bool-cases (k == n)) [
  | inl e ↦
      rw (e, l.0, remove_at, e)
        (rw (← (==_iff k n).0 e)
          (unfold read in relink u p (next_cell k) ks (among-cons p k ks d.0).1 l.1))
  | inr e ↦ rw e (
    rw
        (read-remove_at n u (stop_cell n (next_cell k) ks) p (
          rw (cell_eq_sym (stop_cell n (next_cell k) ks) p)
            (Off-stop n p (next_cell k) ks (among-cons p k ks d.0))))
        l.0,
    Linked-remove n u (next_cell k) ks d.1 l.1,
  )
]

kept_write :
    (u : Uhash) (p : Cell) (v : Option ℕ)
    → ((write u p v).userid ≡ u.userid) × ((write u p v).number ≡ u.number)
unfolding write
kept_write u (head_cell h) v = (refl, refl)
kept_write u (next_cell k) v = (refl, refl)

kept_remove :
    (n : ℕ) (u : Uhash) (p : Cell)
    → ((remove_at n u p).userid ≡ u.userid) × ((remove_at n u p).number ≡ u.number)
unfolding remove_at read write
kept_remove n u (head_cell h) = ground arith
kept_remove n u (next_cell k) = ground arith

-- A chain elsewhere, behind `q` and through `cs`, stays.
elsewhere :
    (p q : Cell) (ks cs : List ℕ)
    → Off p q cs
    → ((k : ℕ) → elem k ks ≡ true → Off (next_cell k) q cs)
    → Off (last_cell p ks) q cs
elsewhere p q [] cs o d = o
elsewhere p q (k ∷ ks) cs o d =
    elsewhere (next_cell k) q ks cs (d k (ground arith)) (λ j e. d j (ground arith))

elsewhere_stop :
    (n : ℕ) (p q : Cell) (ks cs : List ℕ)
    → Off p q cs
    → ((k : ℕ) → elem k ks ≡ true → Off (next_cell k) q cs)
    → Off (stop_cell n p ks) q cs
elsewhere_stop n p q [] cs o d = o
elsewhere_stop n p q (k ∷ ks) cs o d = elim (Bool-cases (k == n)) [
  | inl e ↦ rw e o
  | inr e ↦
      rw e (elsewhere_stop n (next_cell k) q ks cs (d k (ground arith)) (λ j f. d j (ground arith)))
]

Linked-remove-Off :
    (n : ℕ) (u : Uhash) (p q : Cell) (cs : List ℕ)
    → Off p q cs
    → Linked u q cs
    → Linked (remove_at n u p) q cs
Linked-remove-Off n u p q [] o l = rw (read-remove_at n u p q o.0) l
Linked-remove-Off n u p q (k ∷ cs) o l = (
  rw (read-remove_at n u p q o.0) l.0,
  Linked-remove-Off n u p (next_cell k) cs (among-cons p k cs o.1) l.1,
)

-- Appending `n` to one chain succeeds, with enough rounds, and leaves every chain elsewhere alone.
pub add_walk-Linked :
    (fuel n : ℕ) (u : Uhash) (p : Cell) (ks : List ℕ)
    → length ks < fuel
    → Distinct p ks
    → Off (next_cell n) p ks
    → Linked u p ks
    → (u' : Uhash) × (add_walk fuel n u p ≡ some u')
      × Linked u' p (ks ++ n ∷ [])
      × ((q : Cell) (cs : List ℕ)
          → Off p q cs
          → Off (next_cell n) q cs
          → ((k : ℕ) → elem k ks ≡ true → Off (next_cell k) q cs)
          → Linked u q cs
          → Linked u' q cs)
      × (u'.userid ≡ u.userid)
      × (u'.number ≡ u.number)
unfolding add_walk add_at
add_walk-Linked fuel n u p ks h d o l =
    let z = last_cell p ks in
    (
      add_at n u z,
      rw (walk_end-Linked fuel u p ks h l, add_walk),
      Linked-add u n p ks d o l,
      λ q cs op on ok lq.
          Linked-write (write u z (some n)) (next_cell n) q none cs on
            (Linked-write u z q (some n) cs (elsewhere p q ks cs op ok) lq),
      (kept_write (write u z (some n)) (next_cell n) none).0 ∙ (kept_write u z (some n)).0,
      (kept_write (write u z (some n)) (next_cell n) none).1 ∙ (kept_write u z (some n)).1,
    )

-- Taking `n` out of one chain, likewise.
pub remove_walk-Linked :
    (fuel n : ℕ) (u : Uhash) (p : Cell) (ks : List ℕ)
    → length ks < fuel
    → Distinct p ks
    → Linked u p ks
    → (u' : Uhash) × (remove_walk fuel n u p ≡ some u')
      × Linked u' p (erase n ks)
      × ((q : Cell) (cs : List ℕ)
          → Off p q cs
          → ((k : ℕ) → elem k ks ≡ true → Off (next_cell k) q cs)
          → Linked u q cs
          → Linked u' q cs)
      × (u'.userid ≡ u.userid)
      × (u'.number ≡ u.number)
unfolding remove_walk
remove_walk-Linked fuel n u p ks h d l =
    let z = stop_cell n p ks in
    (
      remove_at n u z,
      rw (walk_to-Linked fuel n u p ks h l, remove_walk),
      Linked-remove n u p ks d l,
      λ q cs op ok lq. Linked-remove-Off n u z q cs (elsewhere_stop n p q ks cs op ok) lq,
      (kept_remove n u z).0,
      (kept_remove n u z).1,
    )
