-- ===== src/Talk/Searching.antt =====
-- search_pickup of mbbsd/talk.c: the search goes round the list once.
use openptt.Prelude.{
  ◌∙◌, ℕ, zero, suc, ◌+◌, ◌-◌, ◌<◌, ◌%◌, Bool, true, false, some, none, ◌≡◌, ◌≢◌, refl, ◌==◌, ◌&&◌,
  ◌||◌, arith, Bool-cases, inl, inr, if◌then◌else◌, ◌⊎◌, leb, ltb,
}
use mathlib.Core.Path.{subst}
use native.Mathlib.Nat.{mod_self, mod-eq_of_lt}
use openptt.Prelude.Bytes.{Bytes, str_eq}
use openptt.Talk.{is_nameless}
use openptt.Talk.Pickup.{search_loop, search_pickup}

-- The places from `n` on, round the end of the list, before `num`.
abbrev pub on_path : (n num k : ℕ) → Bool
on_path n num k = if leb n num then leb n k && ltb k num else leb n k || ltb k num

abbrev pub next : (n actor : ℕ) → ℕ
next n actor = if leb actor (n + 1) then 0 else n + 1

abbrev dist : (n num actor : ℕ) → ℕ
dist n num actor = if leb n num then num - n else actor - n + num

path_step :
    (n num actor k : ℕ)
    → n < actor
    → k < actor
    → n ≢ num
    → n ≢ k
    → on_path n num k ≡ true
    → on_path (next n actor) num k ≡ true
path_step n num actor k h l ne other on = ground arith

dist_step :
    (n num actor : ℕ)
    → n < actor
    → num < actor
    → n ≢ num
    → dist (next n actor) num actor < dist n num actor
dist_step n num actor h l ne = ground arith

abbrev matches : (ids : ℕ → Bytes) → Bytes → ℕ → Bool
matches ids name k = str_eq (ids k) name

-- None of the places from `n` on before `num` has the name.
abbrev pub NoneFrom : (n num actor : ℕ) → (ids : ℕ → Bytes) → Bytes → Type 0
NoneFrom n num actor ids name =
    (k : ℕ) → k < actor → on_path n num k ≡ true → str_eq (ids k) name ≡ false

NoneFrom-next :
    (n num actor : ℕ) (name : Bytes) (ids : ℕ → Bytes)
    → n < actor
    → n ≢ num
    → str_eq (ids n) name ≡ false
    → NoneFrom (next n actor) num actor ids name
    → NoneFrom n num actor ids name
NoneFrom-next n num actor name ids h ne other rest k lt on = elim (Bool-cases (n == k)) [
  | inl e ↦ let same : n ≡ k = ground arith in subst (λ j. str_eq (ids j) name ≡ false) same other
  | inr e ↦ rest k lt (path_step n num actor k h lt ne (ground arith) on)
]

path_back :
    (n num actor k : ℕ)
    → n < actor
    → k < actor
    → num < actor
    → n ≢ num
    → on_path (next n actor) num k ≡ true
    → on_path n num k ≡ true
path_back n num actor k h l m ne on = ground arith

found_ne :
    (n k : ℕ) (name : Bytes) (ids : ℕ → Bytes)
    → str_eq (ids n) name ≡ false
    → str_eq (ids k) name ≡ true
    → n ≢ k
found_ne n k name ids other found e = cc (subst (λ j. str_eq (ids j) name ≡ false) e other, found)

search_loop-NoneFrom :
    (fuel n num actor : ℕ) (name : Bytes) (ids : ℕ → Bytes)
    → n < actor
    → num < actor
    → dist n num actor < fuel
    → ((search_loop fuel n num actor name ids ≡ some none) × NoneFrom n num actor ids name)
      ⊎ ((k : ℕ) × (search_loop fuel n num actor name ids ≡ some (some k))
          × (k < actor)
          × (on_path n num k ≡ true)
          × (str_eq (ids k) name ≡ true)
          × NoneFrom n k actor ids name)
unfolding search_loop
search_loop-NoneFrom zero n num actor name ids h l d = absurd (omega arith)
search_loop-NoneFrom (suc fuel) n num actor name ids h l d = elim (Bool-cases (n == num)) [
  | inl here ↦ inl (rw here refl, λ k lt on. absurd (ground arith))
  | inr more ↦ elim (Bool-cases (str_eq (ids n) name)) [
    | inl found ↦
        inr (n, rw (more, found) refl, h, ground arith, found, λ k lt on. absurd (ground arith))
    | inr other ↦
        elim (search_loop-NoneFrom fuel (next n actor) num actor name ids (ground arith) l
          (omega (arith, dist_step n num actor h l (ground arith)))) [
            | inl (run, none_there) ↦ inl (
              rw (more, other) run,
              NoneFrom-next n num actor name ids h (ground arith) other none_there,
            )
            | inr (k, run, lt, on, found, before) ↦ inr (
              k,
              rw (more, other) run,
              lt,
              path_back n num actor k h lt l (ground arith) on,
              found,
              NoneFrom-next n k actor name ids h (found_ne n k name ids other found) other before,
            )
          ]
  ]
]

-- Where the search begins.
start_lem : (num actor : ℕ) → num < actor → (num + 1) % actor ≡ next num actor
start_lem num actor h = elim (Bool-cases (leb actor (num + 1))) [
  | inl e ↦ let last : num + 1 ≡ actor = ground arith in rw e (rw last (mod_self actor))
  | inr e ↦ rw e (mod-eq_of_lt (ground arith))
]

start_dist : (num actor : ℕ) → num < actor → dist (next num actor) num actor < actor
start_dist num actor h = ground arith

start_path :
    (num actor k : ℕ) → num < actor → k < actor → k ≢ num → on_path (next num actor) num k ≡ true
start_path num actor k h l ne = ground arith

search_begun :
    (num actor : ℕ) (name : Bytes) (ids : ℕ → Bytes)
    → num < actor
    → is_nameless name ≡ false
    → search_pickup num actor name ids ≡ search_loop actor (next num actor) num actor name ids
unfolding search_pickup
search_begun num actor name ids h named = rw named (rw (start_lem num actor h))

-- For a place in the list search_pickup ends within one round for each user. With an empty name it gives
-- -1. With another it finds the first user with the name behind that place, going round the end of the
-- list, and gives -1 only if no other place has the name.
pub search_pickup_lem :
    (num actor : ℕ) (name : Bytes) (ids : ℕ → Bytes)
    → num < actor
    → ((search_pickup num actor name ids ≡ some none)
        × ((is_nameless name ≡ true)
            ⊎ ((k : ℕ) → k < actor → k ≢ num → str_eq (ids k) name ≡ false)))
      ⊎ ((k : ℕ) × (search_pickup num actor name ids ≡ some (some k))
          × (is_nameless name ≡ false)
          × (k < actor)
          × (k ≢ num)
          × (str_eq (ids k) name ≡ true)
          × NoneFrom (next num actor) k actor ids name)
search_pickup_lem num actor name ids h = elim (Bool-cases (is_nameless name)) [
  | inl empty ↦ inl (unfold search_pickup in rw empty refl, inl empty)
  | inr named ↦
      elim (search_loop-NoneFrom actor (next num actor) num actor name ids (ground arith) h
        (start_dist num actor h)) [
          | inl (run, rest) ↦ inl (
            search_begun num actor name ids h named ∙ run,
            inr (λ k lt ne. rest k lt (start_path num actor k h lt ne)),
          )
          | inr (k, run, lt, on, found, before) ↦ inr (
            k,
            search_begun num actor name ids h named ∙ run,
            named,
            lt,
            λ e. ground (arith, on),
            found,
            before,
          )
        ]
]
