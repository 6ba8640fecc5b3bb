-- ===== src/Brc/Times.antt =====
-- brc_addlist and brc_unread of mbbsd/board.c on the list of times, latest first.
use openptt.Prelude.{
  ℕ, zero, suc, ◌+◌, ◌≤◌, ◌<◌, ◌≡◌, refl, ap, ◌∙◌, Bool, true, false, none, some, List, [], ◌∷◌,
  ◌++◌, inl, inr, arith, ltb, leb, ◌==◌, ◌&&◌, not, length, take, length-take, Bool-cases,
}
use openptt.Brc.{brc_maxnum, insert_time, add_time, later_loop}

-- The times fall, and stay below a bound.
abbrev pub Falls : ℕ → List ℕ → Type 0
Falls b [] = Unit {0}
Falls b (t ∷ ts) = (t < b) × Falls t ts

-- The last time of a list that is not empty.
abbrev pub earliest : ℕ → List ℕ → ℕ
earliest t [] = t
earliest t (u ∷ us) = earliest u us

earliest-le : (b t : ℕ) (ts : List ℕ) → Falls b (t ∷ ts) → earliest t ts ≤ t
earliest-le b t [] h = omega arith
earliest-le b t (u ∷ us) h = omega (arith, earliest-le t u us h.1, h.1.0)

-- The loop of brc_addlist where it stops in the list.
insert_time_lem :
    (b f t : ℕ) (ts : List ℕ)
    → Falls b (t ∷ ts)
    → f < b
    → earliest t ts ≤ f
    → (c : Bool) × (u : ℕ) × (us : List ℕ) × (insert_time f (t ∷ ts) ≡ some (c, u ∷ us))
      × Falls b (u ∷ us)
      × (length us ≤ length ts + 1)
      × ((x : ℕ) → later_loop x (u ∷ us) ≡ (later_loop x (t ∷ ts) && not (x == f)))
unfolding insert_time later_loop
insert_time_lem b f t [] h fb low = elim (Bool-cases (f == t)) [
  | inl e ↦ (false, t, [], rw (e, insert_time) refl, h, omega arith, λ x. ground arith)
  | inr e ↦
      let g : ltb t f ≡ true = ground arith in
      (
        true,
        f,
        t ∷ [],
        rw (e, g, insert_time) refl,
        (fb, (ground arith, h.1)),
        omega arith,
        λ x. ground arith,
      )
]
insert_time_lem b f t (v ∷ vs) h fb low = elim (Bool-cases (f == t)) [
  | inl e ↦ (false, t, v ∷ vs, rw (e, insert_time) refl, h, omega arith, λ x. ground arith)
  | inr e ↦ elim (Bool-cases (ltb t f)) [
    | inl g ↦ (
      true,
      f,
      t ∷ v ∷ vs,
      rw (e, g, insert_time) refl,
      (fb, (ground arith, h.1)),
      omega arith,
      λ x. ground arith,
    )
    | inr g ↦
        let (c, u, us, run, falls, short, same) = insert_time_lem t f v vs h.1 (ground arith) low in
        (
          c,
          t,
          u ∷ us,
          rw (e, g, insert_time) (rw (run, insert_time) refl),
          (h.0, falls),
          omega arith,
          λ x. ground (arith, same x),
        )
  ]
]

Falls-take : (n b : ℕ) (ts : List ℕ) → Falls b ts → Falls b (take n ts)
Falls-take zero b ts h = tt
Falls-take (suc n) b [] h = tt
Falls-take (suc n) b (t ∷ ts) h = (h.0, Falls-take n t ts h.1)

-- A list cut short forgets what is before its last time.
later_loop-take :
    (n b t : ℕ) (ts : List ℕ) (x : ℕ)
    → Falls b (t ∷ ts)
    → later_loop x (t ∷ take n ts) ≡ (later_loop x (t ∷ ts) && leb (earliest t (take n ts)) x)
unfolding later_loop
later_loop-take zero b t [] x h = ground arith
later_loop-take zero b t (u ∷ us) x h = ground arith
later_loop-take (suc n) b t [] x h = ground arith
later_loop-take (suc n) b t (u ∷ us) x h = ground (
  arith,
  later_loop-take n t u us x h.1,
  earliest-le t u (take n us) (Falls-take (suc n) t (u ∷ us) h.1),
  h.1.0,
)

-- Where the new time is not before the last one, adding it keeps the times falling and their number
-- within BRC_MAXNUM, and a post then counts as unread exactly if it did before, is not the one added,
-- and is not before the last time that is kept.
pub add_time_lem :
    (b f t : ℕ) (ts : List ℕ)
    → Falls b (t ∷ ts)
    → f < b
    → earliest t ts ≤ f
    → length ts < brc_maxnum
    → (u : ℕ) × (us : List ℕ) × ((add_time f (t ∷ ts)).1 ≡ u ∷ us)
      × Falls b (u ∷ us)
      × (length (u ∷ us) ≤ brc_maxnum)
      × ((x : ℕ)
          → later_loop x (u ∷ us)
            ≡ (later_loop x (t ∷ ts) && not (x == f) && leb (earliest u us) x))
unfolding add_time
add_time_lem b f t ts h fb low room =
    let (c, u, us, run, falls, short, same) = insert_time_lem b f t ts h fb low in
    let first : ((length ts == 0) && ltb f t) ≡ false = early b f t ts h low in
    (
      u,
      take 79 us,
      rw (add_time, first, run) refl,
      (falls.0, Falls-take 79 u us falls.1),
      omega (arith, length-take 79 us),
      λ x.
          later_loop-take 79 b u us x falls
          ∙ ap (λ (y : Bool). y && leb (earliest u (take 79 us)) x) (same x),
    )
  where
    early :
        (b f t : ℕ) (ts : List ℕ)
        → Falls b (t ∷ ts)
        → earliest t ts ≤ f
        → ((length ts == 0) && ltb f t) ≡ false
    early b f t [] h low = ground arith
    early b f t (v ∷ vs) h low = ground arith

-- The loop of brc_addlist runs to the end where the time is before all others.
insert_time-end :
    (b f t : ℕ) (ts : List ℕ) → Falls b (t ∷ ts) → f < earliest t ts → insert_time f (t ∷ ts) ≡ none
unfolding insert_time
insert_time-end b f t [] h low =
    let e : (f == t) ≡ false = ground arith in
    let g : ltb t f ≡ false = ground arith in rw (e, g, insert_time) refl
insert_time-end b f t (v ∷ vs) h low =
    let le = earliest-le b t (v ∷ vs) h in
    let e : (f == t) ≡ false = ground arith in
    let g : ltb t f ≡ false = ground arith in
    rw (e, g, insert_time) (rw (insert_time-end t f v vs h.1 low, insert_time) refl)

later_loop-before :
    (b t : ℕ) (ts : List ℕ) (x : ℕ)
    → Falls b (t ∷ ts)
    → x < earliest t ts
    → later_loop x (t ∷ ts) ≡ false
unfolding later_loop
later_loop-before b t [] x h low = ground arith
later_loop-before b t (v ∷ vs) x h low =
    ground (arith, earliest-le b t (v ∷ vs) h, later_loop-before t v vs x h.1 low)

later_loop-snoc :
    (b f t : ℕ) (ts : List ℕ) (x : ℕ)
    → Falls b (t ∷ ts)
    → f < x
    → x < earliest t ts
    → later_loop x (t ∷ (ts ++ f ∷ [])) ≡ true
unfolding later_loop
later_loop-snoc b f t [] x h low high = ground arith
later_loop-snoc b f t (v ∷ vs) x h low high =
    ground (arith, earliest-le b t (v ∷ vs) h, later_loop-snoc t f v vs x h.1 low high)

-- Where at least two times are kept and there is room, adding a time before all of them makes every
-- post between it and them unread, though they counted as read.
pub add_time-before :
    (b f t v : ℕ) (vs : List ℕ) (x : ℕ)
    → Falls b (t ∷ v ∷ vs)
    → f < x
    → x < earliest v vs
    → length (t ∷ v ∷ vs) < brc_maxnum
    → (later_loop x (t ∷ v ∷ vs) ≡ false) × (later_loop x (add_time f (t ∷ v ∷ vs)).1 ≡ true)
unfolding add_time
add_time-before b f t v vs x h low high room = (
  later_loop-before b t (v ∷ vs) x h high,
  let space : ltb (length (t ∷ v ∷ vs)) brc_maxnum ≡ true = ground arith in
      let many : (length (v ∷ vs) == 0) ≡ false = ground arith in
      rw (add_time, many, insert_time-end b f t (v ∷ vs) h (omega arith), space)
        (later_loop-snoc b f t (v ∷ vs) x h low high),
)
