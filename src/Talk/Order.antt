-- ===== src/Talk/Order.antt =====
-- pickup_cmp of mbbsd/talk.c is an order that qsort can work with.
use openptt.Prelude.{
  ℕ, Bool, true, false, [], ◌∷◌, ◌≡◌, refl, ◌==◌, arith, Bool-cases, inl, inr, if◌then◌else◌, ℤ,
  pos, negsuc, sub_int, ◌-ℤ◌, neg, not, ◌&&◌,
}
use openptt.Prelude.Bytes.{Bytes, tolower}
use openptt.Talk.Pickup.{Picked, strcasecmp, pickup_cmp}

sub_int-neg : (a b : ℕ) → sub_int a b ≡ neg (sub_int b a)
sub_int-neg a b = ground arith

minus-neg : (a b : ℤ) → a -ℤ b ≡ neg (b -ℤ a)
minus-neg (pos a) (pos b) = sub_int-neg a b
minus-neg (pos a) (negsuc b) = ground arith
minus-neg (negsuc a) (pos b) = ground arith
minus-neg (negsuc a) (negsuc b) = sub_int-neg b a

strcasecmp-neg : (s t : Bytes) → strcasecmp s t ≡ neg (strcasecmp t s)
unfolding strcasecmp
strcasecmp-neg [] [] = refl
strcasecmp-neg [] (b ∷ t) = ground arith
strcasecmp-neg (a ∷ s) [] = ground arith
strcasecmp-neg (a ∷ s) (b ∷ t) = ground (arith, strcasecmp-neg s t)

-- In each of the orders the comparison of two entries the other way round has the opposite sign and
-- the same size.
pub pickup_cmp-neg : (way : ℕ) (i j : Picked) → pickup_cmp way i j ≡ neg (pickup_cmp way j i)
unfolding pickup_cmp
pickup_cmp-neg way i j = ground (
  arith,
  strcasecmp-neg i.ui.userid j.ui.userid,
  strcasecmp-neg i.ui.from j.ui.from,
  minus-neg i.idle j.idle,
  sub_int-neg i.ui.mode j.ui.mode,
  sub_int-neg j.friend i.friend,
)

-- a <= 0
abbrev pub at_most_zero : ℤ → Bool
at_most_zero (pos n) = n == 0
at_most_zero (negsuc n) = true

-- A C string has no zero byte.
abbrev pub no_zero : Bytes → Bool
no_zero [] = true
no_zero (c ∷ s) = not (c == 0) && no_zero s

tolower-pos : (c : ℕ) → (c == 0) ≡ false → (tolower c == 0) ≡ false
unfolding tolower
tolower-pos c h = ground arith

sub_int_trans :
    (a b c : ℕ)
    → at_most_zero (sub_int a b) ≡ true
    → at_most_zero (sub_int b c) ≡ true
    → at_most_zero (sub_int a c) ≡ true
sub_int_trans a b c p q = ground arith

first_trans :
    (x y z : ℕ) (st tu su : ℤ)
    → (at_most_zero st ≡ true → at_most_zero tu ≡ true → at_most_zero su ≡ true)
    → at_most_zero (if x == y then st else sub_int x y) ≡ true
    → at_most_zero (if y == z then tu else sub_int y z) ≡ true
    → at_most_zero (if x == z then su else sub_int x z) ≡ true
first_trans x y z st tu su h p q = elim (Bool-cases (x == y)) [
  | inl e ↦ elim (Bool-cases (y == z)) [
    | inl f ↦ let g : (x == z) ≡ true = ground arith in rw g (h (rw e at p) (rw f at q))
    | inr f ↦
        let g : (x == z) ≡ false = ground arith in
        let q' : at_most_zero (sub_int y z) ≡ true = rw f at q in rw g (ground arith)
  ]
  | inr e ↦
      let p' : at_most_zero (sub_int x y) ≡ true = rw e at p in
      elim (Bool-cases (y == z)) [
        | inl f ↦ let g : (x == z) ≡ false = ground arith in rw g (ground arith)
        | inr f ↦
            let q' : at_most_zero (sub_int y z) ≡ true = rw f at q in
            let g : (x == z) ≡ false = ground arith in rw g (sub_int_trans x y z p' q')
      ]
]

strcasecmp_trans :
    (s t u : Bytes)
    → no_zero s ≡ true
    → no_zero t ≡ true
    → no_zero u ≡ true
    → at_most_zero (strcasecmp s t) ≡ true
    → at_most_zero (strcasecmp t u) ≡ true
    → at_most_zero (strcasecmp s u) ≡ true
unfolding strcasecmp
strcasecmp_trans [] t [] a b c p q = refl
strcasecmp_trans [] t (z ∷ u) a b c p q = ground arith
strcasecmp_trans (x ∷ s) [] u a b c p q = absurd (ground (arith, tolower-pos x))
strcasecmp_trans (x ∷ s) (y ∷ t) [] a b c p q = absurd (ground (arith, tolower-pos y))
strcasecmp_trans (x ∷ s) (y ∷ t) (z ∷ u) a b c p q =
    first_trans (tolower x) (tolower y) (tolower z) (strcasecmp s t) (strcasecmp t u)
      (strcasecmp s u) (strcasecmp_trans s t u (ground arith) (ground arith) (ground arith)) p q

minus_trans :
    (a b c : ℤ)
    → at_most_zero (a -ℤ b) ≡ true
    → at_most_zero (b -ℤ c) ≡ true
    → at_most_zero (a -ℤ c) ≡ true
minus_trans (pos a) (pos b) (pos c) p q = ground arith
minus_trans (pos a) (pos b) (negsuc c) p q = ground arith
minus_trans (pos a) (negsuc b) c p q = absurd (ground arith)
minus_trans (negsuc a) b (pos c) p q = refl
minus_trans (negsuc a) (pos b) (negsuc c) p q = absurd (ground arith)
minus_trans (negsuc a) (negsuc b) (negsuc c) p q = ground arith

-- The strings of an entry.
pub record IsPicked (p : Picked) : Type 0 where
  pub userid : no_zero p.ui.userid ≡ true
  pub from : no_zero p.ui.from ≡ true

-- The order by friendship has the greater numbers first.
friends_trans :
    (i j k : Picked) (ij jk ik : ℤ)
    → (at_most_zero ij ≡ true → at_most_zero jk ≡ true → at_most_zero ik ≡ true)
    → at_most_zero (if j.friend == i.friend then ij else sub_int j.friend i.friend) ≡ true
    → at_most_zero (if k.friend == j.friend then jk else sub_int k.friend j.friend) ≡ true
    → at_most_zero (if k.friend == i.friend then ik else sub_int k.friend i.friend) ≡ true
friends_trans i j k ij jk ik h p q =
    first_trans k.friend j.friend i.friend jk ij ik (λ x y. h y x) q p

-- Each order of pickup_cmp is transitive.
pub pickup_cmp_trans :
    (way : ℕ) (i j k : Picked)
    → IsPicked i
    → IsPicked j
    → IsPicked k
    → at_most_zero (pickup_cmp way i j) ≡ true
    → at_most_zero (pickup_cmp way j k) ≡ true
    → at_most_zero (pickup_cmp way i k) ≡ true
unfolding pickup_cmp
pickup_cmp_trans way i j k a b c p q = elim (Bool-cases (way == 0)) [
  | inl e ↦ rw e (
      friends_trans i j k (strcasecmp i.ui.userid j.ui.userid) (strcasecmp j.ui.userid k.ui.userid)
        (strcasecmp i.ui.userid k.ui.userid)
        (strcasecmp_trans i.ui.userid j.ui.userid k.ui.userid a.userid b.userid c.userid)
        (rw e at p) (rw e at q))
  | inr e ↦ elim (Bool-cases (way == 1)) [
    | inl f ↦
        rw (e, f)
          (strcasecmp_trans i.ui.userid j.ui.userid k.ui.userid a.userid b.userid c.userid
            (rw (e, f) at p) (rw (e, f) at q))
    | inr f ↦ elim (Bool-cases (way == 2)) [
      | inl g ↦
          rw (e, f, g)
            (sub_int_trans i.ui.mode j.ui.mode k.ui.mode (rw (e, f, g) at p) (rw (e, f, g) at q))
      | inr g ↦ elim (Bool-cases (way == 3)) [
        | inl h ↦
            rw (e, f, g, h)
              (minus_trans i.idle j.idle k.idle (rw (e, f, g, h) at p) (rw (e, f, g, h) at q))
        | inr h ↦ elim (Bool-cases (way == 4)) [
          | inl l ↦
              rw (e, f, g, h, l)
                (strcasecmp_trans i.ui.from j.ui.from k.ui.from a.from b.from c.from
                  (rw (e, f, g, h, l) at p) (rw (e, f, g, h, l) at q))
          | inr l ↦ rw (e, f, g, h, l) refl
        ]
      ]
    ]
  ]
]
