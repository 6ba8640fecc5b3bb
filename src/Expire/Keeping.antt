-- ===== src/Expire/Keeping.antt =====
-- Which posts expire of util/expire.c leaves.
use openptt.Prelude.{
  ℕ, zero, suc, ◌-◌, ◌*◌, ◌≤◌, Bool, true, false, List, [], ◌∷◌, ◌≡◌, refl, ◌&&◌, ◌||◌, not, ◌⊎◌,
  none, some, leb, if◌then◌else◌, ltb, length, drop, arith, Bool-cases, inl, inr,
}
use openptt.Boards.{has_bit}
use openptt.Screen.Colours.{atoi}
use openptt.Expire.{
  Answers, Life, Header, file_marked, is_cancelled, keeps, is_read, expire_loop, expire,
}

pub filter : (Header → Bool) → List Header → List Header
filter p [] = []
filter p (h ∷ hs) = if p h then h ∷ filter p hs else filter p hs

-- Not cancelled, and marked or, where there are `few` posts, not old.
abbrev pub is_sure : (few : Bool) → (duetime : ℕ) → Header → Bool
is_sure few duetime h =
    not (is_cancelled h.owner)
    && (has_bit h.filemode file_marked || (few && not (ltb (atoi (drop 2 h.filename)) duetime)))

sure-keeps :
    (brd : Life) (few : Bool) (duetime total : ℕ) (h : Header)
    → (few ≡ true → total ≤ brd.maxp)
    → is_sure few duetime h ≡ true
    → keeps brd duetime total h ≡ true
unfolding keeps
sure-keeps brd true duetime total h le m = let few : total ≤ brd.maxp = le refl in ground arith
sure-keeps brd false duetime total h le m = ground arith

not_sure :
    (brd : Life) (few : Bool) (duetime total : ℕ) (h : Header)
    → (few ≡ true → total ≤ brd.maxp)
    → keeps brd duetime total h ≡ false
    → is_sure few duetime h ≡ false
not_sure brd few duetime total h le e = elim (Bool-cases (is_sure few duetime h)) [
  | inl s ↦ cc (sure-keeps brd few duetime total h le s)
  | inr s ↦ s
]

-- A loop that ends without a failing write has kept the posts that are sure to stay.
loop-filter :
    (writes : ℕ) (brd : Life) (few : Bool) (duetime total : ℕ) (hs : List Header)
    → (few ≡ true → total ≤ brd.maxp)
    → (expire_loop writes brd duetime total hs).complete ≡ true
    → filter (is_sure few duetime) (expire_loop writes brd duetime total hs).kept
      ≡ filter (is_sure few duetime) hs
unfolding expire_loop filter
loop-filter writes brd few duetime total [] le c = refl
loop-filter zero brd few duetime total (h ∷ hs) le c =
    elim (Bool-cases (keeps brd duetime total h)) [
      | inl e ↦ cc (rw (expire_loop, e) at c)
      | inr e ↦
          rw (expire_loop, e)
            (rw (not_sure brd few duetime total h le e) (
              loop-filter zero brd few duetime (total - 1) hs (λ f. omega (arith, le f))
                (rw (expire_loop, e) at c)))
    ]
loop-filter (suc writes) brd few duetime total (h ∷ hs) le c =
    elim (Bool-cases (keeps brd duetime total h)) [
      | inl e ↦
          rw (expire_loop, e)
            (rw (loop-filter writes brd few duetime total hs le (rw (expire_loop, e) at c)) refl)
      | inr e ↦
          rw (expire_loop, e)
            (rw (not_sure brd few duetime total h le e) (
              loop-filter (suc writes) brd few duetime (total - 1) hs (λ f. omega (arith, le f))
                (rw (expire_loop, e) at c)))
    ]

-- Whether or not the new file can be opened, a write fails or a rename fails, expire leaves a directory,
-- unless the rename of the old one is done and that of the new one fails. Of the posts that are not
-- cancelled, the directory left has all that are marked and, if there were at most maxp posts, all that
-- are not older than the days allowed, in their order.
pub expire-filter :
    (a : Answers) (now : ℕ) (brd : Life) (index : List Header)
    → let duetime = now - brd.days * 24 * 60 * 60 in
      let sure = is_sure (leb (length index) brd.maxp) duetime in
      (((expire a now brd index).0 ≡ none) × (a.renames_old ≡ true) × (a.renames_new ≡ false))
      ⊎ ((after : List Header) × ((expire a now brd index).0 ≡ some after)
          × (filter sure after ≡ filter sure index))
unfolding expire
expire-filter a now brd index =
    let duetime = now - brd.days * 24 * 60 * 60 in
    let r = expire_loop a.writes brd duetime (length index) index in
    elim (Bool-cases (a.new_opens && is_read index && r.complete && a.renames_old)) [
      | inl done ↦
          let opens : a.new_opens ≡ true = ground arith in
          let whole : (is_read index && r.complete) ≡ true = ground arith in
          let old : a.renames_old ≡ true = ground arith in
          elim (Bool-cases a.renames_new) [
            | inl new ↦ inr (
              r.kept,
              rw (opens, whole, old, new) refl,
              loop-filter a.writes brd (leb (length index) brd.maxp) duetime (length index) index
                  (λ few. ground arith) (ground arith),
            )
            | inr new ↦ inl (rw (opens, whole, old, new) refl, old, new)
          ]
      | inr stays ↦ inr (index, ground arith, refl)
    ]
