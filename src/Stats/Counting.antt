-- ===== src/Stats/Counting.antt =====
-- search of util/poststat.c adds up the posts of each title of a board.
use mathlib.Core.Path.{subst}
use openptt.Prelude.{
  ℕ, ◌+◌, Bool, true, false, List, [], ◌∷◌, ◌==◌, ◌&&◌, if◌then◌else◌, ◌≡◌, refl, arith, Bool-cases,
  inl, inr, ap, sym,
}
use openptt.Prelude.Bytes.{Bytes, str_eq, str_eq→eq, str_eq_refl}
use openptt.Stats.{Post, Buckets, hash, bump, search, search_all, is_same}

-- The record is about the title on the board.
abbrev pub is_about : (title board : Bytes) → Post → Bool
is_about title board p = str_eq p.title title && str_eq p.board board

-- The number of the first record about them in a chain.
unfoldable pub number_in : (title board : Bytes) → List Post → ℕ
number_in title board [] = 0
number_in title board (p ∷ chain) =
    if is_about title board p then p.number else number_in title board chain

-- How many posts a record adds to them.
abbrev pub adds : (title board : Bytes) → Post → ℕ
adds title board t = if is_about title board t then t.number else 0

same_about :
    (title board : Bytes) (p t : Post)
    → is_same p t ≡ true
    → is_about title board p ≡ is_about title board t
same_about title board p t h =
    let titles : p.title ≡ t.title = str_eq→eq p.title t.title (ground arith) in
    let boards : p.board ≡ t.board = str_eq→eq p.board t.board (ground arith) in
    rw (titles, boards) refl

both_about :
    (title board : Bytes) (p t : Post)
    → is_about title board p ≡ true
    → is_about title board t ≡ true
    → is_same p t ≡ true
both_about title board p t h k =
    let e1 : p.title ≡ title = str_eq→eq p.title title (ground arith) in
    let e2 : p.board ≡ board = str_eq→eq p.board board (ground arith) in
    let e3 : t.title ≡ title = str_eq→eq t.title title (ground arith) in
    let e4 : t.board ≡ board = str_eq→eq t.board board (ground arith) in
    rw (e1, e2, e3, e4, str_eq_refl title, str_eq_refl board) refl

number_in-bump :
    (title board : Bytes) (t : Post) (chain : List Post)
    → number_in title board (bump t chain) ≡ number_in title board chain + adds title board t
unfolding bump number_in
number_in-bump title board t [] = ground arith
number_in-bump title board t (p ∷ chain) = elim (Bool-cases (is_same p t)) [
  | inl e ↦ rw e (ground (arith, same_about title board p t e))
  | inr e ↦ rw e (ground (arith, number_in-bump title board t chain, both_about title board p t))
]

-- The bucket where the title belongs.
abbrev pub count_of : (title board : Bytes) → Buckets → ℕ
count_of title board bucket = number_in title board (bucket (hash title))

hash_ne : (s t : Bytes) → (hash s == hash t) ≡ false → s ≡ t → ⊥
hash_ne s t h e = let same : hash s ≡ hash t = ap hash e in ground arith

count_of-search :
    (title board : Bytes) (t : Post) (bucket : Buckets)
    → count_of title board (search t bucket) ≡ count_of title board bucket + adds title board t
unfolding search
count_of-search title board t bucket = elim (Bool-cases (hash t.title == hash title)) [
  | inl e ↦
      let same : hash t.title ≡ hash title = ground arith in
      rw e (
        subst
          (λ h.
            number_in title board (bump t (bucket h))
            ≡ number_in title board (bucket (hash title)) + adds title board t)
          (sym same) (number_in-bump title board t (bucket (hash title))))
  | inr e ↦ elim (Bool-cases (is_about title board t)) [
    | inl f ↦ absurd (hash_ne t.title title e (str_eq→eq t.title title (ground arith)))
    | inr f ↦ rw (e, f) (omega arith)
  ]
]

-- The posts that a list of records adds.
unfoldable pub sum_of : (title board : Bytes) → List Post → ℕ
sum_of title board [] = 0
sum_of title board (t ∷ ts) = adds title board t + sum_of title board ts

-- Whatever titles share a bucket, after all records have been searched for, the number kept for a
-- title on a board is what was kept before and the sum of the numbers of the records about it.
pub count_of-search_all :
    (title board : Bytes) (ts : List Post) (bucket : Buckets)
    → count_of title board (search_all ts bucket)
      ≡ count_of title board bucket + sum_of title board ts
unfolding search_all sum_of
count_of-search_all title board [] bucket = omega arith
count_of-search_all title board (t ∷ ts) bucket = omega (
  arith,
  count_of-search_all title board ts (search t bucket),
  count_of-search title board t bucket,
)
