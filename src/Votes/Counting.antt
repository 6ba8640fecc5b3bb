-- ===== src/Votes/Counting.antt =====
-- b_count and same of mbbsd/vote.c.
use openptt.Prelude.{
  ℕ, ◌+◌, ◌-◌, ◌<◌, ◌≡◌, refl, ap, ◌∙◌, Bool, true, false, List, [], ◌∷◌, ◌++◌, arith, inl, inr,
  Bool-cases, leb, ◌==◌, if◌then◌else◌, ◌||◌, length, get_or, set, replicate, length-set,
  get_or-set, length-replicate, get_or-replicate, get_or-set_other,
}
use openptt.Prelude.Bytes.{Bytes}
use openptt.Votes.{count_votes, votes_total, b_count, same_loop, same}

-- How often a byte is in a text.
abbrev pub occurrences : ℕ → Bytes → ℕ
occurrences c [] = 0
occurrences c (b ∷ s) = if b == c then occurrences c s + 1 else occurrences c s

count_votes_lem :
    (s : Bytes) (counts : List ℕ) (k : ℕ)
    → k < length counts
    → get_or (count_votes s counts) k 0 ≡ get_or counts k 0 + occurrences (b'A' + k) s
unfolding count_votes
count_votes_lem [] counts k h = omega arith
count_votes_lem (c ∷ s) counts k h = elim (Bool-cases (leb b'A' c)) [
  | inl e ↦
      let j = c - b'A' in
      let more = get_or counts j 0 + 1 in
      let rest =
        count_votes_lem s (set counts j more) k (omega (arith, length-set counts j more)) in
      elim (Bool-cases (k == j)) [
        | inl q ↦
            let it : (c == b'A' + k) ≡ true = ground arith in
            let same_place : get_or counts j 0 ≡ get_or counts k 0 =
              ap (λ n. get_or counts n 0) (ground arith) in
            let now : get_or (set counts j more) k 0 ≡ more =
              ground (arith, get_or-set counts j k more (ground arith)) in
            rw (e, it) (rest ∙ omega (arith, now, same_place))
        | inr q ↦
            let it : (c == b'A' + k) ≡ false = ground arith in
            rw (e, it)
              (rest ∙ ap (λ n. n + occurrences (b'A' + k) s) (get_or-set_other counts j k more 0 q))
      ]
  | inr e ↦
      let it : (c == b'A' + k) ≡ false = ground arith in rw (e, it) (count_votes_lem s counts k h)
]

votes_total-length : (s : Bytes) → votes_total s ≡ length s
unfolding votes_total
votes_total-length [] = refl
votes_total-length (c ∷ s) = omega (arith, votes_total-length s)

-- b_count counts for each of the 31 letters from A on how often it is in the file, and in all its bytes.
pub b_count_lem :
    (file : Bytes) (k : ℕ)
    → k < 31
    → (get_or (b_count file).0 k 0 ≡ occurrences (b'A' + k) file) × ((b_count file).1 ≡ length file)
unfolding b_count
b_count_lem file k h = (
  count_votes_lem file (replicate 31 0) k (omega (arith, length-replicate {A = ℕ} 31 0))
      ∙ ap (λ n. n + occurrences (b'A' + k) file) (get_or-replicate 31 k 0)
      ∙ omega arith,
  votes_total-length file,
)

abbrev pub contains : ℕ → Bytes → Bool
contains c [] = false
contains c (b ∷ s) = (c == b) || contains c s

-- A text without the first of a byte.
abbrev pub erase : ℕ → Bytes → Bytes
erase c [] = []
erase c (b ∷ s) = if c == b then s else b ∷ erase c s

-- Once found, the rest moves up.
same_loop-found :
    (c : ℕ) (x z : ℕ) (s : Bytes) → same_loop c true (x ∷ (s ++ z ∷ [])) ≡ (true, s ++ (z ∷ z ∷ []))
unfolding same_loop
same_loop-found c x z [] = refl
same_loop-found c x z (y ∷ s) = ap (λ (r : Bool × Bytes). (r.0, y ∷ r.1)) (same_loop-found c y z s)

-- same says whether a byte is in a list, and takes the first one out, so that the cell behind the list
-- is there once more.
pub same_lem :
    (c z : ℕ) (s : Bytes)
    → same c (s ++ z ∷ [])
      ≡ (if contains c s then (true, erase c s ++ (z ∷ z ∷ [])) else (false, s ++ z ∷ []))
unfolding same_loop
same_lem c z [] = refl
same_lem c z (x ∷ []) = elim (Bool-cases (c == x)) [ inl e ↦ rw e refl | inr e ↦ rw e refl ]
same_lem c z (x ∷ y ∷ s) = elim (Bool-cases (c == x)) [
  | inl e ↦ rw e (ap (λ (r : Bool × Bytes). (r.0, y ∷ r.1)) (same_loop-found c y z s))
  | inr e ↦ rw e (
      ap (λ (r : Bool × Bytes). (r.0, x ∷ r.1)) (same_lem c z (y ∷ s))
      ∙ elim (Bool-cases (contains c (y ∷ s))) [ inl g ↦ rw g refl | inr g ↦ rw g refl ])
]
