-- ===== src/Expire/Bounds.antt =====
-- How many posts expire of util/expire.c leaves.
use Prim.Native.Nat.{min, max}
use openptt.Prelude.{
  ℕ, zero, suc, ◌+◌, ◌-◌, ◌*◌, ◌<◌, ◌≤◌, true, false, List, [], ◌∷◌, some, ◌≡◌, refl, if◌then◌else◌,
  leb, length, arith, Bool-cases, inl, inr, ◌⊎◌,
}
use openptt.Boards.{has_bit}
use openptt.Expire.{
  Answers, Life, Header, Expired, file_marked, is_cancelled, keeps, expire_loop, expire,
}

abbrev pub AllMarked : List Header → Type 0
AllMarked [] = Unit {0}
AllMarked (h ∷ hs) = (has_bit h.filemode file_marked ≡ true) × AllMarked hs

abbrev pub cancelled : List Header → ℕ
cancelled [] = 0
cancelled (h ∷ hs) = (if is_cancelled h.owner then 1 else 0) + cancelled hs

-- What is kept above the greatest number is marked.
kept-marked :
    (brd : Life) (duetime total : ℕ) (h : Header)
    → max brd.minp brd.maxp < total
    → keeps brd duetime total h ≡ true
    → has_bit h.filemode file_marked ≡ true
unfolding keeps
kept-marked brd duetime total h more k = ground arith

-- What goes is cancelled, or there are more than the least number.
gone-more :
    (brd : Life) (duetime total : ℕ) (h : Header)
    → keeps brd duetime total h ≡ false
    → (is_cancelled h.owner ≡ true) ⊎ (brd.minp < total)
unfolding keeps
gone-more brd duetime total h k = elim (Bool-cases (is_cancelled h.owner)) [
  | inl e ↦ inl e
  | inr e ↦ inr (ground arith)
]

cancelled-gone :
    (brd : Life) (duetime total : ℕ) (h : Header)
    → keeps brd duetime total h ≡ true
    → is_cancelled h.owner ≡ false
unfolding keeps
cancelled-gone brd duetime total h k = ground arith

-- What is said of the loop on `hs`, with `before` headers kept before.
pub record IsBounded (before : ℕ) (brd : Life) (hs : List Header) (r : Expired) : Type 0 where
  pub complete : r.complete ≡ true
  pub most : (before + length r.kept ≤ max brd.minp brd.maxp) ⊎ AllMarked r.kept
  pub least : min brd.minp (before + length hs) ≤ before + length r.kept + cancelled hs
  pub all : length r.kept + length r.unlinked ≡ length hs
  pub none_cancelled : cancelled r.kept ≡ 0

most_keep :
    (before total : ℕ) (brd : Life) (duetime : ℕ) (h : Header) (kept : List Header) (n : ℕ)
    → total ≡ before + suc n
    → length kept ≤ n
    → keeps brd duetime total h ≡ true
    → (((before + 1) + length kept ≤ max brd.minp brd.maxp) ⊎ AllMarked kept)
    → ((before + length (h ∷ kept) ≤ max brd.minp brd.maxp) ⊎ AllMarked (h ∷ kept))
most_keep before total brd duetime h kept n t l k (inl few) = inl (omega arith)
most_keep before total brd duetime h kept n t l k (inr marked) =
    elim (Bool-cases (leb (before + length (h ∷ kept)) (max brd.minp brd.maxp))) [
      | inl e ↦ inl (ground arith)
      | inr e ↦ inr (kept-marked brd duetime total h (ground arith) k, marked)
    ]

least_drop :
    (before total : ℕ) (brd : Life) (duetime : ℕ) (h : Header) (hs : List Header) (n : ℕ)
    → total ≡ before + length (h ∷ hs)
    → keeps brd duetime total h ≡ false
    → min brd.minp (before + length hs) ≤ before + n + cancelled hs
    → min brd.minp (before + length (h ∷ hs)) ≤ before + n + cancelled (h ∷ hs)
least_drop before total brd duetime h hs n t k le = elim (gone-more brd duetime total h k) [
  | inl e ↦ rw e (omega arith)
  | inr more ↦ omega arith
]

loop_bounds :
    (writes before total : ℕ) (brd : Life) (duetime : ℕ) (hs : List Header)
    → total ≡ before + length hs
    → length hs ≤ writes
    → IsBounded before brd hs (expire_loop writes brd duetime total hs)
unfolding expire_loop
loop_bounds writes before total brd duetime [] t w = record {
  complete = refl;
  most = inr tt;
  least = omega arith;
  all = omega arith;
  none_cancelled = refl;
}
loop_bounds zero before total brd duetime (h ∷ hs) t w = absurd (omega arith)
loop_bounds (suc writes) before total brd duetime (h ∷ hs) t w =
    elim (Bool-cases (keeps brd duetime total h)) [
      | inl e ↦
          let b =
            loop_bounds writes (before + 1) total brd duetime hs (omega arith) (omega arith) in
          let mine : is_cancelled h.owner ≡ false = cancelled-gone brd duetime total h e in
          rw (expire_loop, e)
            (record {
              complete = b.complete;
              most =
                  most_keep before total brd duetime h _ (length hs) t (omega (arith, b.all)) e
                    b.most;
              least = ground (arith, b.least);
              all = omega (arith, b.all);
              none_cancelled = ground (arith, b.none_cancelled);
            })
      | inr e ↦
          let b =
            loop_bounds (suc writes) before (total - 1) brd duetime hs (omega arith)
              (omega arith) in
          rw (expire_loop, e)
            (record {
              complete = b.complete;
              most = b.most;
              least = least_drop before total brd duetime h hs _ t e b.least;
              all = omega (arith, b.all);
              none_cancelled = b.none_cancelled;
            })
    ]

-- Where no call fails, expire leaves a directory of at most maxp posts, or minp if that is more, or of
-- marked ones only. It has no cancelled post. Its posts and the cancelled ones that were there are
-- together at least minp, or as many as there were posts. The posts left and the files unlinked are
-- as many as there were posts.
pub expire_bounds :
    (a : Answers) (now : ℕ) (brd : Life) (index : List Header)
    → a.new_opens ≡ true
    → length index ≤ a.writes
    → a.renames_old ≡ true
    → a.renames_new ≡ true
    → (after : List Header) × ((expire a now brd index).0 ≡ some after)
      × ((length after ≤ max brd.minp brd.maxp) ⊎ AllMarked after)
      × (cancelled after ≡ 0)
      × (min brd.minp (length index) ≤ length after + cancelled index)
      × (length after + length (expire a now brd index).1 ≡ length index)
unfolding expire
expire_bounds a now brd [] opens w old new =
    ([], rw opens refl, inr tt, refl, omega arith, rw opens (omega arith))
expire_bounds a now brd (h ∷ hs) opens w old new =
    let duetime = now - brd.days * 24 * 60 * 60 in
    let r = expire_loop a.writes brd duetime (length (h ∷ hs)) (h ∷ hs) in
    let b = loop_bounds a.writes 0 (length (h ∷ hs)) brd duetime (h ∷ hs) (omega arith) w in
    (
      r.kept,
      rw (opens, b.complete, old, new) refl,
      elim b.most [ inl few ↦ inl (omega arith) | inr marked ↦ inr marked ],
      b.none_cancelled,
      omega (arith, b.least),
      rw opens b.all,
    )
