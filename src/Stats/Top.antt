-- ===== src/Stats/Top.antt =====
-- sort of util/poststat.c keeps the titles with the greatest numbers, in order.
use openptt.Prelude.{
  ℕ, ◌+◌, ◌-◌, ◌≤◌, Option, none, some, List, [], ◌∷◌, ltb, ◌≡◌, refl, arith, Bool-cases, inl, inr,
}
use openptt.Stats.{Post, topcount, find, sort, sort_all}
use openptt.Stats.Placing.{
  Found, nowhere, place, find-Found, IsTop, Covers, placed-IsTop, placed-Covers, pp-Covers,
}

last_table :
    (pp : Post) (count : ℕ) (top : ℕ → Post)
    → IsTop count top
    → ((j : ℕ) → j ≤ count → pp.number ≤ (top j).number)
    → pp.number ≤ (top (topcount - 1)).number
last_table pp count top h all = elim (Bool-cases (ltb count (topcount - 1))) [
  | inl e ↦
      let zero_there : (top count).number ≡ 0 = h.empty count (ground arith) (omega arith) in
      omega (arith, all count (omega arith))
  | inr e ↦ all (topcount - 1) (ground arith)
]

-- What a step of sort keeps and adds.
record Sorted (pp : Post) (top : ℕ → Post) (count : ℕ) (after : ℕ → Post) : Type 0 where
  ordered : IsTop count after
  added : Covers pp after
  keeps : (p : Post) → Covers p top → Covers p after

sort-Found :
    (pp : Post) (count : ℕ) (top : ℕ → Post) (o : Option ℕ)
    → find (count + 1) 0 pp.number top ≡ o
    → IsTop count top
    → Found count pp.number top o
    → Sorted pp top (sort pp count top).0 (sort pp count top).1
unfolding sort Covers
sort-Found pp count top none e h (nowhere all) =
    rw (sort, e)
      (record { ordered = h; added = inr (last_table pp count top h all); keeps = λ p c. c })
sort-Found pp count top (some i) e h (place _ le less before) =
    rw (sort, e)
      (record {
        ordered = placed-IsTop pp count i top h le less before;
        added = pp-Covers pp count i top h le less before;
        keeps = placed-Covers pp count i top h le less before;
      })

sort-Sorted :
    (pp : Post) (count : ℕ) (top : ℕ → Post)
    → IsTop count top
    → Sorted pp top (sort pp count top).0 (sort pp count top).1
sort-Sorted pp count top h =
    sort-Found pp count top (find (count + 1) 0 pp.number top) refl h
      (find-Found (count + 1) 0 count pp.number top (omega arith) (λ j lt. absurd (omega arith)))

sort_all-Covers :
    (pps : List Post) (count : ℕ) (top : ℕ → Post) (p : Post)
    → IsTop count top
    → Covers p top
    → Covers p (sort_all pps count top).1
unfolding sort_all
sort_all-Covers [] count top p h c = c
sort_all-Covers (pp ∷ pps) count top p h c =
    let s = sort-Sorted pp count top h in sort_all-Covers pps _ _ p s.ordered (s.keeps p c)

abbrev pub AllCovered : List Post → (ℕ → Post) → Type 0
AllCovered [] top = Unit {0}
AllCovered (p ∷ ps) top = Covers p top × AllCovered ps top

-- Sorting any records into a table in order leaves one in order, with zeros behind the count as long
-- as there is room. Each of the records is in the table, or its number is no greater than that of
-- the last record there.
pub sort_all-AllCovered :
    (pps : List Post) (count : ℕ) (top : ℕ → Post)
    → IsTop count top
    → IsTop (sort_all pps count top).0 (sort_all pps count top).1
      × AllCovered pps (sort_all pps count top).1
unfolding sort_all
sort_all-AllCovered [] count top h = (h, tt)
sort_all-AllCovered (pp ∷ pps) count top h =
    let s = sort-Sorted pp count top h in
    let (ordered, all) = sort_all-AllCovered pps _ _ s.ordered in
    (ordered, (sort_all-Covers pps _ _ pp s.ordered s.added, all))
