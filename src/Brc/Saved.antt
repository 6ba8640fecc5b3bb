-- ===== src/Brc/Saved.antt =====
-- brc_putrecord of mbbsd/board.c on any list of times, and brc_getrecord behind it.
use openptt.Prelude.{
  ℕ, zero, suc, ◌≤◌, ◌<◌, ◌≡◌, ◌⊎◌, refl, ap, sym, ◌∙◌, Bool, true, false, List, [], ◌∷◌, ◌++◌, inl,
  inr, arith, ltb, ◌&&◌, if◌then◌else◌, length, take, get_or, Bool-cases, length-take, take_short,
}
use mathlib.Core.Path.{subst}
use openptt.Prelude.Bytes.{Bytes}
use openptt.Brc.{
  brc_strlen, brc_maxnum, put_ints, put_name, brc_getrecord, fresh_part, brc_putrecord,
}
use openptt.Brc.Codec.{NoZero, AllInts, brc_getrecord-written}

abbrev is_empty : List ℕ → Bool
is_empty [] = true
is_empty (_ ∷ _) = false

-- The times without the expired ones at the end.
abbrev pub recent : (expire : ℕ) → List ℕ → List ℕ
recent expire [] = []
recent expire (t ∷ ts) =
    let rest = recent expire ts in if is_empty rest && ltb t expire then [] else t ∷ rest

-- What is kept of the times of a board: nothing if the first, the latest one, has expired, and else it
-- and, of the next 79, those up to the last that has not expired.
abbrev pub saved : (expire : ℕ) → List ℕ → List ℕ
saved expire [] = []
saved expire (t ∷ ts) = if ltb expire t then t ∷ recent expire (take 79 ts) else []

recent-drop :
    (expire m : ℕ) (ts : List ℕ)
    → m < length ts
    → ltb (get_or ts m 0) expire ≡ true
    → recent expire (take (suc m) ts) ≡ recent expire (take m ts)
recent-drop expire m [] h e = elim h [ ]
recent-drop expire zero (t ∷ ts) h e = rw e refl
recent-drop expire (suc m) (t ∷ ts) h e = rw (recent-drop expire m ts (omega arith) e) refl

recent-keep :
    (expire m : ℕ) (ts : List ℕ)
    → m < length ts
    → ltb (get_or ts m 0) expire ≡ false
    → recent expire (take (suc m) ts) ≡ take (suc m) ts
recent-keep expire m [] h e = elim h [ ]
recent-keep expire zero (t ∷ ts) h e = rw e refl
recent-keep expire (suc m) (t ∷ []) h e = absurd (omega arith)
recent-keep expire (suc m) (t ∷ u ∷ ts) h e =
    rw (recent-keep expire m (u ∷ ts) (omega arith) e) refl

fresh_part-recent :
    (expire n t : ℕ) (ts : List ℕ)
    → n ≤ length ts
    → take (fresh_part expire (suc n) (t ∷ ts)) (t ∷ ts) ≡ t ∷ recent expire (take n ts)
unfolding fresh_part
fresh_part-recent expire zero t ts h = refl
fresh_part-recent expire (suc m) t ts h = elim (Bool-cases (ltb (get_or ts m 0) expire)) [
  | inl e ↦
      let test : (ltb 0 (suc m) && ltb (get_or ts m 0) expire) ≡ true = ground (arith, e) in
      let less : fresh_part expire (suc (suc m)) (t ∷ ts) ≡ fresh_part expire (suc m) (t ∷ ts) =
        rw (test, fresh_part) refl in
      rw (less, recent-drop expire m ts (omega arith) e)
        (fresh_part-recent expire m t ts (omega arith))
  | inr e ↦
      let test : (ltb 0 (suc m) && ltb (get_or ts m 0) expire) ≡ false = ground (arith, e) in
      let all : fresh_part expire (suc (suc m)) (t ∷ ts) ≡ suc (suc m) =
        rw (test, fresh_part) refl in
      rw (all, recent-keep expire m ts (omega arith) e) refl
]

fresh_part-le : (expire n : ℕ) (ts : List ℕ) → fresh_part expire n ts ≤ n
unfolding fresh_part
fresh_part-le expire zero ts = omega arith
fresh_part-le expire (suc n) ts = elim (Bool-cases (ltb 0 n && ltb (get_or ts n 0) expire)) [
  | inl e ↦ rw (fresh_part, e) (omega (arith, fresh_part-le expire n ts))
  | inr e ↦ rw (fresh_part, e) (omega arith)
]

-- The times that are looked at.
capped :
    (n : ℕ) (ts : List ℕ)
    → n ≡ (if ltb brc_maxnum (suc (length ts)) then 79 else length ts)
    → (n ≤ length ts) × (n ≤ 79) × (take n ts ≡ take 79 ts)
capped n ts e = elim (Bool-cases (ltb brc_maxnum (suc (length ts)))) [
  | inl more ↦ let same : n ≡ 79 = rw more at e in (ground (arith, same), omega arith, rw same refl)
  | inr few ↦
      let same : n ≡ length ts = rw few at e in
      let few' : length ts ≤ 79 = ground arith in
      (
        omega arith,
        omega arith,
        rw same (take_short (length ts) ts (omega arith) ∙ sym (take_short 79 ts few')),
      )
]

AllInts-take : (n : ℕ) (ts : List ℕ) → AllInts ts → AllInts (take n ts)
AllInts-take zero ts h = tt
AllInts-take (suc n) [] h = tt
AllInts-take (suc n) (t ∷ ts) h = (h.0, AllInts-take n ts h.1)

-- Where the first time has not expired.
brc_putrecord-saved :
    (expire : ℕ) (name : Bytes) (t : ℕ) (ts : List ℕ)
    → ltb expire t ≡ true
    → AllInts (t ∷ ts)
    → (brc_putrecord expire name (t ∷ ts)
        ≡ put_name name ++ (length (saved expire (t ∷ ts)) ∷ put_ints (saved expire (t ∷ ts))))
      × (length (saved expire (t ∷ ts)) ≤ brc_maxnum)
      × AllInts (saved expire (t ∷ ts))
unfolding brc_putrecord
brc_putrecord-saved expire name t ts fresh ints =
    let n = if ltb brc_maxnum (suc (length ts)) then 79 else length ts in
    let (inside, most, cap) = capped n ts refl in
    let num = fresh_part expire (suc n) (t ∷ ts) in
    let cut : (if ltb brc_maxnum (suc (length ts)) then brc_maxnum else suc (length ts)) ≡ suc n =
      ground arith in
    let part : take num (t ∷ ts) ≡ t ∷ recent expire (take 79 ts) =
      fresh_part-recent expire n t ts inside ∙ ap (λ (us : List ℕ). t ∷ recent expire us) cap in
    let le = fresh_part-le expire (suc n) (t ∷ ts) in
    let shown : length (take num (t ∷ ts)) ≡ num =
      omega (arith, length-take num (t ∷ ts), le, inside) in
    let count : length (t ∷ recent expire (take 79 ts)) ≡ num =
      sym (ap (λ (us : List ℕ). length us) part) ∙ shown in
    (
      rw (fresh, cut) (rw (part, count) refl),
      rw fresh (omega (arith, count, le, most)),
      rw fresh (subst AllInts part (AllInts-take num (t ∷ ts) ints)),
    )

-- brc_getrecord reads back what brc_putrecord has written of any times of 32 bits, and of a name
-- without a zero: the name up to 15 bytes; the first of at most 80 times, down to the last one
-- that has not expired; and what is behind the record. Where the first time has expired or there are
-- no times, brc_putrecord writes nothing.
pub brc_getrecord-brc_putrecord :
    (expire : ℕ) (name : Bytes) (ts : List ℕ) (rest : Bytes)
    → NoZero name
    → AllInts ts
    → ((saved expire ts ≡ []) × (brc_putrecord expire name ts ≡ []))
      ⊎ ((0 < length (saved expire ts))
          × (brc_getrecord (brc_putrecord expire name ts ++ rest)
              ≡ (take brc_strlen name, saved expire ts, rest)))
unfolding brc_putrecord
brc_getrecord-brc_putrecord expire name [] rest plain ints = inl (refl, refl)
brc_getrecord-brc_putrecord expire name (t ∷ ts) rest plain ints =
    elim (Bool-cases (ltb expire t)) [
      | inl fresh ↦
          let (written, few, kept) = brc_putrecord-saved expire name t ts fresh ints in
          inr (
            rw fresh (omega arith),
            rw written (brc_getrecord-written name (saved expire (t ∷ ts)) rest plain few kept),
          )
      | inr old ↦ inl (rw old refl, rw old refl)
    ]
