-- ===== src/Text/Paths.antt =====
-- trim, and invalid_pname by the parts of a path.
use openptt.Prelude.{
  ℕ, zero, suc, ◌-◌, ◌≤◌, ◌<◌, ◌≡◌, refl, ap, sym, ◌∙◌, Bool, true, false, List, [], ◌∷◌, ◌++◌, inl,
  inr, arith, ◌==◌, ◌||◌, length, take, length-append, Bool-cases, get_or, replicate, length-take,
}
use openptt.Prelude.Bytes.{Bytes}
use mathlib.Core.List.{append_assoc, append-nil}
use openptt.Prelude.{◌⊎◌}
use openptt.Text.{trim_loop, trim, to_slash, all_dots, has_bad, pname_loop, invalid_pname}

-- The last byte is no space.
abbrev pub NoTrailingSpace : Bytes → Type 0
NoTrailingSpace s = (length s ≡ 0) ⊎ ((get_or s (length s - 1) 0 == b' ') ≡ false)

take_snoc : (n : ℕ) (s : Bytes) → n < length s → take (suc n) s ≡ take n s ++ get_or s n 0 ∷ []
take_snoc n [] h = elim h [ ]
take_snoc zero (c ∷ s) h = refl
take_snoc (suc n) (c ∷ s) h = ap (c ∷◌) (take_snoc n s (omega arith))

get_or-take : (n m : ℕ) (s : Bytes) → n < m → get_or (take m s) n 0 ≡ get_or s n 0
get_or-take n zero s h = elim h [ ]
get_or-take n (suc m) [] h = refl
get_or-take zero (suc m) (c ∷ s) h = refl
get_or-take (suc n) (suc m) (c ∷ s) h = get_or-take n m s (omega arith)

spaces_snoc : (k : ℕ) → replicate {A = ℕ} k b' ' ++ b' ' ∷ [] ≡ replicate {A = ℕ} (suc k) b' '
spaces_snoc zero = refl
spaces_snoc (suc k) = ap (b' ' ∷◌) (spaces_snoc k)

trim_loop_lem :
    (n : ℕ) (s : Bytes)
    → n ≤ length s
    → (k : ℕ) × (take n s ≡ trim_loop n s ++ replicate k b' ') × NoTrailingSpace (trim_loop n s)
unfolding trim_loop
trim_loop_lem zero s h = (0, refl, inl refl)
trim_loop_lem (suc n) s h = elim (Bool-cases (get_or s n 0 == b' ')) [
  | inl e ↦
      let (k, split, clean) = trim_loop_lem n s (omega arith) in
      let space : get_or s n 0 ≡ b' ' = ground arith in
      (
        suc k,
        rw (e, trim_loop)
            (take_snoc n s h
              ∙ rw (space, split)
                  (append_assoc (trim_loop n s) (replicate k b' ') (b' ' ∷ [])
                    ∙ ap (trim_loop n s ++◌) (spaces_snoc k))),
        rw (e, trim_loop) clean,
      )
  | inr e ↦ (
    0,
    rw (e, trim_loop) (sym (append-nil _)),
    rw (e, trim_loop)
        (inr (
          let last : length (take (suc n) s) - 1 ≡ n = omega (arith, length-take (suc n) s) in
          rw (last, get_or-take n (suc n) s (omega arith)) e)),
  )
]

-- trim takes spaces off the end, only spaces and all of them.
pub trim_lem : (s : Bytes) → (k : ℕ) × (s ≡ trim s ++ replicate k b' ') × NoTrailingSpace (trim s)
unfolding trim
trim_lem s =
    let (k, split, clean) = trim_loop_lem (length s) s (omega arith) in
    (k, sym (take_all s) ∙ split, clean)
  where
    take_all : (s : Bytes) → take (length s) s ≡ s
    take_all [] = refl
    take_all (c ∷ s) = ap (c ∷◌) (take_all s)

-- A part of a path: no slash.
abbrev pub NoSlash : Bytes → Type 0
NoSlash [] = Unit {0}
NoSlash (c ∷ s) = ((c == b'/') ≡ false) × NoSlash s

abbrev pub AllNoSlash : List Bytes → Type 0
AllNoSlash [] = Unit {0}
AllNoSlash (p ∷ ps) = NoSlash p × AllNoSlash ps

-- Each part with a slash behind it.
abbrev pub ended : List Bytes → Bytes
ended [] = []
ended (p ∷ ps) = p ++ b'/' ∷ ended ps

-- Empty, only dots, or with a byte that no name may hold.
abbrev pub bad_part : Bytes → Bool
bad_part p = all_dots p || has_bad p

abbrev pub any_bad : List Bytes → Bool
any_bad [] = false
any_bad (p ∷ ps) = bad_part p || any_bad ps

to_slash-part : (p rest : Bytes) → NoSlash p → to_slash (p ++ b'/' ∷ rest) ≡ (p, b'/' ∷ rest)
unfolding to_slash
to_slash-part [] rest h = refl
to_slash-part (c ∷ p) rest h = rw (h.0, to_slash-part p rest h.1)

to_slash-last : (p : Bytes) → NoSlash p → to_slash p ≡ (p, [])
unfolding to_slash
to_slash-last [] h = refl
to_slash-last (c ∷ p) h = rw (h.0, to_slash-last p h.1)

-- Adding a slash and more behind a part.
pname_loop-part :
    (fuel : ℕ) (p rest : Bytes)
    → NoSlash p
    → pname_loop (suc fuel) (p ++ b'/' ∷ rest) ≡ (bad_part p || pname_loop fuel rest)
unfolding pname_loop
pname_loop-part fuel [] rest h = refl
pname_loop-part fuel (c ∷ p) rest h = rw (to_slash-part (c ∷ p) rest h, pname_loop) (ground arith)

pname_loop-last :
    (fuel c : ℕ) (p : Bytes) → NoSlash (c ∷ p) → pname_loop (suc fuel) (c ∷ p) ≡ bad_part (c ∷ p)
unfolding pname_loop
pname_loop-last fuel c p h = rw (to_slash-last (c ∷ p) h, pname_loop) (ground arith)

pname_loop-ended :
    (fuel : ℕ) (ps : List Bytes) (rest : Bytes)
    → length ps < fuel
    → AllNoSlash ps
    → pname_loop fuel (ended ps ++ rest) ≡ (any_bad ps || pname_loop (fuel - length ps) rest)
pname_loop-ended fuel [] rest f h = let e : fuel - 0 ≡ fuel = omega arith in rw e refl
pname_loop-ended zero (p ∷ ps) rest f h = elim f [ ]
pname_loop-ended (suc fuel) (p ∷ ps) rest f h =
    let e : suc fuel - suc (length ps) ≡ fuel - length ps = omega arith in
    rw (append_assoc p (b'/' ∷ ended ps) rest, pname_loop-part fuel p (ended ps ++ rest) h.0, e)
      (rw (pname_loop-ended fuel ps rest (omega arith) h.1) (ground arith))

length-ended : (ps : List Bytes) → length ps ≤ length (ended ps)
length-ended [] = omega arith
length-ended (p ∷ ps) = omega (arith, length-append {0} p (b'/' ∷ ended ps), length-ended ps)

or_false : (b : Bool) → (b || false) ≡ b
or_false true = refl
or_false false = refl

pname_loop-end : (fuel : ℕ) → pname_loop (suc fuel) [] ≡ false
unfolding pname_loop
pname_loop-end fuel = refl

-- Enough rounds for a path.
pname_loop-path :
    (m : ℕ) (ps : List Bytes) (rest : Bytes)
    → length ps ≤ m
    → AllNoSlash ps
    → pname_loop (suc m) (ended ps ++ rest) ≡ (any_bad ps || pname_loop (suc (m - length ps)) rest)
pname_loop-path m ps rest le h =
    let e : suc m - length ps ≡ suc (m - length ps) = omega arith in
    rw (pname_loop-ended (suc m) ps rest (omega arith) h, e) refl

-- invalid_pname holds of a path exactly if one of its parts is empty, only dots, or holds a byte
-- that is no letter, digit or one of @[]-._; behind a last slash there need be no part.
pub invalid_pname_lem :
    (ps : List Bytes) (c : ℕ) (p : Bytes)
    → AllNoSlash ps
    → NoSlash (c ∷ p)
    → (invalid_pname (ended ps) ≡ any_bad ps)
      × (invalid_pname (ended ps ++ c ∷ p) ≡ (any_bad ps || bad_part (c ∷ p)))
unfolding invalid_pname
invalid_pname_lem ps c p h hp = (
  ap (pname_loop (suc (length (ended ps)))) (sym (append-nil (ended ps)))
      ∙ pname_loop-path (length (ended ps)) ps [] (length-ended ps) h
      ∙ ap (any_bad ps ||◌) (pname_loop-end (length (ended ps) - length ps))
      ∙ or_false (any_bad ps),
  pname_loop-path (length (ended ps ++ c ∷ p)) ps (c ∷ p)
        (omega (arith, length-append {0} (ended ps) (c ∷ p), length-ended ps)) h
      ∙ ap (any_bad ps ||◌) (pname_loop-last (length (ended ps ++ c ∷ p) - length ps) c p hp),
)
