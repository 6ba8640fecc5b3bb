-- ===== src/Friends/Adding.antt =====
-- friend_add of mbbsd/friend.c on files of lines.
use mathlib.Core.List.{append_assoc, map-append}
use openptt.Prelude.{
  ℕ, zero, suc, ◌-◌, ◌<◌, ◌≤◌, true, false, some, none, List, [], ◌∷◌, ◌++◌, ◌≡◌, refl, ◌==◌, ◌||◌,
  map, length, arith, length-append, Bool-cases, inl, inr, ◌∙◌, ap, get_or, replicate,
  length-replicate, if◌then◌else◌, ltb, length-map, Option,
}
use openptt.Prelude.Bytes.{Bytes, str_case_eq, str_case_eq_iff, tolower}
use openptt.Prelude.Stdio.{strtok, pad}
use openptt.Friends.{
  friend_max, token_is, belong_loop, belong, friend_count, is_dark, entry, friend_add,
}
use openptt.Friends.Lines.{
  unlines, AreLines, end_line, no_newline, no_blank, no_blank-newline, AreLines-append,
  unlines-append, fgets_all-unlines, strtok-append,
}

-- A userid: what belongs into the first column.
pub record IsId (uident : Bytes) : Type 0 where
  pub dark : is_dark uident ≡ true
  pub one_word : no_blank uident ≡ true
  pub short : length uident ≤ 12

-- A description, as getdata gives it.
pub record IsDesc (buf : Bytes) : Type 0 where
  pub one_line : no_newline buf ≡ true
  pub short : length buf < 40

belong_loop-append :
    (key : Bytes) (xs ys : List Bytes)
    → belong_loop key (xs ++ ys) ≡ (belong_loop key xs || belong_loop key ys)
unfolding belong_loop
belong_loop-append key [] ys = refl
belong_loop-append key (x ∷ xs) ys = ground (arith, belong_loop-append key xs ys)

token_is-case :
    (a b : Bytes) (t : Option (Bytes × Bytes))
    → map tolower a ≡ map tolower b
    → token_is t a ≡ token_is t b
unfolding str_case_eq
token_is-case a b none h = refl
token_is-case a b (some (buf, token)) h = rw h refl

-- Who is in the list under one spelling of a name is so under all.
belong_loop-case :
    (a b : Bytes) (ls : List Bytes) → str_case_eq a b ≡ true → belong_loop a ls ≡ belong_loop b ls
unfolding belong_loop
belong_loop-case a b [] h = refl
belong_loop-case a b (l ∷ ls) h =
    rw
      (
        belong_loop,
        token_is-case a b (strtok l) ((str_case_eq_iff a b).0 h),
        belong_loop-case a b ls h,
      )
      refl

pub belong-unlines :
    (key : Bytes) (ls : List Bytes)
    → AreLines ls
    → belong (some (unlines ls)) key ≡ belong_loop key (map end_line ls)
unfolding belong
belong-unlines key ls h = rw (fgets_all-unlines 79 ls (omega arith) h) refl

friend_count-unlines :
    (ls : List Bytes) → AreLines ls → friend_count (some (unlines ls)) ≡ length ls
unfolding friend_count
friend_count-unlines ls h =
    ap length (fgets_all-unlines 199 ls (omega arith) h) ∙ length-map ls end_line

-- The line without its end.
abbrev pub row : (uident desc : Bytes) → Bytes
row uident desc = pad 13 uident ++ desc

no_newline-append :
    (s t : Bytes) → no_newline s ≡ true → no_newline t ≡ true → no_newline (s ++ t) ≡ true
no_newline-append [] t h k = k
no_newline-append (c ∷ s) t h k = ground (arith, no_newline-append s t)

no_newline-replicate : (n : ℕ) → no_newline (replicate n 32) ≡ true
no_newline-replicate zero = refl
no_newline-replicate (suc n) = ground (arith, no_newline-replicate n)

row-AreLines : (uident desc : Bytes) → IsId uident → IsDesc desc → AreLines (row uident desc ∷ [])
row-AreLines uident desc i d = (
  no_newline-append (pad 13 uident) desc
      (no_newline-append uident _ (no_blank-newline uident i.one_word)
        (no_newline-replicate (13 - length uident)))
      d.one_line,
  omega (
    arith,
    d.short,
    i.short,
    length-append {0} (pad 13 uident) desc,
    length-append {0} uident (replicate (13 - length uident) 32),
    length-replicate {A = ℕ} (13 - length uident) 32,
  ),
  tt,
)

entry_lem :
    (uident desc : Bytes) (ls : List Bytes)
    → unlines ls ++ entry uident desc ≡ unlines (ls ++ row uident desc ∷ [])
unfolding unlines
entry_lem uident desc ls = simp (unlines-append, append_assoc)

row_shape :
    (uident desc : Bytes) (k : ℕ)
    → 13 - length uident ≡ suc k
    → end_line (row uident desc) ≡ uident ++ (32 ∷ (replicate k 32 ++ (desc ++ 10 ∷ [])))
row_shape uident desc k e = rw e (simp append_assoc)

strtok-row :
    (uident desc : Bytes)
    → IsId uident
    → strtok (end_line (row uident desc)) ≡ some (uident, uident)
strtok-row [] desc i = absurd (ground (arith, i.dark))
strtok-row (a ∷ w) desc i =
    let k = 12 - length (a ∷ w) in
    let more : 13 - length (a ∷ w) ≡ suc k = omega (arith, i.short) in
    rw (row_shape (a ∷ w) desc k more) (strtok-append a w 32 _ i.one_word refl)

-- The description that is written.
abbrev pub desc_of : (type : ℕ) → Bytes → Bytes
desc_of type buf = if type == 2 || type == 3 then [] else buf

desc_of-IsDesc : (type : ℕ) (buf : Bytes) → IsDesc buf → IsDesc (desc_of type buf)
desc_of-IsDesc type buf d = elim (Bool-cases (type == 2 || type == 3)) [
  | inl e ↦ rw e (record { one_line = refl; short = omega arith })
  | inr e ↦ rw e d
]

module _ (uident buf : Bytes) (type : ℕ) (ls : List Bytes) (i : IsId uident) (d : IsDesc buf)
    (h : AreLines ls) (room : length ls ≤ get_or friend_max type 0) where
  abbrev pub grown : List Bytes
  grown = ls ++ row uident (desc_of type buf) ∷ []

  room_test : ltb (get_or friend_max type 0) (friend_count (some (unlines ls))) ≡ false
  room_test = rw (friend_count-unlines ls h) (ground arith)

  pub grown-AreLines : AreLines grown
  grown-AreLines =
      AreLines-append ls _ h (row-AreLines uident (desc_of type buf) i (desc_of-IsDesc type buf d))

  pub added :
      belong (some (unlines ls)) uident ≡ false
      → friend_add true uident buf type (some (unlines ls)) ≡ some (unlines grown)
  unfolding friend_add
  added new = rw room_test (rw (i.dark, new) (ap some (entry_lem uident (desc_of type buf) ls)))

  belong-grown :
      (key : Bytes)
      → belong (some (unlines grown)) key
        ≡ (belong (some (unlines ls)) key || str_case_eq uident key)
  unfolding belong_loop
  belong-grown key =
      let all : belong_loop key (map end_line grown)
          ≡ (belong_loop key (map end_line ls) || str_case_eq uident key) =
        rw (map-append end_line ls (row uident (desc_of type buf) ∷ [])) (
          belong_loop-append key (map end_line ls) _
          ∙ rw (strtok-row uident (desc_of type buf) i) (ground arith)) in
      belong-unlines key grown grown-AreLines ∙ all ∙ rw (belong-unlines key ls h) refl

  listed :
      belong (some (unlines ls)) uident ≡ true
      → friend_add true uident buf type (some (unlines ls)) ≡ some (unlines ls)
  unfolding friend_add
  listed old = rw room_test (rw (i.dark, old) refl)

  belong-listed :
      (key : Bytes)
      → belong (some (unlines ls)) uident ≡ true
      → belong (some (unlines ls)) key ≡ (belong (some (unlines ls)) key || str_case_eq uident key)
  belong-listed key old = elim (Bool-cases (str_case_eq uident key)) [
    | inl e ↦
        let same : belong_loop uident (map end_line ls) ≡ belong_loop key (map end_line ls) =
          belong_loop-case uident key (map end_line ls) e in
        ground (arith, same, belong-unlines key ls h, belong-unlines uident ls h)
    | inr e ↦ ground arith
  ]

  -- With a name, a description, room and a file of lines, friend_add leaves a file of lines. Those
  -- that belong to it, in upper or lower case, are those that did, and the name.
  pub friend_add-belong :
      (ls' : List Bytes) × (friend_add true uident buf type (some (unlines ls))
        ≡ some (unlines ls'))
      × AreLines ls'
      × ((key : Bytes)
          → belong (some (unlines ls')) key
            ≡ (belong (some (unlines ls)) key || str_case_eq uident key))
  friend_add-belong = elim (Bool-cases (belong (some (unlines ls)) uident)) [
    | inl old ↦ (ls, listed old, h, λ key. belong-listed key old)
    | inr new ↦ (grown, added new, grown-AreLines, belong-grown)
  ]
