-- ===== src/Brc/Items.antt =====
-- The records of a .boardrc of mbbsd/board.c, and the loops over them.
use openptt.Prelude.{
  ℕ, zero, suc, ◌+◌, ◌*◌, ◌≤◌, ◌<◌, ◌≡◌, refl, ap, sym, ◌∙◌, Bool, true, false, Option, none, some,
  List, [], ◌∷◌, ◌++◌, inl, inr, arith, if◌then◌else◌, length, take, length-append, Bool-cases,
}
use mathlib.Core.List.{append_assoc, append-nil}
use openptt.Prelude.Bytes.{Bytes, str_eq, str_eq_iff}
use openptt.Brc.{
  brc_strlen, put_ints, put_name, brc_getrecord, brc_putrecord, at_record, update_loop,
  initial_loop,
}
use openptt.Brc.Codec.{IsRecord, length-put_name, brc_putrecord-IsRecord, brc_getrecord-IsRecord}

-- A record: the name of the board, and the times.
abbrev pub Item : Type 0
Item = Bytes × List ℕ

abbrev pub AllRecords : ℕ → List Item → Type 0
AllRecords expire [] = Unit {0}
AllRecords expire (r ∷ rs) = IsRecord expire r.0 r.1 × AllRecords expire rs

-- The file of the records.
abbrev pub encode : ℕ → List Item → Bytes
encode expire [] = []
encode expire (r ∷ rs) = brc_putrecord expire r.0 r.1 ++ encode expire rs

-- The records of other boards.
abbrev pub others : Bytes → List Item → List Item
others board [] = []
others board (r ∷ rs) =
    let rest = others board rs in if str_eq r.0 (take brc_strlen board) then rest else r ∷ rest

-- The times of the board.
abbrev pub lookup : Bytes → List Item → Option (List ℕ)
lookup board [] = none
lookup board (r ∷ rs) = if str_eq r.0 (take brc_strlen board) then some r.1 else lookup board rs

at_record-append : (s t u : Bytes) → at_record s ≡ true → at_record ((take 15 s ++ t) ++ u) ≡ true
at_record-append [] t u h = cc
at_record-append (c ∷ s) t u h = h

pub at_record-brc_putrecord :
    (expire : ℕ) (name : Bytes) (ts : List ℕ) (rest : Bytes)
    → IsRecord expire name ts
    → at_record (brc_putrecord expire name ts ++ rest) ≡ true
at_record-brc_putrecord expire name ts rest r =
    rw
      (
        brc_putrecord-IsRecord expire name ts r,
        append_assoc (put_name name) (length ts ∷ put_ints ts) rest,
      )
      (at_record-append name _ _ r.starts)

update_loop-step :
    (fuel expire : ℕ) (board b out name : Bytes) (ts : List ℕ) (rest : Bytes)
    → at_record b ≡ true
    → brc_getrecord b ≡ (name, ts, rest)
    → update_loop (suc fuel) expire board b out
      ≡ update_loop fuel expire board rest
          (if str_eq name (take brc_strlen board) then out else out ++ brc_putrecord expire name ts)
unfolding update_loop
update_loop-step fuel expire board b out name ts rest go read =
    rw (go, update_loop)
      (ap
        (λ (r : Bytes × List ℕ × Bytes).
          update_loop fuel expire board r.2 (
            if str_eq r.0 (take brc_strlen board)
            then out
            else out ++ brc_putrecord expire r.0 r.1))
        read)

update_loop-nil :
    (fuel expire : ℕ) (board out : Bytes) → update_loop (suc fuel) expire board [] out ≡ out
unfolding update_loop
update_loop-nil fuel expire board out = refl

-- What initial_loop does with a record.
abbrev round : ℕ → Bytes → Bytes × List ℕ × Bytes → Bool × Bytes × List ℕ
unfolding initial_loop
round fuel board (name, ts, rest) = elim (str_eq name (take brc_strlen board)) [
  | true ↦ (true, name, ts)
  | false ↦ initial_loop fuel board rest name ts
]

initial_loop-step :
    (fuel : ℕ) (board b name : Bytes) (times : List ℕ) (name' : Bytes) (ts : List ℕ) (rest : Bytes)
    → at_record b ≡ true
    → brc_getrecord b ≡ (name', ts, rest)
    → initial_loop (suc fuel) board b name times ≡ round fuel board (name', ts, rest)
unfolding initial_loop
initial_loop-step fuel board b name times name' ts rest go read =
    rw (go, initial_loop) (ap (round fuel board) read)

pub update_loop-encode :
    (fuel expire : ℕ) (board : Bytes) (rs : List Item) (out : Bytes)
    → AllRecords expire rs
    → length rs < fuel
    → update_loop fuel expire board (encode expire rs) out ≡ out ++ encode expire (others board rs)
update_loop-encode zero expire board rs out h f = absurd (omega arith)
update_loop-encode (suc fuel) expire board [] out h f =
    update_loop-nil fuel expire board out ∙ sym (append-nil out)
update_loop-encode (suc fuel) expire board (r ∷ rs) out h f =
    let go = at_record-brc_putrecord expire r.0 r.1 (encode expire rs) h.0 in
    let read = brc_getrecord-IsRecord expire r.0 r.1 (encode expire rs) h.0 in
    update_loop-step fuel expire board (encode expire (r ∷ rs)) out r.0 r.1 (encode expire rs) go
      read
    ∙ elim (Bool-cases (str_eq r.0 (take brc_strlen board))) [
      | inl e ↦ rw e (update_loop-encode fuel expire board rs out h.1 (omega arith))
      | inr e ↦ rw e (
          update_loop-encode fuel expire board rs (out ++ brc_putrecord expire r.0 r.1) h.1
            (omega arith)
          ∙ append_assoc out (brc_putrecord expire r.0 r.1) (encode expire (others board rs)))
    ]

pub initial_loop-encode :
    (fuel expire : ℕ) (board : Bytes) (rs : List Item) (name : Bytes) (times ts : List ℕ)
    → AllRecords expire rs
    → length rs < fuel
    → lookup board rs ≡ some ts
    → initial_loop fuel board (encode expire rs) name times ≡ (true, take brc_strlen board, ts)
unfolding round
initial_loop-encode zero expire board rs name times ts h f found = absurd (omega arith)
initial_loop-encode (suc fuel) expire board [] name times ts h f found = cc
initial_loop-encode (suc fuel) expire board (r ∷ rs) name times ts h f found =
    let go = at_record-brc_putrecord expire r.0 r.1 (encode expire rs) h.0 in
    let read = brc_getrecord-IsRecord expire r.0 r.1 (encode expire rs) h.0 in
    initial_loop-step fuel board (encode expire (r ∷ rs)) name times r.0 r.1 (encode expire rs) go
      read
    ∙ elim (Bool-cases (str_eq r.0 (take brc_strlen board))) [
      | inl e ↦
          let same : r.0 ≡ take brc_strlen board = (str_eq_iff r.0 (take brc_strlen board)).0 e in
          let it : r.1 ≡ ts = ground arith in rw (e, round) (rw (same, it) refl)
      | inr e ↦
          rw (e, round)
            (initial_loop-encode fuel expire board rs r.0 r.1 ts h.1 (omega arith) (ground arith))
    ]

length-put_ints : (ts : List ℕ) → length (put_ints ts) ≡ length ts * 4
unfolding put_ints
length-put_ints [] = refl
length-put_ints (t ∷ ts) = omega (arith, length-put_ints ts)

pub length-brc_putrecord :
    (expire : ℕ) (name : Bytes) (ts : List ℕ)
    → IsRecord expire name ts
    → length (brc_putrecord expire name ts) ≡ 16 + length ts * 4
length-brc_putrecord expire name ts r = rw (brc_putrecord-IsRecord expire name ts r) (
    omega (
      arith,
      length-append {0} (put_name name) (length ts ∷ put_ints ts),
      length-put_name name,
      length-put_ints ts,
    ))

pub length-encode :
    (expire : ℕ) (rs : List Item) → AllRecords expire rs → length rs ≤ length (encode expire rs)
length-encode expire [] h = omega arith
length-encode expire (r ∷ rs) h = omega (
  arith,
  length-append {0} (brc_putrecord expire r.0 r.1) (encode expire rs),
  length-brc_putrecord expire r.0 r.1 h.0,
  length-encode expire rs h.1,
)

pub length-others :
    (expire : ℕ) (board : Bytes) (rs : List Item)
    → length (encode expire (others board rs)) ≤ length (encode expire rs)
length-others expire board [] = omega arith
length-others expire board (r ∷ rs) = elim (Bool-cases (str_eq r.0 (take brc_strlen board))) [
  | inl e ↦ rw e (
      omega (
        arith,
        length-append {0} (brc_putrecord expire r.0 r.1) (encode expire rs),
        length-others expire board rs,
      ))
  | inr e ↦ rw e (
      omega (
        arith,
        length-append {0} (brc_putrecord expire r.0 r.1) (encode expire rs),
        length-append {0} (brc_putrecord expire r.0 r.1) (encode expire (others board rs)),
        length-others expire board rs,
      ))
]
