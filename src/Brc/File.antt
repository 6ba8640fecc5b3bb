-- ===== src/Brc/File.antt =====
-- brc_update and brc_initial of mbbsd/board.c on a file of whole records.
use openptt.Prelude.{
  Bool, ◌⊎◌, ◌&&◌, not, if◌then◌else◌, ℕ, suc, ◌-◌, ◌≤◌, ◌<◌, ◌≡◌, refl, ap, ◌∙◌, true, false,
  Option, some, List, [], ◌∷◌, inl, inr, arith, ◌==◌, length, take, get_or, length-append,
  take_short, Bool-cases,
}
use openptt.Prelude.Bytes.{Bytes, str_eq, str_eq_iff}
use openptt.Brc.{
  Brc, brc_strlen, brc_maxsize, brc_itemsize, brc_putrecord, at_record, update_loop, updated,
  brc_update, read_brc_buf, initial_loop, brc_initial, contents,
}
use openptt.Brc.Codec.{IsRecord}
use openptt.Brc.Items.{
  Item, AllRecords, encode, others, lookup, at_record-brc_putrecord, update_loop-encode,
  initial_loop-encode, length-brc_putrecord, length-encode, length-others,
}

-- On a file of whole records that is read whole, brc_update writes the record of the current board and
-- behind it the records of the other boards, and this fits brc_buf.
pub updated-encode :
    (s : Brc) (rs : List Item)
    → IsRecord s.expire_time s.name s.list
    → AllRecords s.expire_time rs
    → s.file ≡ some (encode s.expire_time rs)
    → length (encode s.expire_time rs) ≤ brc_maxsize - brc_itemsize
    → (updated s ≡ encode s.expire_time ((s.name, s.list) ∷ others s.currboard rs))
      × (length (updated s) ≤ brc_maxsize)
unfolding updated
updated-encode s rs own all file small =
    let e = s.expire_time in
    let tmp : take 24240 (contents s.file) ≡ encode e rs =
      ap (λ (b : Option Bytes). take 24240 (contents b)) file
      ∙ take_short 24240 (encode e rs) small in
    let run : updated s ≡ encode e ((s.name, s.list) ∷ others s.currboard rs) =
      ap
        (λ (t : Bytes).
          update_loop (suc (length t)) e s.currboard t (brc_putrecord e s.name s.list))
        tmp
      ∙ update_loop-encode (suc (length (encode e rs))) e s.currboard rs
          (brc_putrecord e s.name s.list) all (omega (arith, length-encode e rs all)) in
    (
      run,
      rw run (
          omega (
            arith,
            length-append {0} (brc_putrecord e s.name s.list) (encode e (others s.currboard rs)),
            length-brc_putrecord e s.name s.list own,
            own.few,
            length-others e s.currboard rs,
          )),
    )

AllRecords-others :
    (expire : ℕ) (board : Bytes) (rs : List Item)
    → AllRecords expire rs
    → AllRecords expire (others board rs)
AllRecords-others expire board [] h = tt
AllRecords-others expire board (r ∷ rs) h = elim (Bool-cases (str_eq r.0 (take brc_strlen board))) [
  | inl e ↦ rw e (AllRecords-others expire board rs h.1)
  | inr e ↦ rw e (h.0, AllRecords-others expire board rs h.1)
]

lookup-others :
    (board cur : Bytes) (rs : List Item)
    → str_eq (take brc_strlen cur) (take brc_strlen board) ≡ false
    → lookup board (others cur rs) ≡ lookup board rs
lookup-others board cur [] ne = refl
lookup-others board cur (r ∷ rs) ne = elim (Bool-cases (str_eq r.0 (take brc_strlen cur))) [
  | inl e ↦
      let same : r.0 ≡ take brc_strlen cur = (str_eq_iff r.0 (take brc_strlen cur)).0 e in
      let away : str_eq r.0 (take brc_strlen board) ≡ false = rw same ne in
      rw (e, away) (lookup-others board cur rs ne)
  | inr e ↦ rw e (ground (arith, lookup-others board cur rs ne))
]

first_byte : (s : Bytes) (d : ℕ) → at_record s ≡ true → (get_or s 0 d == 0) ≡ false
first_byte [] d h = cc
first_byte (c ∷ s) d h = ground arith

-- What the update leaves, on the way to another board.
abbrev after : Bytes → Brc → Bytes → Brc
after board s out = record s {
  buf = out;
  first = get_or out 0 s.first;
  file = some out;
  changed = false;
  currboard = board;
}

brc_update-after :
    (board : Bytes) (s : Brc) (out : Bytes)
    → s.changed ≡ true
    → (s.userlevel == 0) ≡ false
    → updated s ≡ out
    → record (brc_update s) { currboard = board } ≡ after board s out
unfolding brc_update
brc_update-after board s out c u h = rw (c, u, brc_update) (rw h refl)

read_brc_buf-begun : (s : Brc) → (s.first == 0) ≡ false → read_brc_buf s ≡ s
unfolding read_brc_buf
read_brc_buf-begun s h = rw (h, read_brc_buf) refl

brc_initial-found :
    (board : Bytes) (s s' : Brc) (name : Bytes) (ts : List ℕ)
    → str_eq s.currboard board ≡ false
    → read_brc_buf (record (brc_update s) { currboard = board }) ≡ s'
    → initial_loop (suc (length s'.buf)) board s'.buf s'.name s'.list ≡ (true, name, ts)
    → brc_initial board s ≡ (length ts, record s' { name = name; list = ts })
unfolding brc_initial
brc_initial-found board s s' name ts away r hit = rw (away, brc_initial) (rw (r, hit) refl)

differ : (a b : Bytes) → str_eq (take brc_strlen a) (take brc_strlen b) ≡ false → str_eq a b ≡ false
differ a b ne = elim (Bool-cases (str_eq a b)) [
  | inl e ↦
      let same : take brc_strlen a ≡ take brc_strlen b =
        ap (take brc_strlen) ((str_eq_iff a b).0 e) in
      let eq : str_eq (take brc_strlen a) (take brc_strlen b) ≡ true = (str_eq_iff _ _).1 same in cc
  | inr e ↦ e
]

-- The list of the board that is left is saved.
brc_initial-saved :
    (board : Bytes) (s : Brc) (rs : List Item) (ts : List ℕ)
    → IsRecord s.expire_time s.name s.list
    → AllRecords s.expire_time rs
    → s.file ≡ some (encode s.expire_time rs)
    → length (encode s.expire_time rs) ≤ brc_maxsize - brc_itemsize
    → s.changed ≡ true
    → 0 < s.userlevel
    → s.name ≡ take brc_strlen s.currboard
    → str_eq (take brc_strlen s.currboard) (take brc_strlen board) ≡ false
    → lookup board rs ≡ some ts
    → ((brc_initial board s).0 ≡ length ts)
      × ((brc_initial board s).1.list ≡ ts)
      × ((brc_initial board s).1.file
          ≡ some (encode s.expire_time ((s.name, s.list) ∷ others s.currboard rs)))
brc_initial-saved board s rs ts own all file small changed level named ne found =
    let e = s.expire_time in
    let items : List Item = (s.name, s.list) ∷ others s.currboard rs in
    let whole : AllRecords e items = (own, AllRecords-others e s.currboard rs all) in
    let begun : (get_or (encode e items) 0 s.first == 0) ≡ false =
      first_byte (encode e items) s.first
        (at_record-brc_putrecord e s.name s.list (encode e (others s.currboard rs)) own) in
    let read : read_brc_buf (record (brc_update s) { currboard = board })
        ≡ after board s (encode e items) =
      ap read_brc_buf (
        brc_update-after board s (encode e items) changed (ground arith)
          (updated-encode s rs own all file small).0)
      ∙ read_brc_buf-begun (after board s (encode e items)) begun in
    let there : lookup board items ≡ some ts =
      rw (named, ne) (lookup-others board s.currboard rs ne ∙ found) in
    let hit =
      initial_loop-encode (suc (length (encode e items))) e board items s.name s.list ts whole
        (omega (arith, length-encode e items whole)) there in
    let run =
      brc_initial-found board s (after board s (encode e items)) (take brc_strlen board) ts
        (differ s.currboard board ne) read hit in
    rw run (refl, refl, refl)

-- Is the list saved, as it has changed and the user is no guest?
abbrev pub saves : Brc → Bool
saves s = s.changed && not (s.userlevel == 0)

brc_update-stays : (s : Brc) → saves s ≡ false → brc_update s ≡ s
unfolding brc_update
brc_update-stays s does_not = rw (does_not, brc_update) refl

-- What read_brc_buf leaves on the way to another board, where the buffer is empty.
filled :
    (board : Bytes) (s : Brc) (b : Bytes)
    → saves s ≡ false
    → (s.first == 0) ≡ true
    → s.file ≡ some b
    → length b ≤ brc_maxsize
    → read_brc_buf (record (brc_update s) { currboard = board })
      ≡ record s { currboard = board; buf = b; first = get_or b 0 s.first }
unfolding read_brc_buf
filled board s b does_not begins file small =
    rw (brc_update-stays s does_not) (rw begins (rw (file, take_short brc_maxsize b small) refl))

-- The list is not saved, and the buffer is empty or has the file.
brc_initial-unsaved :
    (board : Bytes) (s : Brc) (rs : List Item) (ts : List ℕ)
    → AllRecords s.expire_time rs
    → s.file ≡ some (encode s.expire_time rs)
    → length (encode s.expire_time rs) ≤ brc_maxsize - brc_itemsize
    → saves s ≡ false
    → (((s.first == 0) ≡ true) ⊎ (s.buf ≡ encode s.expire_time rs))
    → str_eq (take brc_strlen s.currboard) (take brc_strlen board) ≡ false
    → lookup board rs ≡ some ts
    → ((brc_initial board s).0 ≡ length ts)
      × ((brc_initial board s).1.list ≡ ts)
      × ((brc_initial board s).1.file ≡ s.file)
brc_initial-unsaved board s rs ts all file small does_not buffer ne found =
    let e = s.expire_time in
    let away = differ s.currboard board ne in
    let hit =
      initial_loop-encode (suc (length (encode e rs))) e board rs s.name s.list ts all
        (omega (arith, length-encode e rs all)) found in
    elim (Bool-cases (s.first == 0)) [
      | inl begins ↦
          let b = encode e rs in
          let s' = record s { currboard = board; buf = b; first = get_or b 0 s.first } in
          let run =
            brc_initial-found board s s' (take brc_strlen board) ts away
              (filled board s b does_not begins file (omega arith)) hit in
          rw run (refl, refl, refl)
      | inr more ↦ elim buffer [
        | inl begins ↦ absurd (ground arith)
        | inr same ↦
            let s' = record s { currboard = board } in
            let read : read_brc_buf (record (brc_update s) { currboard = board }) ≡ s' =
              rw (brc_update-stays s does_not) (read_brc_buf-begun s' more) in
            let run =
              brc_initial-found board s s' (take brc_strlen board) ts away read (rw same hit) in
            rw run (refl, refl, refl)
      ]
    ]

-- Let a record be a name that begins with a byte from blank to z, has no zero and at most 15 bytes,
-- and 1 to 80 times of 32 bits that have not expired, the first one later than that. Let the file
-- hold whole records, in at most brc_maxsize - brc_itemsize bytes; let the buffer be empty or have
-- the file; and let the list, if it has changed and the user is no guest, make a record with the
-- name of the current board. Then going to another board, which differs in the first 15 bytes of
-- its name and has a record in the file, gives the times of that record. If the list has changed
-- and the user is no guest, its record is in the file afterwards, before those of the other boards;
-- if not, the file is as it was.
pub brc_initial_lem :
    (board : Bytes) (s : Brc) (rs : List Item) (ts : List ℕ)
    → AllRecords s.expire_time rs
    → s.file ≡ some (encode s.expire_time rs)
    → length (encode s.expire_time rs) ≤ brc_maxsize - brc_itemsize
    → (((s.first == 0) ≡ true) ⊎ (s.buf ≡ encode s.expire_time rs))
    → (saves s ≡ true
        → IsRecord s.expire_time s.name s.list × (s.name ≡ take brc_strlen s.currboard))
    → str_eq (take brc_strlen s.currboard) (take brc_strlen board) ≡ false
    → lookup board rs ≡ some ts
    → ((brc_initial board s).0 ≡ length ts)
      × ((brc_initial board s).1.list ≡ ts)
      × ((brc_initial board s).1.file
          ≡ some (
              encode s.expire_time
                (if saves s then (s.name, s.list) ∷ others s.currboard rs else rs)))
brc_initial_lem board s rs ts all file small buffer own ne found = elim (Bool-cases (saves s)) [
  | inl does ↦
      let (mine, named) = own does in
      rw does (
        brc_initial-saved board s rs ts mine all file small (ground arith) (ground arith) named ne
          found)
  | inr does_not ↦
      let (count, times, same) =
        brc_initial-unsaved board s rs ts all file small does_not buffer ne found in
      rw does_not (count, times, same ∙ file)
]
