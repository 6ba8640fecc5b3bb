-- ===== src/Brc/Codec.antt =====
-- brc_putrecord and brc_getrecord of mbbsd/board.c.
use openptt.Prelude.{
  ℕ, zero, suc, ◌+◌, ◌-◌, ◌*◌, ◌/◌, ◌%◌, ◌^◌, ◌≤◌, ◌<◌, ◌≡◌, refl, ap, sym, ◌∙◌, true, false, List,
  [], ◌∷◌, ◌++◌, arith, ltb, ◌==◌, ◌&&◌, length, take, drop, get_or, replicate, length-take,
  take_short, length-append, length-replicate,
}
use mathlib.Core.List.{append_assoc}
use openptt.Prelude.Bytes.{Bytes}
use openptt.Records.Slices.{take-append, drop-append, take_all, drop-drop}
use openptt.Ranges.{cstr}
use openptt.Brc.{
  brc_strlen, brc_maxnum, get_ints, put_ints, put_name, brc_getrecord, fresh_part, brc_putrecord,
  at_record,
}

abbrev pub NoZero : Bytes → Type 0
NoZero [] = Unit {0}
NoZero (c ∷ s) = ((c == 0) ≡ false) × NoZero s

-- Times that fit into an int, and are not expired.
abbrev pub AllKept : ℕ → List ℕ → Type 0
AllKept expire [] = Unit {0}
AllKept expire (t ∷ ts) = (expire ≤ t) × (t < 2 ^ 32) × AllKept expire ts

abbrev pub AllInts : List ℕ → Type 0
AllInts [] = Unit {0}
AllInts (t ∷ ts) = (t < 2 ^ 32) × AllInts ts

AllKept-AllInts : (expire : ℕ) (ts : List ℕ) → AllKept expire ts → AllInts ts
AllKept-AllInts expire [] h = tt
AllKept-AllInts expire (t ∷ ts) h = (h.1, AllKept-AllInts expire ts h.2)

-- A record as brc_putrecord writes it: a name that a record can begin with, of at most 15 bytes, and at
-- most 80 times that are not expired, the first later than that.
pub record IsRecord (expire : ℕ) (name : Bytes) (times : List ℕ) : Type 0 where
  pub starts : at_record name ≡ true
  pub short : length name ≤ brc_strlen
  pub plain : NoZero name
  pub some_time : 0 < length times
  pub few : length times ≤ brc_maxnum
  pub kept : AllKept expire times
  pub fresh : expire < get_or times 0 0

get_or-append :
    (n : ℕ) (s : Bytes) (c : ℕ) (rest : Bytes) → length s ≡ n → get_or (s ++ c ∷ rest) n 0 ≡ c
get_or-append zero [] c rest h = refl
get_or-append zero (x ∷ s) c rest h = absurd (omega arith)
get_or-append (suc n) [] c rest h = absurd (omega arith)
get_or-append (suc n) (x ∷ s) c rest h = get_or-append n s c rest (omega arith)

get_ints-put_ints :
    (ts : List ℕ) (rest : Bytes)
    → AllInts ts
    → (get_ints (length ts) (put_ints ts ++ rest) ≡ ts)
      × (drop (length ts * 4) (put_ints ts ++ rest) ≡ rest)
unfolding get_ints put_ints
get_ints-put_ints [] rest h = (refl, refl)
get_ints-put_ints (t ∷ ts) rest h =
    let (back, behind) = get_ints-put_ints ts rest h.1 in
    let whole : t % 256
          + 256 * (t / 256 % 256)
          + 65536 * (t / 65536 % 256)
          + 16777216 * (t / 16777216 % 256)
        ≡ t =
      omega (arith, h.0) in
    let count : suc (length ts) * 4 ≡ suc (suc (suc (suc (length ts * 4)))) = omega arith in
    (rw (whole, back) refl, rw count behind)

get_or-AllKept :
    (expire : ℕ) (ts : List ℕ) (k : ℕ) → AllKept expire ts → k < length ts → expire ≤ get_or ts k 0
get_or-AllKept expire [] k h lt = absurd (omega arith)
get_or-AllKept expire (t ∷ ts) zero h lt = h.0
get_or-AllKept expire (t ∷ ts) (suc k) h lt = get_or-AllKept expire ts k h.2 (omega arith)

fresh_part-AllKept :
    (expire n : ℕ) (ts : List ℕ) → AllKept expire ts → n ≤ length ts → fresh_part expire n ts ≡ n
unfolding fresh_part
fresh_part-AllKept expire zero ts h le = refl
fresh_part-AllKept expire (suc n) ts h le =
    let e : (ltb 0 n && ltb (get_or ts n 0) expire) ≡ false =
      ground (arith, get_or-AllKept expire ts n h (omega arith)) in
    rw (e, fresh_part) refl

pub length-put_name : (name : Bytes) → length (put_name name) ≡ 15
length-put_name name = omega (
  arith,
  length-append {0} (take 15 name) (replicate (15 - length name) 0),
  length-take 15 name,
  length-replicate {A = ℕ} (15 - length name) 0,
)

cstr-append : (s : Bytes) (k : ℕ) → NoZero s → cstr (s ++ replicate k 0) ≡ s
cstr-append [] zero h = refl
cstr-append [] (suc k) h = refl
cstr-append (c ∷ s) k h = rw (h.0, cstr-append s k h.1) refl

NoZero-take : (n : ℕ) (s : Bytes) → NoZero s → NoZero (take n s)
NoZero-take zero s h = tt
NoZero-take (suc n) [] h = tt
NoZero-take (suc n) (c ∷ s) h = (h.0, NoZero-take n s h.1)

cstr-put_name : (name : Bytes) → NoZero name → cstr (put_name name) ≡ take brc_strlen name
cstr-put_name name z =
    cstr-append (take brc_strlen name) (15 - length name) (NoZero-take brc_strlen name z)

-- What brc_putrecord writes of a record as it should be.
pub brc_putrecord-IsRecord :
    (expire : ℕ) (name : Bytes) (ts : List ℕ)
    → IsRecord expire name ts
    → brc_putrecord expire name ts ≡ put_name name ++ (length ts ∷ put_ints ts)
unfolding brc_putrecord
brc_putrecord-IsRecord expire name [] r = absurd (omega (arith, r.some_time))
brc_putrecord-IsRecord expire name (t ∷ ts) r =
    let fresh : ltb expire t ≡ true = ground (arith, r.fresh) in
    let few : ltb brc_maxnum (length (t ∷ ts)) ≡ false = ground (arith, r.few) in
    let all : fresh_part expire (length (t ∷ ts)) (t ∷ ts) ≡ length (t ∷ ts) =
      fresh_part-AllKept expire (length (t ∷ ts)) (t ∷ ts) r.kept (omega arith) in
    rw (brc_putrecord, fresh, few, all)
      (ap (λ (us : List ℕ). put_name name ++ (length (t ∷ ts) ∷ put_ints us))
        (take_all (length (t ∷ ts)) (t ∷ ts) refl))

-- A record with a name and at most 80 times is read back, and what is behind it is left.
pub brc_getrecord-written :
    (name : Bytes) (ts : List ℕ) (rest : Bytes)
    → NoZero name
    → length ts ≤ brc_maxnum
    → AllInts ts
    → brc_getrecord ((put_name name ++ (length ts ∷ put_ints ts)) ++ rest)
      ≡ (take brc_strlen name, ts, rest)
unfolding brc_getrecord
brc_getrecord-written name ts rest plain le int =
    let n15 = length-put_name name in
    let ints = put_ints ts ++ rest in
    let front : (put_name name ++ (length ts ∷ put_ints ts)) ++ rest
        ≡ put_name name ++ (length ts ∷ ints) =
      append_assoc (put_name name) (length ts ∷ put_ints ts) rest in
    let num : get_or (put_name name ++ (length ts ∷ ints)) 15 0 ≡ length ts =
      get_or-append 15 (put_name name) (length ts) ints n15 in
    let behind : drop 16 (put_name name ++ (length ts ∷ ints)) ≡ ints =
      sym (drop-drop 1 15 (put_name name ++ (length ts ∷ ints)))
      ∙ ap (drop 1) (drop-append 15 (put_name name) (length ts ∷ ints) n15) in
    let named : cstr (take brc_strlen (put_name name ++ (length ts ∷ ints)))
        ≡ take brc_strlen name =
      ap cstr (take-append 15 (put_name name) (length ts ∷ ints) n15) ∙ cstr-put_name name plain in
    let few : ltb brc_maxnum (length ts) ≡ false = ground (arith, le) in
    let (back, after) = get_ints-put_ints ts rest int in
    rw front (rw (num, behind, few, named, back, after) refl)

-- brc_getrecord reads back what brc_putrecord has written of such a record, and stops behind it.
pub brc_getrecord-IsRecord :
    (expire : ℕ) (name : Bytes) (ts : List ℕ) (rest : Bytes)
    → IsRecord expire name ts
    → brc_getrecord (brc_putrecord expire name ts ++ rest) ≡ (name, ts, rest)
brc_getrecord-IsRecord expire name ts rest r = rw (brc_putrecord-IsRecord expire name ts r) (
    brc_getrecord-written name ts rest r.plain r.few (AllKept-AllInts expire ts r.kept)
    ∙ ap (λ (s : Bytes). (s, ts, rest)) (take_short 15 name r.short))
