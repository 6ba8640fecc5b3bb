-- ===== src/Input/Line.antt =====
-- The line that oldgetdata of mbbsd/io.c edits, as a text with a cursor.
use openptt.Prelude.{
  ℕ, zero, suc, ◌+◌, ◌-◌, ◌<◌, ◌≤◌, ◌≡◌, refl, ap, ◌∙◌, false, arith, inl, inr, Bool-cases, ltb,
  leb, ◌==◌, if◌then◌else◌, ◌&&◌, length, get_or, set, length-set, get_or-set,
}
use openptt.Prelude.Bytes.{Bytes}
use openptt.Input.{Prompt, shift_left, shift_right}

length-shift_left : (i k : ℕ) (b : Bytes) → length (shift_left i k b) ≡ length b
length-shift_left i zero b = refl
length-shift_left i (suc k) b =
    length-shift_left (suc i) k (set b i (get_or b (suc i) 0)) ∙ length-set b i (get_or b (suc i) 0)

length-shift_right : (i k : ℕ) (b : Bytes) → length (shift_right i k b) ≡ length b
length-shift_right i zero b = refl
length-shift_right i (suc k) b =
    length-shift_right i k (set b (i + suc k) (get_or b (i + k) 0))
    ∙ length-set b (i + suc k) (get_or b (i + k) 0)

get_or-shift_left :
    (i k : ℕ) (b : Bytes) (x : ℕ)
    → i + k < length b
    → get_or (shift_left i k b) x 0
      ≡ (if leb i x && ltb x (i + k) then get_or b (x + 1) 0 else get_or b x 0)
get_or-shift_left i zero b x h = ground arith
get_or-shift_left i (suc k) b x h =
    let c = get_or b (suc i) 0 in
    get_or-shift_left (suc i) k (set b i c) x (omega (arith, length-set b i c))
    ∙ elim (Bool-cases (x == i)) [
      | inl e ↦
          let moved : get_or b (x + 1) 0 ≡ c = ap (λ v. get_or b v 0) (ground arith) in
          ground (arith, moved, get_or-set b i x c (omega arith))
      | inr e ↦
          ground (arith, get_or-set b i x c (omega arith), get_or-set b i (x + 1) c (omega arith))
    ]

get_or-shift_right :
    (i k : ℕ) (b : Bytes) (x : ℕ)
    → i + k < length b
    → get_or (shift_right i k b) x 0
      ≡ (if ltb i x && leb x (i + k) then get_or b (x - 1) 0 else get_or b x 0)
get_or-shift_right i zero b x h = ground arith
get_or-shift_right i (suc k) b x h =
    let c = get_or b (i + k) 0 in
    get_or-shift_right i k (set b (i + suc k) c) x (omega (arith, length-set b (i + suc k) c))
    ∙ elim (Bool-cases (x == i + suc k)) [
      | inl e ↦
          let moved : get_or b (x - 1) 0 ≡ c = ap (λ v. get_or b v 0) (ground arith) in
          ground (arith, moved, get_or-set b (i + suc k) x c (omega arith))
      | inr e ↦ ground (
        arith,
        get_or-set b (i + suc k) x c (omega arith),
        get_or-set b (i + suc k) (x - 1) c (omega arith),
      )
    ]

-- The line fits its buffer, ends with a zero and has none before, and the cursor is in it.
pub record IsPrompt (p : Prompt) : Type 0 where
  pub fits : length p.buf ≡ p.len + 1
  pub short : p.clen ≤ p.len
  pub inside : p.currchar ≤ p.clen
  pub ended : get_or p.buf p.clen 0 ≡ 0
  pub full : (x : ℕ) → x < p.clen → (get_or p.buf x 0 == 0) ≡ false

-- A text with a cursor; behind its end there are zeros.
pub record View : Type 0 where
  pub char : ℕ → ℕ
  pub size : ℕ
  pub cursor : ℕ

abbrev pub view : Prompt → View
view p = record {
  char = λ x. if ltb x p.clen then get_or p.buf x 0 else 0;
  size = p.clen;
  cursor = p.currchar;
}

pub record Same (v w : View) : Type 0 where
  pub size : v.size ≡ w.size
  pub cursor : v.cursor ≡ w.cursor
  pub char : (x : ℕ) → v.char x ≡ w.char x

abbrev pub without : (i : ℕ) → View → View
without i v = record v {
  size = v.size - 1;
  char = λ x. if ltb x i then v.char x else v.char (x + 1);
}

abbrev pub with_char : (c i : ℕ) → View → View
with_char c i v = record v {
  size = v.size + 1;
  char = λ x. if ltb x i then v.char x else (if x == i then c else v.char (x - 1));
}

abbrev pub cut_off : (n : ℕ) → View → View
cut_off n v = record v { size = n; char = λ x. if ltb x n then v.char x else 0 }

-- Without the byte at `i`
pub remove_lem :
    (i : ℕ) (p : Prompt)
    → IsPrompt p
    → i < p.clen
    → let q = record p {
      currchar = i;
      clen = p.clen - 1;
      buf = shift_left i (p.clen - 1 + 1 - i) p.buf;
    } in
      IsPrompt q × Same (view q) (record (without i (view p)) { cursor = i })
remove_lem i p h lt =
    let k = p.clen - 1 + 1 - i in
    let at = λ (x : ℕ). get_or-shift_left i k p.buf x (omega (arith, h.fits, h.short)) in
    (
      record {
        fits = length-shift_left i k p.buf ∙ h.fits;
        short = omega (arith, h.short);
        inside = omega arith;
        ended = ground (arith, at (p.clen - 1), h.ended);
        full = λ x l. ground (arith, at x, h.full x (omega arith), h.full (x + 1) (omega arith));
      },
      record { size = refl; cursor = refl; char = λ x. ground (arith, at x) },
    )

-- With a byte put in before `i`
pub insert_lem :
    (c i : ℕ) (p : Prompt)
    → IsPrompt p
    → i ≤ p.clen
    → p.clen < p.len
    → (c == 0) ≡ false
    → let q = record p {
      currchar = i + 1;
      clen = p.clen + 1;
      buf = set (shift_right i (p.clen + 1 - i) p.buf) i c;
    } in
      IsPrompt q × Same (view q) (record (with_char c i (view p)) { cursor = i + 1 })
insert_lem c i p h le room nonzero =
    let k = p.clen + 1 - i in
    let b = shift_right i k p.buf in
    let long = length-shift_right i k p.buf in
    let at = λ (x : ℕ).
      get_or-set b i x c (omega (arith, long, h.fits))
      ∙ ap (λ y. if x == i then c else y)
          (get_or-shift_right i k p.buf x (omega (arith, h.fits))) in
    (
      record {
        fits = length-set b i c ∙ long ∙ h.fits;
        short = omega arith;
        inside = omega arith;
        ended =
            let last : get_or p.buf (p.clen + 1 - 1) 0 ≡ 0 =
              ap (λ v. get_or p.buf v 0) (omega arith) ∙ h.ended in
            ground (arith, at (p.clen + 1), last);
        full = λ x l. ground (arith, at x, h.full x, h.full (x - 1));
      },
      record { size = refl; cursor = refl; char = λ x. ground (arith, at x) },
    )

pub cut_lem :
    (n : ℕ) (p : Prompt)
    → IsPrompt p
    → n ≤ p.clen
    → let q = record p { currchar = n; clen = n; buf = set p.buf n 0 } in
      IsPrompt q × Same (view q) (record (cut_off n (view p)) { cursor = n })
cut_lem n p h le =
    let at = λ (x : ℕ). get_or-set p.buf n x 0 (omega (arith, h.fits, h.short)) in
    (
      record {
        fits = length-set p.buf n 0 ∙ h.fits;
        short = omega (arith, h.short);
        inside = omega arith;
        ended = ground (arith, at n);
        full = λ x l. ground (arith, at x, h.full x (omega arith));
      },
      record { size = refl; cursor = refl; char = λ x. ground (arith, at x) },
    )

pub at_end : (p : Prompt) → IsPrompt p → (get_or p.buf p.currchar 0 == 0) ≡ (p.currchar == p.clen)
at_end p h = elim (Bool-cases (p.currchar == p.clen)) [
  | inl e ↦
      let there : p.currchar ≡ p.clen = ground arith in
      let zero_here : get_or p.buf p.currchar 0 ≡ 0 = ap (λ v. get_or p.buf v 0) there ∙ h.ended in
      rw (zero_here, e) refl
  | inr e ↦ rw e (h.full p.currchar (ground (arith, h.inside)))
]
