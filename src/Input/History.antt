-- ===== src/Input/History.antt =====
-- The history of the prompt of mbbsd/io.c, and the loop over its keys.
use openptt.Prelude.{
  ℕ, zero, suc, ◌+◌, ◌<◌, ◌≤◌, ◌≡◌, refl, ◌∙◌, false, some, List, [], ◌∷◌, ◌++◌, arith, inl, inr,
  Bool-cases, ltb, ◌==◌, ◌||◌, length, get_or, set, take, drop, replicate, length-set, get_or-set,
  length-append, length-take, length-drop, length-replicate,
}
use openptt.Prelude.Bytes.{Bytes}
use openptt.Ranges.{cstr}
use openptt.Input.{
  Prompt, left, right, rubout, kill, delete, insert, up, down, edit_key, edit_loop, recall,
  save_line, strncpy, ctrl, key_up, key_down,
}
use openptt.Input.Line.{IsPrompt}
use openptt.Input.Editing.{edit_key-text_key}

cstr-end : (b : Bytes) → get_or b (length (cstr b)) 0 ≡ 0
cstr-end [] = refl
cstr-end (c ∷ b) = elim (Bool-cases (c == 0)) [
  | inl e ↦ rw e (ground arith)
  | inr e ↦ rw e (cstr-end b)
]

cstr-full : (b : Bytes) (x : ℕ) → x < length (cstr b) → (get_or b x 0 == 0) ≡ false
cstr-full [] x h = absurd (omega arith)
cstr-full (c ∷ b) zero h = elim (Bool-cases (c == 0)) [ inl e ↦ absurd (ground arith) | inr e ↦ e ]
cstr-full (c ∷ b) (suc x) h = elim (Bool-cases (c == 0)) [
  | inl e ↦ absurd (ground arith)
  | inr e ↦ cstr-full b x (ground arith)
]

length-cstr : (b : Bytes) (n : ℕ) → get_or b n 0 ≡ 0 → length (cstr b) ≤ n
length-cstr b n h = elim (Bool-cases (ltb n (length (cstr b)))) [
  | inl e ↦ let no = cstr-full b n (ground arith) in absurd (ground arith)
  | inr e ↦ ground arith
]

length-strncpy : (n : ℕ) (s t : Bytes) → n ≤ length t → length (strncpy n s t) ≡ length t
length-strncpy n s t h = omega (
  arith,
  length-append {0} (take n (s ++ replicate n 0)) (drop n t),
  length-take n (s ++ replicate n 0),
  length-append {0} s (replicate n 0),
  length-replicate {A = ℕ} n 0,
  length-drop n t,
)

recall-IsPrompt : (k : ℕ) (p : Prompt) → length p.buf ≡ p.len + 1 → IsPrompt (recall k p)
recall-IsPrompt k p h =
    let entry = cstr (get_or p.lastcmd k []) in
    let copied = strncpy p.len entry p.buf in
    let long = length-strncpy p.len entry p.buf (omega arith) in
    let b = set copied p.len 0 in
    let last : get_or b p.len 0 ≡ 0 =
      ground (arith, get_or-set copied p.len p.len 0 (omega (arith, long))) in
    record {
      fits = length-set copied p.len 0 ∙ long ∙ h;
      short = length-cstr b p.len last;
      inside = omega arith;
      ended = cstr-end b;
      full = cstr-full b;
    }

edit_key-IsPrompt : (ch : ℕ) (p : Prompt) → IsPrompt p → IsPrompt (edit_key ch p)
unfolding edit_key up down
edit_key-IsPrompt ch p h = elim (Bool-cases ((ch == key_down) || (ch == ctrl b'N'))) [
  | inl e ↦ rw (edit_key, e) (recall-IsPrompt _ (save_line p) (length-set p.buf p.clen 0 ∙ h.fits))
  | inr e ↦ elim (Bool-cases ((ch == ctrl b'P') || (ch == key_up))) [
    | inl g ↦
        rw (edit_key, e, g) (recall-IsPrompt _ (save_line p) (length-set p.buf p.clen 0 ∙ h.fits))
    | inr g ↦ (edit_key-text_key ch p h e g).0
  ]
]

edit_key-len : (ch : ℕ) (p : Prompt) → (edit_key ch p).len ≡ p.len
unfolding edit_key left right rubout kill delete insert up down
edit_key-len ch p = ground arith

-- Whatever keys are pressed before a return: the prompt ends there with a line that fits its buffer, has
-- its closing zero, and no other before.
pub edit_loop-IsPrompt :
    (keys rest : List ℕ) (p : Prompt)
    → IsPrompt p
    → (q : Prompt) × (edit_loop (keys ++ b'\r' ∷ rest) p ≡ some q) × IsPrompt q × (q.len ≡ p.len)
unfolding edit_loop
edit_loop-IsPrompt [] rest p h = (p, refl, h, refl)
edit_loop-IsPrompt (ch ∷ keys) rest p h = elim (Bool-cases (ch == b'\r')) [
  | inl e ↦ (p, rw (edit_loop, e) refl, h, refl)
  | inr e ↦
      let (q, run, ok, len) =
        edit_loop-IsPrompt keys rest (edit_key ch p) (edit_key-IsPrompt ch p h) in
      (q, rw (edit_loop, e) run, ok, len ∙ edit_key-len ch p)
]
