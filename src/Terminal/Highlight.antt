-- ===== src/Terminal/Highlight.antt =====
-- standoutput of mbbsd/screen.c: the text it writes and the text it highlights.
use Prim.Native.Nat.{max, min}
use openptt.Prelude.{
  ℕ, zero, suc, ◌+◌, ◌-◌, ◌≤◌, ◌≡◌, refl, ap, sym, ◌∙◌, Bool, true, false, List, [], ◌∷◌, ◌++◌, inl,
  inr, arith, ltb, leb, if◌then◌else◌, ◌||◌, Bool-cases, take, drop,
}
use mathlib.Core.List.{append-nil}
use openptt.Prelude.Bytes.{Bytes}
use openptt.Records.Slices.{drop-drop}
use openptt.Terminal.{Cmd, char, text, goto, standup, standdown, slice, standoutput}

-- The text, and the text that is highlighted.
abbrev pub shown : List Cmd → Bytes
shown [] = []
shown (text s ∷ cs) = s ++ shown cs
shown (char c ∷ cs) = shown cs
shown (goto col ln ∷ cs) = shown cs
shown (standup ∷ cs) = shown cs
shown (standdown ∷ cs) = shown cs

abbrev pub lit : Bool → List Cmd → Bytes
lit on [] = []
lit on (text s ∷ cs) = if on then s ++ lit on cs else lit on cs
lit on (char c ∷ cs) = lit on cs
lit on (goto col ln ∷ cs) = lit on cs
lit on (standup ∷ cs) = lit true cs
lit on (standdown ∷ cs) = lit false cs

take_split : (n m : ℕ) (s : Bytes) → take n s ++ take m (drop n s) ≡ take (n + m) s
take_split zero m s = let e : 0 + m ≡ m = omega arith in rw e refl
take_split (suc n) zero [] = let e : suc n + 0 ≡ suc (n + 0) = omega arith in rw e refl
take_split (suc n) (suc m) [] = let e : suc n + suc m ≡ suc (n + suc m) = omega arith in rw e refl
take_split (suc n) m (c ∷ s) =
    let e : suc n + m ≡ suc (n + m) = omega arith in rw e (ap (c ∷◌) (take_split n m s))

slice-append :
    (a b c : ℕ) (buf : Bytes) → a ≤ b → b ≤ c → slice a b buf ++ slice b c buf ≡ slice a c buf
slice-append a b c buf h k =
    let from : drop b buf ≡ drop (b - a) (drop a buf) =
      let e : b ≡ a + (b - a) = omega arith in
      ap (λ n. drop n buf) e ∙ sym (drop-drop (b - a) a buf) in
    let count : b - a + (c - b) ≡ c - a = omega arith in
    rw from (take_split (b - a) (c - b) (drop a buf) ∙ ap (λ n. take n (drop a buf)) count)

-- Of the bytes from `ds` to before `de` it writes each once and in order, and highlights those of them
-- from `sso` to before `eso`.
pub standoutput_lem :
    (buf : Bytes) (ds de sso eso : ℕ)
    → ds ≤ de
    → sso ≤ eso
    → (shown (standoutput buf ds de sso eso) ≡ slice ds de buf)
      × (lit false (standoutput buf ds de sso eso) ≡ slice (max sso ds) (min eso de) buf)
unfolding standoutput
standoutput_lem buf ds de sso eso h k = elim (Bool-cases (leb eso ds || leb de sso)) [
  | inl e ↦
      let none_lit : min eso de - max sso ds ≡ 0 = ground arith in
      rw (standoutput, e, none_lit) (append-nil (slice ds de buf), refl)
  | inr e ↦ elim (Bool-cases (ltb ds sso)) [
    | inl a ↦
        let start : max sso ds ≡ sso = ground arith in
        elim (Bool-cases (ltb eso de)) [
          | inl z ↦
              let stop : min eso de ≡ eso = ground arith in
              rw (standoutput, e, a, z, start, stop)
                (
                  ap (slice ds sso buf ++◌) (
                        ap (slice sso eso buf ++◌) (append-nil (slice eso de buf))
                        ∙ slice-append sso eso de buf k (ground arith))
                      ∙ slice-append ds sso de buf (ground arith) (ground arith),
                  append-nil _,
                )
          | inr z ↦
              let stop : min eso de ≡ de = ground arith in
              rw (standoutput, e, a, z, start, stop)
                (
                  ap (slice ds sso buf ++◌) (append-nil (slice sso de buf))
                      ∙ slice-append ds sso de buf (ground arith) (ground arith),
                  append-nil _,
                )
        ]
    | inr a ↦
        let start : max sso ds ≡ ds = ground arith in
        elim (Bool-cases (ltb eso de)) [
          | inl z ↦
              let stop : min eso de ≡ eso = ground arith in
              rw (standoutput, e, a, z, start, stop)
                (
                  ap (slice ds eso buf ++◌) (append-nil (slice eso de buf))
                      ∙ slice-append ds eso de buf (ground arith) (ground arith),
                  append-nil _,
                )
          | inr z ↦
              let stop : min eso de ≡ de = ground arith in
              rw (standoutput, e, a, z, start, stop) (append-nil (slice ds de buf), append-nil _)
        ]
  ]
]
