-- ===== src/Screen/Filtering.antt =====
-- parsecolor of mbbsd/screen.c on the numbers of an escape sequence.
use openptt.Prelude.{
  ℕ, ◌≡◌, ap, sym, ◌∙◌, Bool, true, false, List, [], ◌∷◌, ◌++◌, inl, inr, Bool-cases, ltb, ◌==◌,
  if◌then◌else◌,
}
use mathlib.Core.List.{append_assoc, append-nil}
use openptt.Prelude.Bytes.{Bytes}
use openptt.Screen.Colours.{semicolon, atoi, tokens, keep_loop, parsecolor}

-- The tokens whose number is no colour.
abbrev pub uncoloured : List Bytes → List Bytes
uncoloured [] = []
uncoloured (val ∷ vals) = if ltb (atoi val) 30 then val ∷ uncoloured vals else uncoloured vals

abbrev NoSemicolon : Bytes → Type 0
NoSemicolon [] = Unit {0}
NoSemicolon (c ∷ s) = ((c == semicolon) ≡ false) × NoSemicolon s

abbrev IsToken : Bytes → Type 0
IsToken [] = Path Bool true false
IsToken (c ∷ s) = NoSemicolon (c ∷ s)

abbrev AllTokens : List Bytes → Type 0
AllTokens [] = Unit {0}
AllTokens (t ∷ ts) = IsToken t × AllTokens ts

NoSemicolon-snoc :
    (s : Bytes) (c : ℕ) → NoSemicolon s → (c == semicolon) ≡ false → NoSemicolon (s ++ c ∷ [])
NoSemicolon-snoc [] c h k = (k, tt)
NoSemicolon-snoc (b ∷ s) c h k = (h.0, NoSemicolon-snoc s c h.1 k)

tokens-AllTokens : (tok s : Bytes) → NoSemicolon tok → AllTokens (tokens tok s)
unfolding tokens
tokens-AllTokens [] [] h = tt
tokens-AllTokens (t ∷ ts) [] h = (h, tt)
tokens-AllTokens [] (c ∷ s) h = elim (Bool-cases (c == semicolon)) [
  | inl e ↦ rw (tokens, e) (tokens-AllTokens [] s tt)
  | inr e ↦ rw (tokens, e) (tokens-AllTokens (c ∷ []) s (e, tt))
]
tokens-AllTokens (t ∷ ts) (c ∷ s) h = elim (Bool-cases (c == semicolon)) [
  | inl e ↦ rw (tokens, e) (h, tokens-AllTokens [] s tt)
  | inr e ↦
      rw (tokens, e) (tokens-AllTokens ((t ∷ ts) ++ c ∷ []) s (NoSemicolon-snoc (t ∷ ts) c h e))
]

-- A token is the only one in itself.
tokens-token :
    (t : ℕ) (tok val : Bytes) → NoSemicolon val → tokens (t ∷ tok) val ≡ (t ∷ (tok ++ val)) ∷ []
unfolding tokens
tokens-token t tok [] h = ap (λ (b : Bytes). (t ∷ b) ∷ []) (sym (append-nil tok))
tokens-token t tok (c ∷ val) h =
    rw (tokens, h.0)
      (tokens-token t (tok ++ c ∷ []) val h.1
        ∙ ap (λ (b : Bytes). (t ∷ b) ∷ []) (append_assoc tok (c ∷ []) val))

tokens-IsToken : (val : Bytes) → IsToken val → tokens [] val ≡ val ∷ []
unfolding tokens
tokens-IsToken [] h = cc
tokens-IsToken (c ∷ val) h = rw (tokens, h.0) (tokens-token c [] val h.1)

-- What parsecolor puts behind a ";" is one more token.
tokens-snoc :
    (tok s val : Bytes) → IsToken val → tokens tok (s ++ semicolon ∷ val) ≡ tokens tok s ++ val ∷ []
unfolding tokens
tokens-snoc [] [] val h = tokens-IsToken val h
tokens-snoc (t ∷ ts) [] val h = ap (λ (b : List Bytes). (t ∷ ts) ∷ b) (tokens-IsToken val h)
tokens-snoc [] (c ∷ s) val h = elim (Bool-cases (c == semicolon)) [
  | inl e ↦ rw (tokens, e) (tokens-snoc [] s val h)
  | inr e ↦ rw (tokens, e) (tokens-snoc (c ∷ []) s val h)
]
tokens-snoc (t ∷ ts) (c ∷ s) val h = elim (Bool-cases (c == semicolon)) [
  | inl e ↦ rw (tokens, e) (ap (λ (b : List Bytes). (t ∷ ts) ∷ b) (tokens-snoc [] s val h))
  | inr e ↦ rw (tokens, e) (tokens-snoc ((t ∷ ts) ++ c ∷ []) s val h)
]

tokens-keep_loop :
    (d : Bytes) (vals : List Bytes)
    → AllTokens vals
    → tokens [] (keep_loop d vals) ≡ tokens [] d ++ uncoloured vals
unfolding keep_loop tokens
tokens-keep_loop d [] h = sym (append-nil (tokens [] d))
tokens-keep_loop [] (val ∷ vals) h = elim (Bool-cases (ltb (atoi val) 30)) [
  | inl e ↦
      rw (keep_loop, e)
        (tokens-keep_loop val vals h.1
          ∙ ap (λ (b : List Bytes). b ++ uncoloured vals) (tokens-IsToken val h.0))
  | inr e ↦ rw (keep_loop, e) (tokens-keep_loop [] vals h.1)
]
tokens-keep_loop (c ∷ d) (val ∷ vals) h = elim (Bool-cases (ltb (atoi val) 30)) [
  | inl e ↦
      rw (keep_loop, e)
        (tokens-keep_loop ((c ∷ d) ++ (semicolon ∷ val)) vals h.1
          ∙ ap (λ (b : List Bytes). b ++ uncoloured vals) (tokens-snoc [] (c ∷ d) val h.0)
          ∙ append_assoc (tokens [] (c ∷ d)) (val ∷ []) (uncoloured vals))
  | inr e ↦ rw (keep_loop, e) (tokens-keep_loop (c ∷ d) vals h.1)
]

-- The numbers of what parsecolor leaves are those of the sequence that are below 30, in their order.
pub tokens-parsecolor : (buf : Bytes) → tokens [] (parsecolor buf) ≡ uncoloured (tokens [] buf)
unfolding parsecolor
tokens-parsecolor buf = tokens-keep_loop [] (tokens [] buf) (tokens-AllTokens [] buf tt)
