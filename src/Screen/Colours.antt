-- ===== src/Screen/Colours.antt =====
-- outc of mbbsd/screen.c: where the user wants no colours, it takes them out of the escape sequences.
use openptt.Prelude.{
  ℕ, zero, suc, ◌+◌, ◌-◌, ◌*◌, Bool, true, false, List, [], ◌∷◌, ◌++◌, ltb, leb, ◌==◌,
  if◌then◌else◌, ◌&&◌, ◌||◌, get_or, set,
}
use openptt.Prelude.Bytes.{Bytes}
use openptt.Ranges.{cstr}
use openptt.Screen.{Screen, outch}

abbrev pub semicolon : ℕ
semicolon = 59

abbrev escape : ℕ
escape = 27

abbrev is_space : ℕ → Bool
is_space c = (c == 32) || (leb 9 c && leb c 13)

-- atoi, for which a negative number counts as 0.
abbrev digits : ℕ → Bytes → ℕ
digits n [] = n
digits n (c ∷ s) = if leb b'0' c && leb c b'9' then digits (n * 10 + (c - b'0')) s else n

unfoldable pub atoi : Bytes → ℕ
atoi [] = 0
atoi (c ∷ s) =
    let rest = atoi s in
    if is_space c
    then rest
    else (if c == b'+' then digits 0 s else (if c == b'-' then 0 else digits 0 (c ∷ s)))

-- The tokens of strtok(buf, ";"), where `token` has been read of the first.
unfoldable pub tokens : (token : Bytes) → Bytes → List Bytes
tokens [] [] = []
tokens (t ∷ ts) [] = (t ∷ ts) ∷ []
tokens token (c ∷ s) =
    let next = tokens [] s in
    let on = tokens (token ++ c ∷ []) s in
    if c == semicolon
    then (elim token as (λ _. List Bytes) [ [] ↦ next | t ∷ ts ↦ (t ∷ ts) ∷ next ])
    else on

-- The loop of parsecolor: `data` has what is kept, with ";" between.
unfoldable pub keep_loop : (cells : Bytes) → List Bytes → Bytes
unfolding atoi
keep_loop cells [] = cells
keep_loop cells (val ∷ vals) =
    keep_loop
      (if ltb (atoi val) 30
        then (elim cells as (λ _. Bytes) [ [] ↦ val | d ∷ ds ↦ (d ∷ ds) ++ (semicolon ∷ val) ])
        else cells)
      vals

unfoldable pub parsecolor : Bytes → Bytes
unfolding tokens keep_loop
parsecolor buf = keep_loop [] (tokens [] buf)

pub data Mode : Type 0 where
  normal in_escape vtkeys : Mode

-- The static variables of outc. `buf` has 24 bytes; what is written behind them is lost in the model.
pub record Filter : Type 0 where
  pub buf : Bytes
  pub p : ℕ
  pub mode : Mode

abbrev not_alpha : ℕ → Bool
not_alpha ch = ltb ch b'A' || (ltb b'Z' ch && ltb ch b'a') || ltb b'z' ch

abbrev pub outchs : Bytes → Screen → Screen
outchs [] s = s
outchs (c ∷ cs) s = outchs cs (outch c s)

-- strcpy
abbrev write_string : ℕ → Bytes → Bytes → Bytes
write_string i [] b = set b i 0
write_string i (c ∷ cs) b = write_string (suc i) cs (set b i c)

-- The end of a sequence.
unfoldable pub flush_sequence : (ch : ℕ) → Filter → Screen → Filter × Screen
flush_sequence ch f s = (
  record f { p = 0; mode = normal },
  (if get_or f.buf 0 0 == 0 then s else outchs (escape ∷ b'[' ∷ (cstr f.buf ++ ch ∷ [])) s),
)

unfoldable pub outc : (showansi : Bool) → (ch : ℕ) → Filter → Screen → Filter × Screen
unfolding flush_sequence parsecolor
outc true ch f s = (f, outch ch s)
outc false ch f s = elim f.mode as (λ _. Filter × Screen) [
  | normal ↦ if ch == escape then (record f { mode = in_escape }, s) else (f, outch ch s)
  | in_escape ↦
      if ch == b'['
      then (record f { mode = vtkeys }, s)
      else (record f { mode = normal }, outch ch (outch escape s))
  | vtkeys ↦
      if ch == b'm'
      then (let b = set f.buf f.p 0 in
          flush_sequence ch (record f { buf = write_string 0 (parsecolor (cstr b)) b }) s)
      else (if ltb f.p 24 && not_alpha ch
          then (record f { buf = set f.buf f.p ch; p = f.p + 1 }, s)
          else flush_sequence ch f s)
]

unfoldable pub outs : (showansi : Bool) → Bytes → Filter → Screen → Filter × Screen
unfolding outc
outs showansi [] f s = (f, s)
outs showansi (c ∷ cs) f s = let (f', s') = outc showansi c f s in outs showansi cs f' s'

-- Jaky_outs, which stops after `line` lines.
unfoldable pub jaky_outs :
    (showansi : Bool) → (line : ℕ) → Bytes → Filter → Screen → Filter × Screen
unfolding outc
jaky_outs showansi line [] f s = (f, s)
jaky_outs showansi zero (c ∷ cs) f s = (f, s)
jaky_outs showansi (suc line) (c ∷ cs) f s =
    let (f', s') = outc showansi c f s in
    jaky_outs showansi (if c == b'\n' then line else suc line) cs f' s'

-- edit_outs, which shows an escape as a star and stops before the right edge.
unfoldable pub edit_loop : (column : ℕ) → Bytes → Screen → Screen
unfolding outch
edit_loop column [] s = s
edit_loop column (ch ∷ text) s =
    let column = column + 1 in
    let rest = edit_loop column text (outch (if ch == 27 then b'*' else ch) s) in
    if ltb column 80 then rest else s

abbrev pub edit_outs : Bytes → Screen → Screen
edit_outs text s = edit_loop 0 text s
