-- ===== src/Votes.antt =====
-- strip_ansi of mbbsd/vote.c, and the functions that count the votes of a board.
pub mod Stripping
pub mod Counting
use openptt.Prelude.{
  ℕ, zero, suc, ◌+◌, ◌-◌, Bool, true, false, List, [], ◌∷◌, leb, ◌==◌, if◌then◌else◌, ◌&&◌, ◌||◌,
  not, get_or, set, replicate,
}
use openptt.Prelude.Bytes.{Bytes, codes}

-- The modes of strip_ansi.
pub data Strip : Type 0 where
  strip_all only_color no_reload : Strip

abbrev pub escape : ℕ
escape = 27

-- strchr of a byte that is not zero.
abbrev pub strchr : Bytes → ℕ → Bool
strchr [] c = false
strchr (b ∷ s) c = (c == b) || strchr s c

abbrev pub keeps_escape : Strip → Bool
keeps_escape strip_all = false
keeps_escape _ = true

-- Is a byte of a sequence kept?
abbrev pub keeps : Strip → ℕ → Bool
keeps strip_all c = false
keeps only_color c = strchr (codes "[;1234567890m") c
keeps no_reload c = not (strchr (codes "c=n") c)

-- strip_ansi, what it writes; its result is the length. `ansi` is whether it is in a sequence.
unfoldable pub strip_loop : Strip → (ansi : Bool) → Bytes → Bytes
strip_loop mode ansi [] = []
strip_loop mode ansi (c ∷ s) =
    let in_sequence = strip_loop mode true s in
    let outside = strip_loop mode false s in
    if c == escape
    then (if keeps_escape mode then c ∷ in_sequence else in_sequence)
    else (if ansi && strchr (codes "[;1234567890mfHABCDnsuJKc=n") c
        then (let rest = if strchr (codes "mHn ") c then outside else in_sequence in
            if keeps mode c then c ∷ rest else rest)
        else c ∷ outside)

abbrev pub strip_ansi : Strip → Bytes → Bytes
strip_ansi mode s = strip_loop mode false s

-- The loop of b_count: a vote is a letter, and its count is at its place behind A. What the code adds to
-- outside of the counts, where a byte is no such letter, is left out.
unfoldable pub count_votes : Bytes → List ℕ → List ℕ
count_votes [] counts = counts
count_votes (inchar ∷ s) counts = count_votes s (
    if leb b'A' inchar
    then set counts (inchar - b'A') (get_or counts (inchar - b'A') 0 + 1)
    else counts)

unfoldable pub votes_total : Bytes → ℕ
votes_total [] = 0
votes_total (inchar ∷ s) = votes_total s + 1

-- b_count of a file: the 31 counts, and `total`.
unfoldable pub b_count : Bytes → List ℕ × ℕ
unfolding count_votes votes_total
b_count file = (count_votes file (replicate 31 0), votes_total file)

-- The loop of same; the list has one cell more than it looks at.
unfoldable pub same_loop : (compare : ℕ) → (rep : Bool) → Bytes → Bool × Bytes
same_loop compare rep [] = (rep, [])
same_loop compare rep (x ∷ []) = (rep, x ∷ [])
same_loop compare rep (x ∷ y ∷ s) =
    let rep' = rep || compare == x in
    let (found, rest) = same_loop compare rep' (y ∷ s) in (found, (if rep' then y else x) ∷ rest)

abbrev pub same : (compare : ℕ) → Bytes → Bool × Bytes
same compare list = same_loop compare false list
