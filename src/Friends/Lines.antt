-- ===== src/Friends/Lines.antt =====
-- Files of lines, as friend_add and friend_delete of mbbsd/friend.c keep them, read by fgets and strtok.
use mathlib.Core.List.{append_assoc}
use openptt.Prelude.{
  ℕ, zero, suc, ◌<◌, ◌≤◌, Bool, true, false, some, List, [], ◌∷◌, ◌++◌, ◌≡◌, refl, ◌==◌, ◌&&◌, not,
  map, length, arith, length-append, ◌∙◌, ap,
}
use openptt.Prelude.Bytes.{Bytes}
use openptt.Prelude.Stdio.{fgets, reads, fgets_all, is_blank, word, strtok, starts_with}

abbrev pub end_line : Bytes → Bytes
end_line l = l ++ 10 ∷ []

unfoldable pub unlines : List Bytes → Bytes
unlines [] = []
unlines (l ∷ ls) = l ++ (10 ∷ unlines ls)

abbrev pub no_newline : Bytes → Bool
no_newline [] = true
no_newline (c ∷ s) = not (c == 10) && no_newline s

-- Each line fits into a buffer of 80 bytes.
abbrev pub AreLines : List Bytes → Type 0
AreLines [] = Unit {0}
AreLines (l ∷ ls) = (no_newline l ≡ true) × (length l < 79) × AreLines ls

pub AreLines-append : (xs ys : List Bytes) → AreLines xs → AreLines ys → AreLines (xs ++ ys)
AreLines-append [] ys h k = k
AreLines-append (x ∷ xs) ys (p, q, h) k = (p, q, AreLines-append xs ys h k)

pub unlines-append : (xs ys : List Bytes) → unlines (xs ++ ys) ≡ unlines xs ++ unlines ys
unfolding unlines
unlines-append [] ys = refl
unlines-append (x ∷ xs) ys = simp (unlines-append xs ys, append_assoc)

fgets-line :
    (n : ℕ) (l rest : Bytes)
    → no_newline l ≡ true
    → length l < n
    → fgets n (l ++ (10 ∷ rest)) ≡ (end_line l, rest)
unfolding fgets
fgets-line zero l rest p h = absurd (omega arith)
fgets-line (suc n) [] rest p h = refl
fgets-line (suc n) (c ∷ l) rest p h =
    let step : fgets n (l ++ (10 ∷ rest)) ≡ (end_line l, rest) =
      fgets-line n l rest (ground arith) (omega arith) in
    let other : (c == 10) ≡ false = ground arith in rw (step, other) refl

reads-line :
    (fuel n : ℕ) (l rest : Bytes)
    → no_newline l ≡ true
    → length l < n
    → reads (suc fuel) n (l ++ (10 ∷ rest)) ≡ end_line l ∷ reads fuel n rest
unfolding reads
reads-line fuel n [] rest p h = rw (fgets-line n [] rest p h) refl
reads-line fuel n (c ∷ l) rest p h = rw (fgets-line n (c ∷ l) rest p h) refl

-- fgets reads the lines of a file one by one.
pub reads-unlines :
    (fuel n : ℕ) (ls : List Bytes)
    → 79 ≤ n
    → AreLines ls
    → length (unlines ls) ≤ fuel
    → reads fuel n (unlines ls) ≡ map end_line ls
unfolding unlines
reads-unlines zero n [] big h le = unfold reads in refl
reads-unlines (suc fuel) n [] big h le = unfold reads in refl
reads-unlines zero n (l ∷ ls) big h le =
    absurd (omega (arith, length-append {0} l (10 ∷ unlines ls)))
reads-unlines (suc fuel) n (l ∷ ls) big (p, q, h) le =
    reads-line fuel n l (unlines ls) p (omega arith)
    ∙ ap (end_line l ∷◌)
        (reads-unlines fuel n ls big h (omega (arith, length-append {0} l (10 ∷ unlines ls))))

pub fgets_all-unlines :
    (n : ℕ) (ls : List Bytes) → 79 ≤ n → AreLines ls → fgets_all n (unlines ls) ≡ map end_line ls
fgets_all-unlines n ls big h = reads-unlines (length (unlines ls)) n ls big h (omega arith)

abbrev pub no_blank : Bytes → Bool
no_blank [] = true
no_blank (c ∷ s) = not (is_blank c) && no_blank s

pub no_blank-newline : (s : Bytes) → no_blank s ≡ true → no_newline s ≡ true
no_blank-newline [] h = refl
no_blank-newline (c ∷ s) h = ground (arith, no_blank-newline s)

word-append :
    (w : Bytes) (c : ℕ) (rest : Bytes)
    → no_blank w ≡ true
    → is_blank c ≡ true
    → word (w ++ (c ∷ rest)) ≡ w
unfolding word
word-append [] c rest h b = rw b refl
word-append (a ∷ w) c rest h b =
    let inside : is_blank a ≡ false = ground arith in
    rw inside (ap (a ∷◌) (word-append w c rest (ground arith) b))

-- The first word of a line that begins with one.
pub strtok-append :
    (a : ℕ) (w : Bytes) (c : ℕ) (rest : Bytes)
    → no_blank (a ∷ w) ≡ true
    → is_blank c ≡ true
    → strtok ((a ∷ w) ++ (c ∷ rest)) ≡ some (a ∷ w, a ∷ w)
unfolding strtok
strtok-append a w c rest h b =
    let inside : is_blank a ≡ false = ground arith in
    rw (strtok, inside) (rw (word-append w c rest (ground arith) b) refl)

-- The newline at the end plays no part in the comparison.
pub starts_with-end_line :
    (l t : Bytes) → no_newline t ≡ true → starts_with (end_line l) t ≡ starts_with l t
unfolding starts_with
starts_with-end_line l [] h = ground arith
starts_with-end_line [] (b ∷ t) h = ground arith
starts_with-end_line (a ∷ l) (b ∷ t) h = ground (arith, starts_with-end_line l t)
