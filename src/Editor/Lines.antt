-- ===== src/Editor/Lines.antt =====
-- The list of lines of mbbsd/edit.c under split, and the moves along it.
use Prim.Native.Nat.{min}
use openptt.Prelude.{
  ℕ, zero, suc, ◌+◌, ◌-◌, ◌≤◌, ◌<◌, ◌≡◌, refl, ap, sym, ◌∙◌, false, List, [], ◌∷◌, ◌++◌, arith,
  length, get_or, set, take, drop, length-set, take-append-drop,
}
use mathlib.Core.List.{append_assoc}
use openptt.Prelude.Bytes.{Bytes}
use openptt.Editor.{
  Editor, line_at, insert_after, erase_idx, split, indent_spcs, append, forward_line, back_line,
}

-- The text: all lines in order.
abbrev pub text : List Bytes → Bytes
text [] = []
text (l ∷ ls) = l ++ text ls

-- Every line is shorter than `m`.
abbrev pub AllBelow : ℕ → List Bytes → Type 0
AllBelow m [] = Unit {0}
AllBelow m (l ∷ ls) = (length l < m) × AllBelow m ls

pub AllBelow-get : (m k : ℕ) (ls : List Bytes) → 0 < m → AllBelow m ls → length (get_or ls k []) < m
AllBelow-get m k [] p h = p
AllBelow-get m zero (l ∷ ls) p h = h.0
AllBelow-get m (suc k) (l ∷ ls) p h = AllBelow-get m k ls p h.1

pub AllBelow-set :
    (m k : ℕ) (ls : List Bytes) (d : Bytes) → AllBelow m ls → length d < m → AllBelow m (set ls k d)
AllBelow-set m k [] d h l = tt
AllBelow-set m zero (x ∷ ls) d h l = (l, h.1)
AllBelow-set m (suc k) (x ∷ ls) d h l = (h.0, AllBelow-set m k ls d h.1 l)

pub set-set : (k : ℕ) (ls : List Bytes) (a b : Bytes) → set (set ls k a) k b ≡ set ls k b
set-set k [] a b = refl
set-set zero (x ∷ ls) a b = refl
set-set (suc k) (x ∷ ls) a b = ap (x ∷◌) (set-set k ls a b)

pub AllBelow-insert_after :
    (m k : ℕ) (ls : List Bytes) (p : Bytes)
    → AllBelow m ls
    → length p < m
    → AllBelow m (insert_after k p ls)
AllBelow-insert_after m k [] p h l = (l, tt)
AllBelow-insert_after m zero (x ∷ ls) p h l = (h.0, (l, h.1))
AllBelow-insert_after m (suc k) (x ∷ ls) p h l = (h.0, AllBelow-insert_after m k ls p h.1 l)

pub length-insert_after :
    (k : ℕ) (ls : List Bytes) (p : Bytes) → length (insert_after k p ls) ≡ suc (length ls)
length-insert_after k [] p = refl
length-insert_after zero (x ∷ ls) p = refl
length-insert_after (suc k) (x ∷ ls) p = ap suc (length-insert_after k ls p)

pub get_or-set_self :
    (k : ℕ) (ls : List Bytes) (d : Bytes) → k < length ls → get_or (set ls k d) k [] ≡ d
get_or-set_self k [] d h = elim h [ ]
get_or-set_self zero (x ∷ ls) d h = refl
get_or-set_self (suc k) (x ∷ ls) d h = get_or-set_self k ls d (omega arith)

pub get_or-insert_after :
    (k : ℕ) (ls : List Bytes) (p : Bytes)
    → k < length ls
    → (get_or (insert_after k p ls) k [] ≡ get_or ls k [])
      × (get_or (insert_after k p ls) (suc k) [] ≡ p)
get_or-insert_after k [] p h = elim h [ ]
get_or-insert_after zero (x ∷ ls) p h = (refl, refl)
get_or-insert_after (suc k) (x ∷ ls) p h = get_or-insert_after k ls p (omega arith)

text-insert_after :
    (k : ℕ) (ls : List Bytes) (a b : Bytes)
    → k < length ls
    → a ++ b ≡ get_or ls k []
    → text (insert_after k b (set ls k a)) ≡ text ls
text-insert_after k [] a b h e = elim h [ ]
text-insert_after zero (x ∷ ls) a b h e =
    sym (append_assoc a b (text ls)) ∙ ap (λ (t : Bytes). t ++ text ls) e
text-insert_after (suc k) (x ∷ ls) a b h e = ap (x ++◌) (text-insert_after k ls a b (omega arith) e)

indent_spcs-off : (e : Editor) → e.indent_mode ≡ false → indent_spcs e ≡ 0
unfolding indent_spcs
indent_spcs-off e h = rw h

-- The lines after a split with no indentation.
pub lines-split :
    (k pos : ℕ) (e : Editor)
    → e.indent_mode ≡ false
    → pos ≤ length (line_at e k)
    → (split k pos e).lines
      ≡ insert_after k (drop pos (line_at e k)) (set e.lines k (take pos (line_at e k)))
unfolding split append
lines-split k pos e off h = ground (arith, indent_spcs-off e off)

-- Without auto-indent, split leaves the text as it is and adds one line and one to the count.
pub text-split :
    (k pos : ℕ) (e : Editor)
    → e.indent_mode ≡ false
    → k < length e.lines
    → pos ≤ length (line_at e k)
    → (text (split k pos e).lines ≡ text e.lines)
      × (length (split k pos e).lines ≡ suc (length e.lines))
      × ((split k pos e).totaln ≡ e.totaln + 1)
text-split k pos e off inside h = rw (lines-split k pos e off h) (
  text-insert_after k e.lines (take pos (line_at e k)) (drop pos (line_at e k)) inside
      (take-append-drop pos (line_at e k)),
  length-insert_after k (set e.lines k (take pos (line_at e k))) _
      ∙ ap suc (length-set e.lines k (take pos (line_at e k))),
  unfold split append in ground arith,
)

-- forward_line moves the position and `currln` alike, up to the last line.
pub forward_line_lem :
    (total num pos currln : ℕ)
    → pos < total
    → ((forward_line total num pos currln).0 ≡ min (pos + num) (total - 1))
      × ((forward_line total num pos currln).1 + pos
          ≡ currln + (forward_line total num pos currln).0)
unfolding forward_line
forward_line_lem total zero pos currln h = (omega arith, omega arith)
forward_line_lem total (suc num) pos currln h = ground (
  arith,
  forward_line_lem total num (pos + 1) (currln + 1),
  forward_line_lem total num pos currln,
)

-- back_line likewise, up to the first line, where `currln` is not behind the position.
pub back_line_lem :
    (pos num currln : ℕ)
    → pos ≤ currln
    → ((back_line pos num currln).0 ≡ pos - num)
      × ((back_line pos num currln).1 + pos ≡ currln + (back_line pos num currln).0)
unfolding back_line
back_line_lem pos zero currln h = (omega arith, omega arith)
back_line_lem zero (suc num) currln h = (omega arith, omega arith)
back_line_lem (suc pos) (suc num) currln h =
    omega (arith, back_line_lem pos num (currln - 1) (omega arith))

pub AllBelow-erase : (m k : ℕ) (ls : List Bytes) → AllBelow m ls → AllBelow m (erase_idx k ls)
AllBelow-erase m k [] h = tt
AllBelow-erase m zero (x ∷ ls) h = h.1
AllBelow-erase m (suc k) (x ∷ ls) h = (h.0, AllBelow-erase m k ls h.1)

pub get_or-insert_before :
    (j k : ℕ) (ls : List Bytes) (p : Bytes)
    → j ≤ k
    → k < length ls
    → get_or (insert_after k p ls) j [] ≡ get_or ls j []
get_or-insert_before j k [] p h i = elim i [ ]
get_or-insert_before zero zero (x ∷ ls) p h i = refl
get_or-insert_before (suc j) zero (x ∷ ls) p h i = absurd (omega arith)
get_or-insert_before zero (suc k) (x ∷ ls) p h i = refl
get_or-insert_before (suc j) (suc k) (x ∷ ls) p h i =
    get_or-insert_before j k ls p (omega arith) (omega arith)

pub erase-insert_after :
    (k : ℕ) (ls : List Bytes) (p : Bytes)
    → k < length ls
    → erase_idx k (insert_after k p ls) ≡ set ls k p
erase-insert_after k [] p h = elim h [ ]
erase-insert_after zero (x ∷ ls) p h = refl
erase-insert_after (suc k) (x ∷ ls) p h = ap (x ∷◌) (erase-insert_after k ls p (omega arith))

pub set-insert_after :
    (k : ℕ) (ls : List Bytes) (p d : Bytes)
    → k + 1 < length ls
    → set (insert_after (suc k) p ls) k d ≡ insert_after (suc k) p (set ls k d)
set-insert_after k [] p d h = elim h [ ]
set-insert_after zero (x ∷ ls) p d h = refl
set-insert_after (suc k) (x ∷ ls) p d h = ap (x ∷◌) (set-insert_after k ls p d (omega arith))

pub set-swap :
    (k : ℕ) (ls : List Bytes) (a b : Bytes)
    → set (set ls (suc k) a) k b ≡ set (set ls k b) (suc k) a
set-swap k [] a b = refl
set-swap zero (x ∷ ls) a b = refl
set-swap (suc k) (x ∷ ls) a b = ap (x ∷◌) (set-swap k ls a b)
