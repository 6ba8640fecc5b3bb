-- ===== src/Friends/Deleting.antt =====
-- friend_delete of mbbsd/friend.c on files of lines.
use mathlib.Core.List.{append_assoc, append-nil}
use openptt.Prelude.{
  ℕ, ◌-◌, ◌≤◌, true, false, some, List, [], ◌∷◌, ◌++◌, ◌≡◌, refl, ◌&&◌, not, map, length, arith,
  Bool-cases, inl, inr, ◌∙◌, ap, get_or, replicate, if◌then◌else◌,
}
use openptt.Prelude.Bytes.{Bytes}
use openptt.Prelude.Stdio.{starts_with}
use openptt.Friends.{friend_max, belong, is_dark, friend_add, delete_loop, friend_delete}
use openptt.Friends.Lines.{
  unlines, AreLines, end_line, no_newline, no_blank-newline, fgets_all-unlines,
  starts_with-end_line,
}
use openptt.Friends.Adding.{IsId, IsDesc, row, desc_of, grown, added, grown-AreLines}

-- The lines that begin with neither the name nor a blank.
unfoldable pub others : Bytes → List Bytes → List Bytes
others uident [] = []
others uident (l ∷ ls) =
    if is_dark (end_line l) && not (starts_with l uident)
    then l ∷ others uident ls
    else others uident ls

delete_loop-others :
    (uident : Bytes) (ls : List Bytes)
    → no_newline uident ≡ true
    → delete_loop uident (map end_line ls) ≡ unlines (others uident ls)
unfolding delete_loop others unlines
delete_loop-others uident [] h = refl
delete_loop-others uident (l ∷ ls) h =
    elim (Bool-cases (is_dark (end_line l) && not (starts_with l uident))) [
      | inl e ↦
          rw (starts_with-end_line l uident h)
            (rw e (rw (delete_loop-others uident ls h) (simp append_assoc)))
      | inr e ↦ rw (starts_with-end_line l uident h) (rw e (delete_loop-others uident ls h))
    ]

-- On a file of lines friend_delete takes out the lines that begin with the name, as a prefix of the
-- name in the line, or with a blank, and leaves the other lines in their order.
pub friend_delete-others :
    (uident : Bytes) (ls : List Bytes)
    → AreLines ls
    → no_newline uident ≡ true
    → friend_delete true uident (some (unlines ls)) ≡ some (unlines (others uident ls))
unfolding friend_delete
friend_delete-others uident ls h k =
    rw (fgets_all-unlines 79 ls (omega arith) h) (ap some (delete_loop-others uident ls k))

-- No line begins with the name or with a blank.
abbrev pub AreOthers : Bytes → List Bytes → Type 0
AreOthers uident [] = Unit {0}
AreOthers uident (l ∷ ls) =
    (is_dark (end_line l) ≡ true) × (starts_with l uident ≡ false) × AreOthers uident ls

others-append :
    (uident : Bytes) (xs ys : List Bytes)
    → AreOthers uident xs
    → others uident (xs ++ ys) ≡ xs ++ others uident ys
unfolding others
others-append uident [] ys h = refl
others-append uident (x ∷ xs) ys (p, q, h) = rw (p, q) (ap (x ∷◌) (others-append uident xs ys h))

starts_with_self : (t rest : Bytes) → starts_with (t ++ rest) t ≡ true
unfolding starts_with
starts_with_self [] rest = refl
starts_with_self (a ∷ t) rest = ground (arith, starts_with_self t rest)

row-starts_with : (uident desc : Bytes) → starts_with (row uident desc) uident ≡ true
row-starts_with uident desc =
    rw (append_assoc uident (replicate (13 - length uident) 32) desc) (starts_with_self uident _)

others-row : (uident desc : Bytes) → others uident (row uident desc ∷ []) ≡ []
unfolding others
others-row uident desc = rw (row-starts_with uident desc) (ground arith)

-- On a file of lines none of which begins with the name or a blank, and with room, friend_delete
-- takes back what friend_add wrote for a name that did not belong to the file, and no more.
pub friend_delete-friend_add :
    (uident buf : Bytes) (type : ℕ) (ls : List Bytes)
    → IsId uident
    → IsDesc buf
    → AreLines ls
    → length ls ≤ get_or friend_max type 0
    → AreOthers uident ls
    → belong (some (unlines ls)) uident ≡ false
    → friend_delete true uident (friend_add true uident buf type (some (unlines ls)))
      ≡ some (unlines ls)
friend_delete-friend_add uident buf type ls i d h room o new =
    rw (added uident buf type ls i d h room new) (
      friend_delete-others uident (grown uident buf type ls i d h room)
        (grown-AreLines uident buf type ls i d h room) (no_blank-newline uident i.one_word)
      ∙ ap (λ xs. some (unlines xs))
          (others-append uident ls _ o ∙ rw (others-row uident (desc_of type buf)) (append-nil ls)))
