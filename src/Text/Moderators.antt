-- ===== src/Text/Moderators.antt =====
-- is_uBM on the moderators of a board, whose names stand between slashes.
use openptt.Prelude.{
  ℕ, zero, suc, ◌≤◌, ◌<◌, ◌≡◌, refl, ap, ◌∙◌, Bool, true, false, none, some, List, [], ◌∷◌, ◌++◌,
  arith, ltb, ◌==◌, if◌then◌else◌, ◌&&◌, ◌||◌, length, drop, length-append,
}
use openptt.Prelude.Bytes.{Bytes, str_case_eq, strn_case_eq}
use openptt.Text.{after_slash, ends_name, bm_loop, unbracket, bm_from, is_ubm}

-- No byte of the name ends a name.
abbrev pub Plain : Bytes → Type 0
Plain [] = Unit {0}
Plain (c ∷ s) = (ends_name (c ∷ s) ≡ false) × Plain s

abbrev pub AllPlain : List Bytes → Type 0
AllPlain [] = Unit {0}
AllPlain (w ∷ ws) = Plain w × AllPlain ws

-- The names with a slash before each, and the list of a board.
abbrev pub slashed : List Bytes → Bytes
slashed [] = []
slashed (w ∷ ws) = b'/' ∷ (w ++ slashed ws)

abbrev pub has_name : Bytes → List Bytes → Bool
has_name id [] = false
has_name id (w ∷ ws) = str_case_eq w id || has_name id ws

-- At a name, the test of the loop compares the whole name.
match_lem :
    (id w : Bytes) (ws : List Bytes)
    → Plain id
    → Plain w
    → (strn_case_eq (length id) (w ++ slashed ws) id
        && ends_name (drop (length id) (w ++ slashed ws)))
      ≡ str_case_eq w id
unfolding strn_case_eq str_case_eq
match_lem [] [] [] pi pw = refl
match_lem [] [] (v ∷ ws) pi pw = refl
match_lem [] (c ∷ w) ws pi pw = ground arith
match_lem (i ∷ id) [] [] pi pw = refl
match_lem (i ∷ id) [] (v ∷ ws) pi pw = ground arith
match_lem (i ∷ id) (c ∷ w) ws pi pw = ground (arith, match_lem id w ws pi.1 pw.1)

pub after_slash-Plain :
    (w : Bytes) (rest : Bytes) → Plain w → after_slash (w ++ rest) ≡ after_slash rest
unfolding after_slash
after_slash-Plain [] rest p = refl
after_slash-Plain (c ∷ w) rest p = ground (arith, after_slash-Plain w rest p.1)

-- A matching prefix holds no slash.
after_slash-drop :
    (id list : Bytes)
    → Plain id
    → strn_case_eq (length id) list id ≡ true
    → after_slash (drop (length id) list) ≡ after_slash list
unfolding after_slash strn_case_eq
after_slash-drop [] list p h = refl
after_slash-drop (i ∷ id) [] p h = refl
after_slash-drop (i ∷ id) (c ∷ list) p h = ground (arith, after_slash-drop id list p.1)

-- One round of the loop at a name.
after_name :
    (id w : Bytes) (ws : List Bytes)
    → Plain id
    → Plain w
    → after_slash (
        if strn_case_eq (length id) (w ++ slashed ws) id
        then drop (length id) (w ++ slashed ws)
        else w ++ slashed ws)
      ≡ after_slash (slashed ws)
after_name id w ws pi pw =
    ground (arith, after_slash-drop id (w ++ slashed ws) pi, after_slash-Plain w (slashed ws) pw)

bm_loop-names :
    (fuel : ℕ) (id w : Bytes) (ws : List Bytes)
    → length ws < fuel
    → Plain id
    → Plain w
    → AllPlain ws
    → bm_loop fuel (w ++ slashed ws) id ≡ has_name id (w ∷ ws)
unfolding bm_loop
bm_loop-names zero id w ws f pi pw ps = elim f [ ]
bm_loop-names (suc fuel) id w [] f pi pw ps =
    let m = match_lem id w [] pi pw in
    let a : after_slash
          (if strn_case_eq (length id) (w ++ []) id then drop (length id) (w ++ []) else w ++ [])
        ≡ none =
      after_name id w [] pi pw ∙ unfold after_slash in refl in
    rw (a, bm_loop) (ground (arith, m))
bm_loop-names (suc fuel) id w (v ∷ ws) f pi pw ps =
    let m = match_lem id w (v ∷ ws) pi pw in
    let a : after_slash (
          if strn_case_eq (length id) (w ++ slashed (v ∷ ws)) id
          then drop (length id) (w ++ slashed (v ∷ ws))
          else w ++ slashed (v ∷ ws))
        ≡ some (v ++ slashed ws) =
      after_name id w (v ∷ ws) pi pw ∙ unfold after_slash in refl in
    rw (a, bm_loop, bm_loop-names fuel id v ws (omega arith) pi ps.0 ps.1) (ground (arith, m))

pub length-slashed : (ws : List Bytes) → length ws ≤ length (slashed ws)
length-slashed [] = omega arith
length-slashed (w ∷ ws) = omega (arith, length-append {0} w (slashed ws), length-slashed ws)

bm_from-names :
    (id w : Bytes) (c : ℕ) (ws : List Bytes)
    → Plain id
    → Plain (c ∷ w)
    → AllPlain ws
    → b' ' < c
    → c < 128
    → bm_from ((c ∷ w) ++ slashed ws) id ≡ has_name id ((c ∷ w) ∷ ws)
unfolding bm_from
bm_from-names id w c ws pi pw ps low high =
    let l = (c ∷ w) ++ slashed ws in
    let enough : length ws < suc (length l) =
      omega (arith, length-append {0} w (slashed ws), length-slashed ws) in
    let printed : (ltb b' ' c && ltb c 128) ≡ true = ground arith in
    rw printed (bm_loop-names (suc (length l)) id (c ∷ w) ws enough pi pw ps)

-- For a list of names between slashes, with an opening bracket or without, is_uBM holds of a user
-- exactly if one of the names is the user's, in either case of the letters. The first name has to
-- begin with a printed ASCII byte that is no bracket, and no name holds a byte that ends one.
pub is_ubm_lem :
    (id w : Bytes) (c : ℕ) (ws : List Bytes)
    → Plain id
    → Plain (c ∷ w)
    → AllPlain ws
    → b' ' < c
    → c < 128
    → (c == b'[') ≡ false
    → (is_ubm ((c ∷ w) ++ slashed ws) id ≡ has_name id ((c ∷ w) ∷ ws))
      × (is_ubm (b'[' ∷ ((c ∷ w) ++ slashed ws)) id ≡ has_name id ((c ∷ w) ∷ ws))
unfolding is_ubm
is_ubm_lem id w c ws pi pw ps low high open_bracket =
    let run = bm_from-names id w c ws pi pw ps low high in
    let plain : unbracket ((c ∷ w) ++ slashed ws) ≡ (c ∷ w) ++ slashed ws = rw open_bracket in
    (ap (λ (l : Bytes). bm_from l id) plain ∙ run, run)
