-- ===== src/Homes/Managers.antt =====
-- userid_is_BM and is_uBM, two codes for one question.
use openptt.Prelude.{
  ℕ, zero, suc, ◌<◌, ◌≡◌, refl, sym, ◌∙◌, true, false, none, some, List, [], ◌∷◌, ◌++◌, arith, ltb,
  ◌==◌, ◌&&◌, length, drop, length-append,
}
use openptt.Prelude.Bytes.{Bytes, str_case_eq, strn_case_eq}
use openptt.Text.{after_slash, is_ubm}
use openptt.Text.Moderators.{
  Plain, AllPlain, slashed, has_name, after_slash-Plain, length-slashed, is_ubm_lem,
}
use openptt.Homes.{stops_name, userid_loop, userid_is_bm}

match_lem :
    (id w : Bytes) (ws : List Bytes)
    → Plain id
    → Plain w
    → (strn_case_eq (length id) (w ++ slashed ws) id
        && stops_name (drop (length id) (w ++ slashed ws)))
      ≡ str_case_eq w id
unfolding strn_case_eq str_case_eq
match_lem [] [] [] pi pw = refl
match_lem [] [] (v ∷ ws) pi pw = refl
match_lem [] (c ∷ w) ws pi pw = ground arith
match_lem (i ∷ id) [] [] pi pw = refl
match_lem (i ∷ id) [] (v ∷ ws) pi pw = ground arith
match_lem (i ∷ id) (c ∷ w) ws pi pw = ground (arith, match_lem id w ws pi.1 pw.1)

userid_loop-names :
    (fuel : ℕ) (id w : Bytes) (ws : List Bytes)
    → length ws < fuel
    → Plain id
    → Plain w
    → AllPlain ws
    → userid_loop fuel id (w ++ slashed ws) ≡ has_name id (w ∷ ws)
unfolding userid_loop
userid_loop-names zero id w ws f pi pw ps = elim f [ ]
userid_loop-names (suc fuel) id w [] f pi pw ps =
    let m = match_lem id w [] pi pw in
    let a : after_slash (w ++ []) ≡ none = after_slash-Plain w [] pw ∙ unfold after_slash in refl in
    rw (a, userid_loop) (ground (arith, m))
userid_loop-names (suc fuel) id w (v ∷ ws) f pi pw ps =
    let m = match_lem id w (v ∷ ws) pi pw in
    let a : after_slash (w ++ slashed (v ∷ ws)) ≡ some (v ++ slashed ws) =
      after_slash-Plain w (slashed (v ∷ ws)) pw ∙ unfold after_slash in refl in
    rw (a, userid_loop, userid_loop-names fuel id v ws (omega arith) pi ps.0 ps.1)
      (ground (arith, m))

-- For a list of names between slashes userid_is_BM gives what is_uBM gives: whether one of the names is
-- the user's. The first name has to begin with a printed ASCII byte that is no bracket, and no name
-- holds a byte that ends one.
pub userid_is_bm-is_ubm :
    (id w : Bytes) (c : ℕ) (ws : List Bytes)
    → Plain id
    → Plain (c ∷ w)
    → AllPlain ws
    → b' ' < c
    → c < 128
    → (c == b'[') ≡ false
    → (userid_is_bm id ((c ∷ w) ++ slashed ws) ≡ is_ubm ((c ∷ w) ++ slashed ws) id)
      × (userid_is_bm id ((c ∷ w) ++ slashed ws) ≡ has_name id ((c ∷ w) ∷ ws))
unfolding userid_is_bm
userid_is_bm-is_ubm id w c ws pi pw ps low high open_bracket =
    let l = (c ∷ w) ++ slashed ws in
    let enough : length ws < suc (length l) =
      omega (arith, length-append {0} w (slashed ws), length-slashed ws) in
    let printed : (ltb b' ' c && ltb c 128) ≡ true = ground arith in
    let run : userid_is_bm id l ≡ has_name id ((c ∷ w) ∷ ws) =
      rw printed (userid_loop-names (suc (length l)) id (c ∷ w) ws enough pi pw ps) in
    (run ∙ sym (is_ubm_lem id w c ws pi pw ps low high open_bracket).0, run)
