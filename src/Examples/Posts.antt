-- ===== src/Examples/Posts.antt =====
-- Places in lists of posts, votes, and marks on posts.
use openptt.Prelude.{Bool-cases, inl, inr, sym, true, false, [], some, ◌≡◌, refl, ◌∷◌, ◌++◌, arith}
use openptt.Prelude.Bytes.{Bytes, codes, str_eq, str_eq→eq}
use openptt.Posts.{
  Fileheader, Dirs, Mode, getindex, index_loop, good_post, in_digest, mark_post, in_direct,
}
use openptt.Posts.Marks.{look, IsInStep, good_post_lem}
use openptt.Reading.{Keep}
use openptt.Reading.Cursor.{OnPage}
use openptt.Votes.{strip_ansi, strip_loop, strip_all, only_color}

abbrev keep : Keep
keep = record { key = codes "test"; top_ln = 21; crs_ln = 40 }

keep-OnPage : OnPage 45 20 keep
keep-OnPage = record {
  first = omega arith;
  low = omega arith;
  high = omega arith;
  last = omega arith;
}

-- A coloured word.
abbrev coloured : Bytes
coloured = 27 ∷ (codes "[1;33mred" ++ 27 ∷ codes "[m")

stripped : strip_ansi strip_all coloured ≡ codes "red"
unfolding strip_loop
stripped = refl

-- A cursor move loses its last byte only, and takes the text behind it along.
half_stripped : strip_ansi only_color (27 ∷ codes "[2H1st") ≡ 27 ∷ codes "[21st"
unfolding strip_loop
half_stripped = refl

abbrev post : Bytes → Fileheader
post fname = record {
  filename = fname;
  savemode = 0;
  owner = codes "ann";
  date = codes " 1/01";
  title = codes "hello";
  filemode = 0;
}

-- A search found the second of two posts.
abbrev searched : Dirs
searched = record {
  board = post (codes "M.1.A") ∷ post (codes "M.2.A") ∷ [];
  found = post (codes "M.2.A") ∷ [];
  digest = [];
}

abbrev manager : Mode
manager = record { is_board = true; is_digest = false; is_select = true }

searched-IsInStep : IsInStep searched.found searched.board
unfolding str_eq
searched-IsInStep fname h seen = elim (Bool-cases (str_eq (codes "M.2.A") fname)) [
  | inl t ↦
      let other : str_eq (codes "M.1.A") fname ≡ false =
        rw (sym (str_eq→eq (codes "M.2.A") fname t)) refl in
      rw other seen
  | inr t ↦ cc
]

good_post_lem_example :
    (look (codes "M.2.A") (good_post false manager 1 (post (codes "M.2.A")) searched).1.found
      ≡ some (in_digest (post (codes "M.2.A"))))
    × (look (codes "M.2.A") (good_post false manager 1 (post (codes "M.2.A")) searched).1.board
        ≡ some (in_digest (post (codes "M.2.A"))))
    × IsInStep
        (good_post false manager 1 (post (codes "M.2.A")) searched).1.found
        (good_post false manager 1 (post (codes "M.2.A")) searched).1.board
unfolding str_eq index_loop getindex
good_post_lem_example =
    good_post_lem false manager 1 (post (codes "M.2.A")) searched refl refl refl refl refl
      searched-IsInStep (codes "M.2.A")

-- A mark set in the result of a search does not reach the board.
mark_lost : (mark_post manager 1 (post (codes "M.2.A")) searched).1.board ≡ searched.board
unfolding mark_post in_direct
mark_lost = refl
