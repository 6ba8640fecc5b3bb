-- ===== src/Posts/Marks.antt =====
-- The marks of mbbsd/bbs.c in the directory of a board and in the result of a search.
use openptt.Prelude.{
  ℕ, suc, ◌+◌, ◌≡◌, refl, Bool, true, false, Option, none, some, List, [], ◌∷◌, inl, inr, ◌⊎◌, sym,
  ◌∙◌, arith, Bool-cases, if◌then◌else◌, ◌||◌, not,
}
use openptt.Prelude.Bytes.{Bytes, str_eq, str_eq→eq, str_eq_refl}
use openptt.Posts.{
  Fileheader, Dirs, Mode, index_loop, getindex, put_at, substitute, in_direct, in_board, in_digest,
  good_post,
}

-- The first header of a post.
abbrev pub look : Bytes → List Fileheader → Option Fileheader
look fname [] = none
look fname (h ∷ dir) = if str_eq h.filename fname then some h else look fname dir

-- The header `h` in place of what was found.
abbrev replaced : Fileheader → Option Fileheader → Option Fileheader
replaced h none = none
replaced h (some _) = some h

replaced-seen :
    (h x : Fileheader) (a b : Option Fileheader)
    → ((y : Fileheader) → a ≡ some y → b ≡ some y)
    → replaced h a ≡ some x
    → replaced h b ≡ some x
replaced-seen h x none b s q = cc
replaced-seen h x (some y) b s q = rw (s y refl) q

look-substitute_loop :
    (now : ℕ) (f g : Bytes) (h : Fileheader) (dir : List Fileheader)
    → h.filename ≡ f
    → ((index_loop now f dir ≡ 0) × (look f dir ≡ none))
      ⊎ ((k : ℕ) × (x : Fileheader) × (look f dir ≡ some x)
          × (index_loop now f dir ≡ suc (now + k))
          × (look g (put_at k h dir) ≡ (if str_eq f g then some h else look g dir)))
unfolding index_loop put_at
look-substitute_loop now f g h [] e = inl (refl, refl)
look-substitute_loop now f g h (x ∷ dir) e = elim (Bool-cases (str_eq x.filename f)) [
  | inl same ↦
      let x_f = str_eq→eq x.filename f same in
      inr (
        0,
        x,
        rw same refl,
        rw same (omega arith),
        elim (Bool-cases (str_eq f g)) [ inl t ↦ rw (e, t) refl | inr t ↦ rw (e, x_f) (rw t refl) ],
      )
  | inr other ↦ elim (look-substitute_loop (now + 1) f g h dir e) [
    | inl (z, n) ↦ inl (rw other z, rw other n)
    | inr (k, y, n, i, l) ↦ inr (
      suc k,
      y,
      rw other n,
      rw other (omega (arith, i)),
      rw l (elim (Bool-cases (str_eq x.filename g)) [
        | inl s ↦ elim (Bool-cases (str_eq f g)) [
          | inl t ↦ absurd (apart x.filename f g other s t)
          | inr t ↦ rw (s, t) refl
        ]
        | inr s ↦ rw s refl
      ]),
    )
  ]
]
  where
    apart : (a b c : Bytes) → str_eq a b ≡ false → str_eq a c ≡ true → str_eq b c ≡ true → ⊥
    apart a b c ne p q =
        (let same : a ≡ b = str_eq→eq a c p ∙ sym (str_eq→eq b c q) in
          cc (rw same at ne, str_eq_refl b))

look-substitute :
    (f g : Bytes) (h : Fileheader) (dir : List Fileheader)
    → h.filename ≡ f
    → look g (substitute h (getindex f dir) dir)
      ≡ (if str_eq f g then replaced h (look f dir) else look g dir)
unfolding substitute getindex
look-substitute f g h dir e = elim (look-substitute_loop 0 f g h dir e) [
  | inl (z, n) ↦
      rw (z, n)
        (elim (Bool-cases (str_eq f g)) [
          | inl t ↦ rw t (rw (str_eq→eq f g t) at n)
          | inr t ↦ rw t refl
        ])
  | inr (k, x, n, i, l) ↦ let place : getindex f dir ≡ suc k = i ∙ omega arith in rw (place, n) l
]

-- The result of a search has the headers of the board.
abbrev pub IsInStep : (found board : List Fileheader) → Type 0
IsInStep found board =
    (fname : Bytes) (h : Fileheader) → look fname found ≡ some h → look fname board ≡ some h

IsInStep-substitute :
    (h : Fileheader) (f : Bytes) (found board : List Fileheader)
    → h.filename ≡ f
    → IsInStep found board
    → IsInStep (substitute h (getindex f found) found) (substitute h (getindex f board) board)
IsInStep-substitute h f found board e s g x seen =
    let seen' = rw (look-substitute f g h found e) at seen in
    rw (look-substitute f g h board e) (elim (Bool-cases (str_eq f g)) [
      | inl t ↦ rw t (replaced-seen h x (look f found) (look f board) (s f) (rw t at seen'))
      | inr t ↦ rw t (s g x (rw t at seen'))
    ])

good_post-IsInStep :
    (is_there : Bool) (m : Mode) (ent : ℕ) (fhdr : Fileheader) (dirs : Dirs)
    → m.is_select ≡ true
    → ent ≡ getindex fhdr.filename dirs.found
    → IsInStep dirs.found dirs.board
    → IsInStep
        (good_post is_there m ent fhdr dirs).1.found
        (good_post is_there m ent fhdr dirs).1.board
unfolding good_post in_direct in_board
good_post-IsInStep is_there m ent fhdr dirs select here s =
    let h = in_digest fhdr in
    let name : h.filename ≡ fhdr.filename = ground arith in
    elim (Bool-cases (m.is_digest || not m.is_board)) [
      | inl stop ↦ rw stop s
      | inr go ↦
          let posts : m.is_digest ≡ false = ground arith in
          rw go (
            rw (select, posts, here, name)
              (IsInStep-substitute h fhdr.filename dirs.found dirs.board name s))
    ]

-- Where the manager of a board gives good_post a post read in the result of a search, which has the
-- headers of the board, the post has the new header in both, and every other post the header it had.
-- So the result has the headers of the board again.
pub good_post_lem :
    (is_there : Bool) (m : Mode) (ent : ℕ) (fhdr : Fileheader) (dirs : Dirs)
    → m.is_board ≡ true
    → m.is_digest ≡ false
    → m.is_select ≡ true
    → ent ≡ getindex fhdr.filename dirs.found
    → look fhdr.filename dirs.found ≡ some fhdr
    → IsInStep dirs.found dirs.board
    → (g : Bytes)
    → (look g (good_post is_there m ent fhdr dirs).1.found
        ≡ (if str_eq fhdr.filename g then some (in_digest fhdr) else look g dirs.found))
      × (look g (good_post is_there m ent fhdr dirs).1.board
          ≡ (if str_eq fhdr.filename g then some (in_digest fhdr) else look g dirs.board))
      × IsInStep
          (good_post is_there m ent fhdr dirs).1.found
          (good_post is_there m ent fhdr dirs).1.board
unfolding good_post in_direct in_board
good_post_lem is_there m ent fhdr dirs manager posts select here seen s g =
    let h = in_digest fhdr in
    let f = fhdr.filename in
    let name : h.filename ≡ f = ground arith in
    let in_found = rw seen at (look-substitute f g h dirs.found name) in
    let in_board = rw (s f fhdr seen) at (look-substitute f g h dirs.board name) in
    (
      rw (manager, posts, select, here) in_found,
      rw (manager, posts, select, name) in_board,
      good_post-IsInStep is_there m ent fhdr dirs select here s,
    )
