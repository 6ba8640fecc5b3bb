-- ===== src/Boards/Posting.antt =====
-- getbnum and haspostperm of mbbsd/cache.c: what a board's number and the right to post stand for.
use Prim.Native.Nat.{bit_and}
use openptt.Prelude.{
  ℕ, suc, ◌+◌, ◌-◌, ◌<◌, ◌≡◌, ◌⊎◌, ◌↔◌, refl, true, false, List, [], ◌∷◌, inl, inr, arith, ◌==◌,
  if◌then◌else◌, ◌&&◌, not, length, get_or, Bool-cases,
}
use openptt.Prelude.Bytes.{Bytes, str_case_eq}
use openptt.Boards.{
  Files, Board, User, no_board, perm_post, perm_violatelaw, brd_hide, has_bit, has_perm, belong,
  ben_perm, number_loop, getbnum, is_default, board_allows, haspostperm,
}

-- The number is that of a board with the name.
abbrev pub Names : Bytes → List Board → ℕ → Type 0
Names name bs k = (k < length bs) × (str_case_eq name (get_or bs k no_board).brdname ≡ true)

number_loop_lem :
    (i : ℕ) (files : Files) (name : Bytes) (bs : List Board) (user : User)
    → ((number_loop i files name bs user).0 ≡ 0)
      ⊎ ((k : ℕ) × ((number_loop i files name bs user).0 ≡ suc (i + k)) × Names name bs k)
unfolding number_loop
number_loop_lem i files name [] user = inl refl
number_loop_lem i files name (b ∷ bs) user =
    let (perm, user') = ben_perm files b user in
    elim (Bool-cases (not (perm == 0) && str_case_eq name b.brdname)) [
      | inl e ↦ inr (0, rw (number_loop, e) (omega arith), (omega arith, ground arith))
      | inr e ↦ elim (number_loop_lem (i + 1) files name bs user') [
        | inl none_found ↦ inl (rw (number_loop, e) none_found)
        | inr (k, run, (inside, named)) ↦
            inr (suc k, rw (number_loop, e) (omega arith), (omega arith, named))
      ]
    ]

-- The board is hidden, or the user is a violator and the board for violators, or the user is none
-- and has one of the bits of the board's level, PERM_POST apart, where there are any.
abbrev pub Allowed : Board → User → Type 0
Allowed b user =
    (has_bit b.brdattr brd_hide ≡ true)
    ⊎ (((has_bit user.userlevel perm_violatelaw ≡ true) × (has_bit b.level perm_violatelaw ≡ true))
        ⊎ ((has_bit user.userlevel perm_violatelaw ≡ false)
            × (has_perm (b.level - bit_and b.level perm_post) user ≡ true)))

board_allows-Allowed : (b : Board) (user : User) → (board_allows b user ≡ true) ↔ Allowed b user
unfolding board_allows has_perm
board_allows-Allowed b user = (there, back)
  where
    there : board_allows b user ≡ true → Allowed b user
    there h = elim (Bool-cases (has_bit b.brdattr brd_hide)) [
      | inl hidden ↦ inl hidden
      | inr open_board ↦ elim (Bool-cases (has_bit user.userlevel perm_violatelaw)) [
        | inl v ↦ inr (inl (v, ground arith))
        | inr v ↦ inr (inr (v, ground arith))
      ]
    ]

    back : Allowed b user → board_allows b user ≡ true
    back (inl hidden) = ground arith
    back (inr (inl (v, level))) = ground arith
    back (inr (inr (v, level))) = ground arith

-- A board of the cache has the name, it is the one that getbnum finds, and it allows the user that
-- getbnum leaves.
abbrev pub IsOpen : Files → Bytes → List Board → User → Type 0
IsOpen files name bs user =
    (k : ℕ) × ((getbnum files name bs user).0 ≡ suc k)
    × Names name bs k
    × Allowed (get_or bs k no_board) (getbnum files name bs user).1

with_number :
    (name : Bytes) (bs : List Board) (n : ℕ) (user : User)
    → ((n ≡ 0) ⊎ ((k : ℕ) × (n ≡ suc (0 + k)) × Names name bs k))
    → ((if n == 0 then false else board_allows (get_or bs (n - 1) no_board) user) ≡ true)
      ↔ ((k : ℕ) × (n ≡ suc k) × Names name bs k × Allowed (get_or bs k no_board) user)
with_number name bs n user found = (there found, back)
  where
    there :
        ((n ≡ 0) ⊎ ((k : ℕ) × (n ≡ suc (0 + k)) × Names name bs k))
        → (if n == 0 then false else board_allows (get_or bs (n - 1) no_board) user) ≡ true
        → (k : ℕ) × (n ≡ suc k) × Names name bs k × Allowed (get_or bs k no_board) user
    there (inl e) h = absurd (ground arith)
    there (inr (k, e, named)) h =
        let at : n - 1 ≡ k = omega arith in
        let allows : board_allows (get_or bs (n - 1) no_board) user ≡ true = ground arith in
        (
          k,
          omega arith,
          named,
          (board_allows-Allowed (get_or bs k no_board) user).0 (rw (← at) allows),
        )

    back :
        ((k : ℕ) × (n ≡ suc k) × Names name bs k × Allowed (get_or bs k no_board) user)
        → (if n == 0 then false else board_allows (get_or bs (n - 1) no_board) user) ≡ true
    back (k, e, named, allowed) =
        let at : n - 1 ≡ k = omega arith in
        let allows : board_allows (get_or bs (n - 1) no_board) user ≡ true =
          rw at ((board_allows-Allowed (get_or bs k no_board) user).1 allowed) in
        ground arith

-- The last tests of haspostperm.
haspostperm_number :
    (files : Files) (name : Bytes) (bs : List Board) (user : User)
    → belong (files.water name) user.userid ≡ false
    → is_default name ≡ false
    → has_perm perm_post user ≡ true
    → let (n, user') = getbnum files name bs user in
      (haspostperm files name bs user).0
      ≡ (if n == 0 then false else board_allows (get_or bs (n - 1) no_board) user')
unfolding haspostperm
haspostperm_number files name bs user free other perm =
    elim (Bool-cases ((getbnum files name bs user).0 == 0)) [
      | inl z ↦ rw (free, other, perm) (rw z refl)
      | inr z ↦ rw (free, other, perm) (rw z refl)
    ]

-- Who may post, and nobody else: nobody whom the water file of the board names; everybody else in the
-- two boards that are open; in another board just the users with PERM_POST for whom getbnum finds a
-- board, which has that name, and that board, for the user as getbnum leaves it, is hidden, or is for
-- violators if the user is one, or else has, PERM_POST apart, no level or one that the user has.
pub haspostperm_lem :
    (files : Files) (name : Bytes) (bs : List Board) (user : User)
    → ((haspostperm files name bs user).0 ≡ true) ↔ (
        (belong (files.water name) user.userid ≡ false)
        × ((is_default name ≡ true)
            ⊎ ((has_perm perm_post user ≡ true) × IsOpen files name bs user)))
unfolding haspostperm
haspostperm_lem files name bs user = (there, back)
  where
    numbered :
        ((if (getbnum files name bs user).0 == 0
            then false
            else board_allows
                (get_or bs ((getbnum files name bs user).0 - 1) no_board)
                (getbnum files name bs user).1)
          ≡ true)
        ↔ IsOpen files name bs user
    numbered =
        with_number name bs (getbnum files name bs user).0 (getbnum files name bs user).1
          (unfold getbnum in number_loop_lem 0 files name bs user)

    there :
        (haspostperm files name bs user).0 ≡ true
        → (belong (files.water name) user.userid ≡ false)
          × ((is_default name ≡ true)
              ⊎ ((has_perm perm_post user ≡ true) × IsOpen files name bs user))
    there h = elim (Bool-cases (belong (files.water name) user.userid)) [
      | inl e ↦ absurd (ground arith)
      | inr e ↦ (
        e,
        elim (Bool-cases (is_default name)) [
          | inl d ↦ inl d
          | inr d ↦ elim (Bool-cases (has_perm perm_post user)) [
            | inl p ↦ inr (p, numbered.0 (rw (haspostperm_number files name bs user e d p) at h))
            | inr p ↦ absurd (ground arith)
          ]
        ],
      )
    ]

    back :
        (belong (files.water name) user.userid ≡ false)
          × ((is_default name ≡ true)
              ⊎ ((has_perm perm_post user ≡ true) × IsOpen files name bs user))
        → (haspostperm files name bs user).0 ≡ true
    back (e, inl d) = rw (e, d) refl
    back (e, inr (p, is_open)) = elim (Bool-cases (is_default name)) [
      | inl d ↦ rw (e, d) refl
      | inr d ↦ rw (haspostperm_number files name bs user e d p) (numbered.1 is_open)
    ]
