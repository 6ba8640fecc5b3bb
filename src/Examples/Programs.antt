-- ===== src/Examples/Programs.antt =====
-- A menu, a directory that expires, and statistics of posts.
use Prim.Native.Nat.{min, max}
use openptt.Prelude.{
  leb, none, false, ◌⊎◌, ℕ, ◌+◌, ◌-◌, ◌*◌, ◌≤◌, ◌≡◌, refl, arith, true, false, some, List, [], ◌∷◌,
  length,
}
use openptt.Prelude.Bytes.{Bytes, codes}
use openptt.Menu.{Item, State, Calls, Err, is_allowed, shown, turn, go_down, go_up}
use openptt.Input.{key_down}
use openptt.Menu.Cursor.{searches-end}
use openptt.Menu.Turns.{IsPlaced, IsEnded, turn-IsEnded}
use openptt.Expire.{Answers, Life, Header, expire}
use openptt.Screen.Colours.{atoi}
use openptt.Expire.Keeping.{filter, is_sure, expire-filter}
use openptt.Expire.Bounds.{AllMarked, cancelled, expire_bounds}
use openptt.Stats.{Post, no_post, search_all, sort_all}
use openptt.Stats.Counting.{count_of, sum_of, count_of-search_all}
use openptt.Stats.Placing.{IsTop}
use openptt.Stats.Top.{AllCovered, sort_all-AllCovered}

-- The beginning of the main menu, for a user with PERM_BASIC.
abbrev cmdlist : List Item
cmdlist =
    record { level = 16384; desc = codes "00Admin" }
    ∷ record { level = 0; desc = codes "AAnnounce" }
    ∷ record { level = 0; desc = codes "BBoards" }
    ∷ record { level = 1; desc = codes "MMail" }
    ∷ []

abbrev at_boards : State
at_boards = record { lastcmdptr = 2; pos = 1; refscreen = false; currstat = 1; cmd0 = 0; ran = [] }

at_boards-IsPlaced : IsPlaced 1 cmdlist at_boards
at_boards-IsPlaced = record {
  inside = omega arith;
  allowed = unfold is_allowed in refl;
  place = unfold shown is_allowed in refl;
  ran = tt;
}

abbrev calls : Calls
calls = record { err = Err.other; full = false; box = false }

turn-IsEnded_example : IsEnded 1 cmdlist (turn calls 1 1 cmdlist key_down at_boards)
turn-IsEnded_example = turn-IsEnded 1 cmdlist calls 1 key_down at_boards at_boards-IsPlaced

searches-end_example :
    ((m : ℕ) × (go_down 4 3 (is_allowed 1 cmdlist) 4 ≡ some m)
      × (m ≤ 3)
      × (is_allowed 1 cmdlist m ≡ true))
    × ((m : ℕ) × (go_up 4 3 (is_allowed 1 cmdlist) 1 ≡ some m)
        × (m ≤ 3)
        × (is_allowed 1 cmdlist m ≡ true))
searches-end_example =
    searches-end 3 1 4 2 (is_allowed 1 cmdlist) (omega arith) (omega arith)
      (unfold is_allowed in refl)

-- Down from the last item, the first is passed by.
down_run : go_down 4 3 (is_allowed 1 cmdlist) 4 ≡ some 1
unfolding go_down is_allowed
down_run = refl

abbrev index : List Header
index =
    record { filename = codes "M.1000.A"; owner = codes "ann"; filemode = 0 }
    ∷ record { filename = codes "M.1001.A"; owner = codes "bob"; filemode = 2 }
    ∷ record { filename = codes "M.2000.A"; owner = codes "-"; filemode = 0 }
    ∷ record { filename = codes "M.900000.A"; owner = codes "eve"; filemode = 0 }
    ∷ []

abbrev life : Life
life = record { days = 1; maxp = 3; minp = 1 }

-- No call fails.
abbrev well : Answers
well = record { new_opens = true; writes = 4; renames_old = true; renames_new = true }

expire-filter_example :
    (((expire well 900000 life index).0 ≡ none)
      × (well.renames_old ≡ true)
      × (well.renames_new ≡ false))
    ⊎ ((after : List Header) × ((expire well 900000 life index).0 ≡ some after)
        × (filter (is_sure (leb (length index) life.maxp) (900000 - life.days * 24 * 60 * 60)) after
            ≡ filter
                (is_sure (leb (length index) life.maxp) (900000 - life.days * 24 * 60 * 60))
                index))
expire-filter_example = expire-filter well 900000 life index

expire_bounds_example :
    (after : List Header) × ((expire well 900000 life index).0 ≡ some after)
    × ((length after ≤ max life.minp life.maxp) ⊎ AllMarked after)
    × (cancelled after ≡ 0)
    × (min life.minp (length index) ≤ length after + cancelled index)
    × (length after + length (expire well 900000 life index).1 ≡ length index)
expire_bounds_example = expire_bounds well 900000 life index refl (omega arith) refl refl

expire_run : (expire well 900000 life index).1 ≡ codes "M.1000.A" ∷ codes "M.2000.A" ∷ []
unfolding expire atoi
expire_run = refl

-- Where the second rename fails no directory is left.
expire_lost : (expire (record well { renames_new = false }) 900000 life index).0 ≡ none
unfolding expire atoi
expire_lost = refl

abbrev post : Bytes → ℕ → Post
post title number = record {
  author = codes "ann";
  board = codes "test";
  title = title;
  date = 5;
  number = number;
}

abbrev posts : List Post
posts = post (codes "ab") 3 ∷ post (codes "ba") 4 ∷ post (codes "ab") 2 ∷ []

-- The two titles share a bucket.
count_of-search_all_example :
    count_of (codes "ab") (codes "test") (search_all posts (λ h. []))
    ≡ count_of (codes "ab") (codes "test") (λ h. []) + sum_of (codes "ab") (codes "test") posts
count_of-search_all_example = count_of-search_all (codes "ab") (codes "test") posts (λ h. [])

empty-IsTop : IsTop 0 (λ j. no_post)
empty-IsTop = record { small = omega arith; sorted = λ j. omega arith; empty = λ j room far. refl }

sort_all-AllCovered_example :
    IsTop (sort_all posts 0 (λ j. no_post)).0 (sort_all posts 0 (λ j. no_post)).1
    × AllCovered posts (sort_all posts 0 (λ j. no_post)).1
sort_all-AllCovered_example = sort_all-AllCovered posts 0 (λ j. no_post) empty-IsTop
