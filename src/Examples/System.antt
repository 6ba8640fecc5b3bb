-- ===== src/Examples/System.antt =====
-- Users on line, boards and the terminal.
use openptt.Prelude.{
  ◌↔◌, ℕ, ◌≡◌, ◌⊎◌, refl, arith, Bool, true, false, none, some, List, [], ◌∷◌, ◌==◌, set,
}
use openptt.Prelude.Bytes.{codes, str_case_eq, tolower, strn_case_eq}
use openptt.Online.{Userinfo, blank, Utmp, resolve_utmp, free_entry, take_entry, getnewutmpent}
use openptt.Online.Slots.{in_use, IsCounted, IsFirstFree, getnewutmpent_lem}
use openptt.Text.{is_ubm, bm_from, bm_loop}
use openptt.Boards.{
  Files, Board, User, no_board, perm_post, has_perm, is_bm, belong, ben_perm, number_loop, getbnum,
  is_default, board_allows, haspostperm,
}
use openptt.Boards.Posting.{IsOpen, haspostperm_lem}
use openptt.Terminal.{Io, Cursor}

abbrev first : Userinfo
first = record { uid = 5; pid = 101; rest = [] }

abbrev second : Userinfo
second = record { uid = 7; pid = 102; rest = [] }

-- One process on line, and room for two.
abbrev table : Utmp
table = record { uinfo = first ∷ blank ∷ blank ∷ []; uptime = 1; number = 2 }

table-IsCounted : IsCounted table
table-IsCounted = record { started = omega arith; count = refl }

getnewutmpent_run :
    getnewutmpent second table
    ≡ some (1, record { uinfo = first ∷ second ∷ blank ∷ []; uptime = 1; number = 3 })
unfolding getnewutmpent resolve_utmp take_entry free_entry
getnewutmpent_run = refl

getnewutmpent_lem_example :
    ((getnewutmpent second table ≡ none) × (in_use table.uinfo ≡ 3))
    ⊎ ((i : ℕ) × (u' : Utmp) × (getnewutmpent second table ≡ some (i, u'))
        × IsFirstFree i table.uinfo
        × (u'.uinfo ≡ set table.uinfo i second)
        × IsCounted u')
getnewutmpent_lem_example = getnewutmpent_lem second table (omega arith) table-IsCounted

abbrev is_running : Userinfo → Bool
is_running e = e.pid == 101

abbrev no_files : Files
no_files = record { visable = λ n. []; water = λ n. [] }

abbrev poster : User
poster = record { userid = codes "ann"; userlevel = 8 }

abbrev boards : List Board
boards =
    record no_board { brdname = codes "Linux" } ∷ record no_board { brdname = codes "Test" } ∷ []

-- The second board, which has no level.
haspostperm_run : (haspostperm no_files (codes "test") boards poster).0 ≡ true
unfolding haspostperm belong has_perm is_bm is_ubm bm_from bm_loop ben_perm number_loop getbnum
    board_allows str_case_eq tolower strn_case_eq
haspostperm_run = refl

haspostperm_lem_example : ((haspostperm no_files (codes "test") boards poster).0 ≡ true) ↔ (
    (belong [] (codes "ann") ≡ false)
    × ((is_default (codes "test") ≡ true)
        ⊎ ((has_perm perm_post poster ≡ true) × IsOpen no_files (codes "test") boards poster)))
haspostperm_lem_example = haspostperm_lem no_files (codes "test") boards poster

abbrev io : Io
io = record { sent = []; outbuf = codes "abc" }

abbrev here : Cursor
here = record { tc_col = 9; tc_line = 3 }
