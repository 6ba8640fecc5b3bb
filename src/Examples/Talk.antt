-- ===== src/Examples/Talk.antt =====
-- Friends, and who sees whom, among a few users.
use openptt.Prelude.{
  Option, take, ◌⊎◌, ℕ, ◌+◌, ◌<◌, ◌≤◌, ◌≡◌, ◌≢◌, refl, arith, Bool, true, false, none, some, List,
  [], ◌∷◌, ◌==◌, ◌&&◌, ◌||◌, not, length, Bool-cases, inl, inr, if◌then◌else◌,
}
use openptt.Prelude.Bytes.{Bytes, codes, str_eq, str_case_eq, toupper, tolower}
use openptt.Prelude.Stdio.{reads, strtok, starts_with, fgets, fgets_all, word}
use openptt.Boards.{has_bit, perm_sysop}
use openptt.Users.{searchuser, search_loop as next_found, string_hash, hash_loop}
use openptt.Friends.{
  bytes_of, load_loop, friend_add, friend_delete, delete_loop, belong, belong_loop, friend_load,
  Loaded, max_friend, max_reject,
}
use openptt.Friends.Lines.{unlines, AreLines}
use openptt.Friends.Adding.{IsId, IsDesc, friend_add-belong}
use openptt.Friends.Deleting.{friend_delete-friend_add}
use openptt.Friends.Loading.{friend_load-scan, Named, elem}
use openptt.Examples.Users.{one, one-IsSound}
use openptt.Talk.{
  is_nameless, Userinfo, blank, scan, is_friend, is_rejected, isvisible, perm_hide, count_ulist,
}
use openptt.Talk.Seeing.{IsEntry, AreEntries, IsClosed, isvisible_lem, sees}
use openptt.Talk.Paging.{prompt, my_talk, answer_for, my_talk_lem}
use openptt.Talk.Pickup.{Pickup, pickup_loop, search_pickup, search_loop}
use openptt.Talk.Picking.{pickup_loop-count_ulist}
use openptt.Talk.Searching.{search_pickup_lem, NoneFrom, next}

abbrev lines : List Bytes
lines = codes "ann          of old" ∷ codes "bob          " ∷ []

lines-AreLines : AreLines lines
lines-AreLines = (refl, omega arith, (refl, omega arith, tt))

eve-IsId : IsId (codes "eve")
eve-IsId = record { dark = refl; one_word = refl; short = omega arith }

new-IsDesc : IsDesc (codes "new")
new-IsDesc = record { one_line = refl; short = omega arith }

friend_add-belong_example :
    (ls' : List Bytes) × (friend_add true (codes "eve") (codes "new") 0 (some (unlines lines))
      ≡ some (unlines ls'))
    × AreLines ls'
    × ((key : Bytes)
        → belong (some (unlines ls')) key
          ≡ (belong (some (unlines lines)) key || str_case_eq (codes "eve") key))
friend_add-belong_example =
    friend_add-belong (codes "eve") (codes "new") 0 lines eve-IsId new-IsDesc lines-AreLines
      (omega arith)

eve_new : belong (some (unlines lines)) (codes "eve") ≡ false
unfolding belong unlines reads strtok belong_loop str_case_eq
eve_new = refl

friend_delete-friend_add_example :
    friend_delete true
      (codes "eve")
      (friend_add true (codes "eve") (codes "new") 0 (some (unlines lines)))
    ≡ some (unlines lines)
friend_delete-friend_add_example =
    friend_delete-friend_add (codes "eve") (codes "new") 0 lines eve-IsId new-IsDesc lines-AreLines
      (omega arith) (refl, unfold starts_with in refl, (refl, unfold starts_with in refl, tt))
      eve_new

-- To delete bo takes bob away, too.
bo_deleted :
    friend_delete true (codes "bo") (some (unlines lines)) ≡ some (codes "ann          of old\n")
unfolding friend_delete delete_loop unlines reads starts_with
bo_deleted = refl

-- The user ptt, and a line that begins with a blank.
abbrev to_load : Option Bytes
to_load = some (codes "PTT          of old\n ptt\nnobody\n")

friend_load-scan_example :
    (r : Loaded) × (friends rejected : List ℕ) × (friend_load to_load none one ≡ some r)
    × Named one (fgets_all 79 (bytes_of to_load)) friends
    × Named one (fgets_all 79 (bytes_of none)) rejected
    × (r.friendcount ≡ length (take 255 friends))
    × (r.rejected_number ≡ length (take 31 rejected))
    × (length r.friend ≡ max_friend)
    × (length r.reject ≡ max_reject)
    × ((unum : ℕ)
        → (scan unum r.friend ≡ some (elem unum (take 255 friends)))
          × (scan unum r.reject ≡ some (elem unum (take 31 rejected))))
friend_load-scan_example = friend_load-scan to_load none one one-IsSound

-- Of the three lines only the first is found.
loaded_run : load_loop one 255 (fgets_all 79 (bytes_of to_load)) ≡ some (1 ∷ [])
unfolding load_loop reads fgets strtok word searchuser next_found string_hash hash_loop toupper
    str_case_eq tolower
loaded_run = refl

-- Ann has Bob as a friend, Bob rejects Ann.
abbrev ann : Userinfo
ann = record blank { uid = 3; pid = 70; userid = codes "ann"; friend = 5 ∷ 0 ∷ []; reject = 0 ∷ [] }

abbrev bob : Userinfo
bob = record blank { uid = 5; pid = 71; userid = codes "bob"; friend = 0 ∷ []; reject = 3 ∷ 0 ∷ [] }

empty-IsClosed : (cells : List ℕ) → IsClosed (0 ∷ cells)
unfolding scan
empty-IsClosed cells k = (false, refl)

one-IsClosed : (n : ℕ) (cells : List ℕ) → IsClosed (n ∷ 0 ∷ cells)
unfolding scan
one-IsClosed n cells k = elim (Bool-cases (n == 0)) [
  | inl e ↦ (false, rw (scan, e) refl)
  | inr e ↦ elim (Bool-cases (k == n)) [
    | inl f ↦ (true, rw (scan, e, f) refl)
    | inr f ↦ (false, rw (scan, e, f) refl)
  ]
]

ann-IsEntry : IsEntry ann
ann-IsEntry = record { friend = one-IsClosed 5 []; reject = empty-IsClosed [] }

bob-IsEntry : IsEntry bob
bob-IsEntry = record { friend = empty-IsClosed []; reject = one-IsClosed 3 [] }

isvisible_lem_example :
    (fri rej : ℕ) × (his_friend his_reject : Bool) × (is_friend ann bob ≡ some fri)
    × (is_rejected ann bob ≡ some rej)
    × (scan 3 bob.friend ≡ some his_friend)
    × (scan 3 bob.reject ≡ some his_reject)
    × (isvisible 1 ann bob fri rej ≡ sees 1 ann bob his_friend his_reject)
isvisible_lem_example = isvisible_lem 1 ann bob ann-IsEntry bob-IsEntry

bob_unseen : isvisible 1 ann bob 2 2 ≡ false
unfolding isvisible
bob_unseen = refl

my_talk_lem_example :
    (friend reject : Bool) × (scan 5 ann.friend ≡ some friend)
    × (scan 5 ann.reject ≡ some reject)
    × (my_talk 1 bob ann
        ≡ some (answer_for (has_bit 1 perm_sysop) friend (not (perm_hide ann) && reject) ann))
my_talk_lem_example = my_talk_lem 1 bob ann bob-IsEntry ann-IsEntry

-- A pager that is off lets everyone through.
paged : my_talk 1 blank (record ann { mode = 1; pager = 0; friend = 0 ∷ [] }) ≡ some prompt
unfolding my_talk
paged = refl

abbrev seen : List Userinfo
seen =
    record ann { lastact = 90 }
    ∷ record blank { friend = 0 ∷ []; reject = 0 ∷ [] }
    ∷ record bob { lastact = 80 }
    ∷ []

seen-AreEntries : AreEntries seen
seen-AreEntries = (
  record { friend = one-IsClosed 5 []; reject = empty-IsClosed [] },
  (
    record { friend = empty-IsClosed []; reject = empty-IsClosed [] },
    (record { friend = empty-IsClosed []; reject = one-IsClosed 3 [] }, tt),
  ),
)

pickup_loop-count_ulist_example :
    (p : Pickup) × (pickup_loop 100 60 1 0 (λ pid. true) none ann seen ≡ some (p, seen))
    × ((rtv : ℕ) → count_ulist rtv 1 0 ann seen ≡ some (rtv + length p.pklist))
    × (p.friends_number ≤ length p.pklist)
pickup_loop-count_ulist_example =
    pickup_loop-count_ulist 100 60 1 0 (λ pid. true) ann seen ann-IsEntry seen-AreEntries
      (refl, (refl, (refl, tt)))

abbrev names : ℕ → Bytes
names k = if k == 2 then codes "bob" else codes "ann"

search_pickup_lem_example :
    ((search_pickup 3 4 (codes "bob") names ≡ some none)
      × ((is_nameless (codes "bob") ≡ true)
          ⊎ ((k : ℕ) → k < 4 → k ≢ 3 → str_eq (names k) (codes "bob") ≡ false)))
    ⊎ ((k : ℕ) × (search_pickup 3 4 (codes "bob") names ≡ some (some k))
        × (is_nameless (codes "bob") ≡ false)
        × (k < 4)
        × (k ≢ 3)
        × (str_eq (names k) (codes "bob") ≡ true)
        × NoneFrom (next 3 4) k 4 names (codes "bob"))
search_pickup_lem_example = search_pickup_lem 3 4 (codes "bob") names (omega arith)

search_pickup_run : search_pickup 3 4 (codes "bob") names ≡ some (some 2)
unfolding search_pickup search_loop str_eq
search_pickup_run = refl
