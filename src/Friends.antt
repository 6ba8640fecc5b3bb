-- ===== src/Friends.antt =====
-- mbbsd/friend.c: the files with names of friends and of others, and what friend_load puts into the
-- entry of a user. A file is its bytes, or `none` where it cannot be opened for reading.
pub mod Lines
pub mod Adding
pub mod Deleting
pub mod Loading
use openptt.Prelude.{
  ℕ, zero, suc, ◌+◌, ◌-◌, Bool, true, false, Option, none, some, List, [], ◌∷◌, ◌++◌, ◌==◌, ◌&&◌,
  ◌||◌, not, if◌then◌else◌, ltb, length, get_or, replicate,
}
use openptt.Prelude.Bytes.{Bytes, str_case_eq}
use openptt.Prelude.Stdio.{fgets_all, strtok, starts_with, pad}
use openptt.Users.{Uhash, searchuser}

-- MAX_FRIEND and MAX_REJECT
abbrev pub max_friend : ℕ
max_friend = 256

abbrev pub max_reject : ℕ
max_reject = 32

abbrev pub friend_max : List ℕ
friend_max = max_friend ∷ max_reject ∷ 128 ∷ 32 ∷ 128 ∷ 128 ∷ 128 ∷ 128 ∷ []

-- FRIEND_ALOHA and FRIEND_POST
abbrev friend_aloha : ℕ
friend_aloha = 2

abbrev friend_post : ℕ
friend_post = 3

abbrev pub bytes_of : Option Bytes → Bytes
bytes_of none = []
bytes_of (some s) = s

-- (ptr = strtok(buf, str_space)) && !strcasecmp(ptr, key)
abbrev pub token_is : Option (Bytes × Bytes) → Bytes → Bool
token_is none key = false
token_is (some (buf, token)) key = str_case_eq token key

-- The loop of belong in mbbsd/stuff.c, over what fgets reads.
unfoldable pub belong_loop : Bytes → List Bytes → Bool
belong_loop key [] = false
belong_loop key (l ∷ ls) = token_is (strtok l) key || belong_loop key ls

unfoldable pub belong : Option Bytes → Bytes → Bool
unfolding belong_loop
belong file key = belong_loop key (fgets_all 79 (bytes_of file))

unfoldable pub friend_count : Option Bytes → ℕ
friend_count file = length (fgets_all 199 (bytes_of file))

-- *s > ' ', where a char is signed.
abbrev pub is_dark : Bytes → Bool
is_dark [] = false
is_dark (c ∷ _) = ltb 32 c && ltb c 128

-- What fprintf writes for "%-13s%s\n".
abbrev pub entry : (uident desc : Bytes) → Bytes
entry uident desc = pad 13 uident ++ (desc ++ 10 ∷ [])

-- friend_add for the list `type`, with the answer `buf` to the prompt for a description. `opens` is
-- whether the file can be opened for appending.
unfoldable pub friend_add :
    (opens : Bool) → (uident buf : Bytes) → (type : ℕ) → Option Bytes → Option Bytes
unfolding belong friend_count
friend_add opens uident buf type file =
    if ltb (get_or friend_max type 0) (friend_count file)
    then file
    else (let desc : Bytes = (if type == friend_aloha || type == friend_post then [] else buf) in
        if is_dark uident && not (belong file uident) && opens
        then some (bytes_of file ++ entry uident desc)
        else file)

-- The loop of friend_delete: what goes to the new file.
unfoldable pub delete_loop : Bytes → List Bytes → Bytes
delete_loop uident [] = []
delete_loop uident (l ∷ ls) =
    if is_dark l && not (starts_with l uident)
    then l ++ delete_loop uident ls
    else delete_loop uident ls

-- friend_delete, where `opens` is whether the new file can be written and takes the place of the old.
unfoldable pub friend_delete : (opens : Bool) → (uident : Bytes) → Option Bytes → Option Bytes
unfolding delete_loop
friend_delete opens uident none = none
friend_delete opens uident (some s) =
    if opens then some (delete_loop uident (fgets_all 79 s)) else some s

-- strtok(genbuf, str_space) and (unum = searchuser(genbuf)), which gets the whole buffer, not the
-- token. `none` where the search of the hash does not end.
abbrev pub number_of : Option (Bytes × Bytes) → Uhash → Option ℕ
number_of none u = some 0
number_of (some (buf, token)) u = searchuser buf u

-- One loop of friend_load with `room` cells left.
unfoldable pub load_loop : Uhash → (room : ℕ) → List Bytes → Option (List ℕ)
load_loop u room [] = some []
load_loop u zero (l ∷ ls) = some []
load_loop u (suc room) (l ∷ ls) = elim (number_of (strtok l) u) [
  | none ↦ none
  | some zero ↦ load_loop u (suc room) ls
  | some (suc k) ↦ elim (load_loop u room ls) [ none ↦ none | some unums ↦ some (suc k ∷ unums) ]
]

-- The int array of `size` cells, which was filled with zeros before.
abbrev pub in_array : (size : ℕ) → List ℕ → List ℕ
in_array size unums = unums ++ replicate (size - length unums) 0

-- What friend_load leaves in currutmp, friendcount and rejected_number.
pub record Loaded : Type 0 where
  pub friend : List ℕ
  pub friendcount : ℕ
  pub reject : List ℕ
  pub rejected_number : ℕ

unfoldable pub friend_load : (overrides rejects : Option Bytes) → Uhash → Option Loaded
unfolding load_loop
friend_load overrides rejects u =
    elim (load_loop u (max_friend - 1) (fgets_all 79 (bytes_of overrides))) [
      | none ↦ none
      | some friends ↦ elim (load_loop u (max_reject - 1) (fgets_all 79 (bytes_of rejects))) [
        | none ↦ none
        | some rejected ↦ some (record {
          friend = in_array max_friend friends;
          friendcount = length friends;
          reject = in_array max_reject rejected;
          rejected_number = length rejected;
        })
      ]
    ]
