-- ===== src/Names.antt =====
-- mbbsd/name.c: the list of names that is built by hand, and the completion of a typed prefix; with
-- u_namearray of mbbsd/cache.c. A node is a position in the list, and `current` is the node that
-- AddNameList appends behind.
pub mod Toggle
pub mod Complete
use Prim.Native.Nat.{max}
use openptt.Prelude.{
  ℕ, zero, suc, ◌+◌, ◌-◌, Bool, true, false, Option, none, some, List, [], ◌∷◌, ◌++◌, ltb, leb,
  ◌==◌, if◌then◌else◌, ◌&&◌, ◌||◌, not, length, take, map,
}
use openptt.Prelude.Bytes.{Bytes, str_eq, toupper}

pub record Names : Type 0 where
  pub words : List Bytes
  pub current : Option ℕ

-- CreateNameList
pub create_name_list : Names
create_name_list = record { words = []; current = none }

-- AddNameList; `none` is the write through a null `current`.
pub add_name_list : Bytes → Names → Option Names
add_name_list name n = elim n.words [
  | [] ↦ some (record { words = name ∷ []; current = some 0 })
  | _ ∷ _ ↦ elim n.current [
    | none ↦ none
    | some c ↦ some (record { words = take (c + 1) n.words ++ name ∷ []; current = some (c + 1) })
  ]
]

-- The position of the first node with the word, as the loops of InNameList and RemoveNameList find it.
unfoldable pub index_of : Bytes → List Bytes → Option ℕ
unfolding str_eq
index_of name [] = none
index_of name (w ∷ ws) =
    if str_eq w name
    then some 0
    else (elim (index_of name ws) [ none ↦ none | some i ↦ some (suc i) ])

-- InNameList
pub in_name_list : Bytes → Names → Bool
unfolding index_of
in_name_list name n = elim (index_of name n.words) [ none ↦ false | some _ ↦ true ]

abbrev pub erase_idx : ℕ → List Bytes → List Bytes
erase_idx k [] = []
erase_idx zero (w ∷ ws) = ws
erase_idx (suc k) (w ∷ ws) = w ∷ erase_idx k ws

-- `current` once node `k` is gone: its predecessor where it was that node.
abbrev pub current_without : ℕ → Option ℕ → Option ℕ
current_without k none = none
current_without k (some c) =
    if c == k
    then (if k == 0 then none else some (k - 1))
    else (if ltb k c then some (c - 1) else some c)

-- RemoveNameList
pub remove_name_list : Bytes → Names → Bool × Names
unfolding index_of
remove_name_list name n = elim (index_of name n.words) [
  | none ↦ (false, n)
  | some k ↦ (true, record { words = erase_idx k n.words; current = current_without k n.current })
]

-- The body of the loop of ToggleNameList for one name, with the counter `*reciper`.
pub toggle : Bytes → Names × ℕ → Option (Names × ℕ)
unfolding in_name_list add_name_list remove_name_list
toggle name (n, reciper) =
    if in_name_list name n
    then some ((remove_name_list name n).1, reciper - 1)
    else (elim (add_name_list name n) [ none ↦ none | some n' ↦ some (n', reciper + 1) ])

-- The loop of ToggleNameList over the first words of the file's lines.
pub toggle_name_list : List Bytes → Names × ℕ → Option (Names × ℕ)
unfolding toggle
toggle_name_list [] s = some s
toggle_name_list (name ∷ names) s = elim (toggle name s) [
  | none ↦ none
  | some s' ↦ toggle_name_list names s'
]

-- NumInList
pub num_in_list : List Bytes → ℕ
num_in_list [] = 0
num_in_list (w ∷ ws) = num_in_list ws + 1

-- chkstr: does the upper-case tag begin the name, its letters in either case?
unfoldable pub chkstr : Bytes → Bytes → Bool
unfolding toupper
chkstr [] name = true
chkstr (t ∷ tag) [] = false
chkstr (t ∷ tag) (c ∷ name) = t == toupper c && chkstr tag name

abbrev pub filter_by : (Bytes → Bool) → List Bytes → List Bytes
filter_by f [] = []
filter_by f (w ∷ ws) = let rest = filter_by f ws in if f w then w ∷ rest else rest

-- GetSubList
pub get_sub_list : Bytes → List Bytes → List Bytes
unfolding chkstr
get_sub_list tag ws = filter_by (chkstr (map toupper tag)) ws

abbrev pub byte_at : Bytes → ℕ → ℕ
byte_at [] k = 0
byte_at (c ∷ s) zero = c
byte_at (c ∷ s) (suc k) = byte_at s k

-- The test of UserSubArray on one name. `|0x20` of an upper-case letter is its lower-case letter.
unfoldable pub key_at : (key pos : ℕ) → Bytes → Bool
unfolding toupper
key_at key pos w =
    let k = toupper key in
    let k2 = if leb b'A' k && leb k b'Z' then k + 32 else k in
    byte_at w pos == k || byte_at w pos == k2

-- UserSubArray
pub user_sub_array : List Bytes → (key pos : ℕ) → List Bytes
unfolding key_at
user_sub_array ws key pos = filter_by (key_at key pos) ws

-- The test of u_namearray on one name, by its first byte and then chkstr.
unfoldable pub names_tag : Bytes → Bytes → Bool
unfolding chkstr
names_tag tag w =
    let first = byte_at tag 0 in (byte_at w 0 == first || byte_at w 0 == first + 32) && chkstr tag w

-- u_namearray over the names in use.
pub u_namearray : Bytes → List Bytes → List Bytes
unfolding names_tag
u_namearray [] ws = ws
u_namearray (t ∷ tag) ws = filter_by (names_tag (map toupper (t ∷ tag))) ws

-- MaxLen, and UserMaxLen from `morenum` on.
unfoldable pub max_len_from : (len count : ℕ) → List Bytes → ℕ
max_len_from len zero ws = len
max_len_from len (suc count) [] = len
max_len_from len (suc count) (w ∷ ws) =
    max_len_from (if ltb len (length w) then length w else len) count ws
