-- ===== src/Users.antt =====
-- mbbsd/cache.c, the user hash in shared memory (uhash_t of include/pttstruct.h), with StringHash
-- of mbbsd/toolkit.c. The int cells that hold -1 or a slot are `Option ℕ`; an `int *` into them is
-- a `Cell`. Loops over a chain take fuel, and `none` is a loop that does not end.
pub mod Cells
pub mod Chains
pub mod Slots
pub mod Invariant
pub mod Register
pub mod Load
pub mod Clean
pub mod Cleaned
pub mod Search
pub mod NewUser
use Prim.Native.Nat.{bit_xor}
use openptt.Prelude.{
  ℕ, zero, suc, ◌+◌, ◌-◌, ◌*◌, ◌/◌, ◌%◌, ◌^◌, Bool, true, false, Option, none, some, List, [], ◌∷◌,
  ltb, leb, ◌==◌, if◌then◌else◌, ◌&&◌, not,
}
use openptt.Prelude.Bytes.{Bytes, toupper, str_case_eq}

-- MAX_USERS
abbrev pub max_users : ℕ
max_users = 120000

-- The loop of StringHash on 32-bit unsigned.
unfoldable pub hash_loop : ℕ → Bytes → ℕ
unfolding toupper
hash_loop v [] = v
hash_loop v (c ∷ s) = hash_loop (bit_xor ((v * 256 + v / 2 ^ 24) % 2 ^ 32) (toupper c)) s

-- StringHash, with a 32-bit unsigned long and HASH_BITS = 16.
unfoldable pub string_hash : Bytes → ℕ
unfolding hash_loop
string_hash s = (hash_loop 0 s * 2654435769) % 2 ^ 32 / 2 ^ 16

pub record Uhash : Type 0 where
  pub userid : ℕ → Bytes
  pub next_in_hash : ℕ → Option ℕ
  pub hash_head : ℕ → Option ℕ
  pub number : ℕ

-- What an `int *p` of the loops points to.
pub data Cell : Type 0 where
  head_cell : ℕ → Cell
  next_cell : ℕ → Cell

abbrev pub update {ℓ} : {A : Type ℓ} → (ℕ → A) → ℕ → A → ℕ → A
update f n v k = if n == k then v else f k

-- *p
unfoldable pub read : Uhash → Cell → Option ℕ
read u (head_cell h) = u.hash_head h
read u (next_cell k) = u.next_in_hash k

-- *p = v
unfoldable pub write : Uhash → Cell → Option ℕ → Uhash
write u (head_cell h) v = record u { hash_head = update u.hash_head h v }
write u (next_cell k) v = record u { next_in_hash = update u.next_in_hash k v }

-- while(*p != -1) p = &(uhash->next_in_hash[*p]);
unfoldable pub walk_end : ℕ → Uhash → Cell → Option Cell
walk_end zero u p = none
walk_end (suc fuel) u p = elim (read u p) [ none ↦ some p | some k ↦ walk_end fuel u (next_cell k) ]

-- while(*p != -1 && *p != n) p = &(uhash->next_in_hash[*p]);
unfoldable pub walk_to : ℕ → ℕ → Uhash → Cell → Option Cell
walk_to zero n u p = none
walk_to (suc fuel) n u p = elim (read u p) [
  | none ↦ some p
  | some k ↦ elim (k == n) [ true ↦ some p | false ↦ walk_to fuel n u (next_cell k) ]
]

-- The rounds that every loop over a chain is given.
abbrev pub rounds : ℕ
rounds = suc max_users

unfoldable pub add_at : ℕ → Uhash → Cell → Uhash
unfolding write
add_at n u p = write (write u p (some n)) (next_cell n) none

-- From the walk of add_to_uhash on.
unfoldable pub add_walk : ℕ → ℕ → Uhash → Cell → Option Uhash
add_walk fuel n u p = elim (walk_end fuel u p) [ none ↦ none | some q ↦ some (add_at n u q) ]

unfoldable pub add_to_uhash : ℕ → Bytes → Uhash → Option Uhash
add_to_uhash n id u =
    add_walk rounds n (record u { userid = update u.userid n id }) (head_cell (string_hash id))

-- if(*p == n) *p = uhash->next_in_hash[n];
unfoldable pub remove_at : ℕ → Uhash → Cell → Uhash
unfolding read write
remove_at n u p = elim (read u p) [
  | none ↦ u
  | some k ↦ if k == n then write u p (u.next_in_hash n) else u
]

unfoldable pub remove_walk : ℕ → ℕ → Uhash → Cell → Option Uhash
remove_walk fuel n u p = elim (walk_to fuel n u p) [ none ↦ none | some q ↦ some (remove_at n u q) ]

unfoldable pub remove_from_uhash : ℕ → Uhash → Option Uhash
remove_from_uhash n u = remove_walk rounds n u (head_cell (string_hash (u.userid n)))

-- The loop of searchuser, and its result: a user number, or 0.
unfoldable pub search_loop : ℕ → Bytes → Uhash → Option ℕ → Option ℕ
search_loop zero id u p = none
search_loop (suc fuel) id u none = some 0
search_loop (suc fuel) id u (some k) = elim (str_case_eq (u.userid k) id) [
  | true ↦ some (k + 1)
  | false ↦ search_loop fuel id u (u.next_in_hash k)
]

-- searchuser. The code also copies the stored spelling over its argument.
unfoldable pub searchuser : Bytes → Uhash → Option ℕ
searchuser id u = search_loop rounds id u (u.hash_head (string_hash id))

pub spelling : Bytes → Uhash → Option Bytes
spelling id u = elim (searchuser id u) [
  | none ↦ none
  | some n ↦ some (if n == 0 then id else u.userid (n - 1))
]

-- getuserid; `none` is NULL.
pub getuserid : ℕ → Uhash → Option Bytes
getuserid num u = if ltb 0 num && leb num max_users then some (u.userid (num - 1)) else none

unfoldable pub setuserid : ℕ → Bytes → Uhash → Option Uhash
setuserid num id u =
    if ltb 0 num && leb num max_users
    then (if ltb u.number num
        then add_to_uhash (num - 1) id (record u { number = num })
        else (elim (remove_from_uhash (num - 1) u) [
          | none ↦ none
          | some u' ↦ add_to_uhash (num - 1) id u'
        ]))
    else some u

abbrev pub is_empty : Bytes → Bool
is_empty [] = true
is_empty (_ ∷ _) = false

-- The loop of searchnewuser over the `left` slots from `i` on.
unfoldable pub free_slot : (left i : ℕ) → Uhash → Option ℕ
free_slot zero i u = none
free_slot (suc left) i u = elim (is_empty (u.userid i)) [
  | true ↦ some (i + 1)
  | false ↦ free_slot left (i + 1) u
]

-- searchnewuser(mode), `mode` as a Boolean.
unfoldable pub searchnewuser : Bool → Uhash → ℕ
searchnewuser mode u = elim (free_slot u.number 0 u) [
  | some i ↦ i
  | none ↦ if mode && ltb u.number max_users then u.number + 1 else 0
]
