-- ===== src/Users/Clean.antt =====
-- getnewuserid of mbbsd/register.c: accounts that have not been used for long are taken back.
use openptt.Prelude.{
  ℕ, zero, suc, ◌+◌, ◌-◌, ◌*◌, ◌/◌, Bool, false, Option, none, some, [], ◌||◌, ltb, leb,
  if◌then◌else◌, ℤ, pos, negsuc, sub_int,
}
use openptt.Prelude.Bytes.{Bytes, codes, str_eq}
use openptt.Boards.{has_bit}
use openptt.Users.{is_empty, Uhash, update, add_to_uhash, remove_from_uhash}

-- PERM_LOGINOK and PERM_XEMPT
abbrev pub perm_loginok : ℕ
perm_loginok = 16

abbrev pub perm_xempt : ℕ
perm_xempt = 256

-- The fields of userec_t that are used here.
pub record User : Type 0 where
  pub userid : Bytes
  pub userlevel : ℕ
  pub lastlogin : ℕ

abbrev pub zerorec : User
zerorec = record { userid = []; userlevel = 0; lastlogin = 0 }

-- Is a user never taken back?
unfoldable pub is_kept : User → Bool
is_kept u = is_empty u.userid || has_bit u.userlevel perm_xempt || str_eq (codes "guest") u.userid

-- What is left of `limit` minutes since the last login.
abbrev pub left_of : (limit clock lastlogin : ℕ) → ℤ
left_of limit clock lastlogin =
    if leb lastlogin clock
    then sub_int limit ((clock - lastlogin) / 60)
    else pos (limit + (lastlogin - clock) / 60)

unfoldable pub compute_user_value : User → (clock : ℕ) → ℤ
unfolding is_kept
compute_user_value u clock =
    if is_kept u
    then pos 9999
    else (if str_eq u.userid (codes "new")
        then left_of 30 clock u.lastlogin
        else left_of ((if has_bit u.userlevel perm_loginok then 120 else 15) * 24 * 60) clock
            u.lastlogin)

-- val < 0 && val > -1 * 60 * 24 * 365
abbrev pub is_dated : ℤ → Bool
is_dated (pos n) = false
is_dated (negsuc n) = ltb (n + 1) (60 * 24 * 365)

-- The password file and the hash.
pub record Accounts : Type 0 where
  pub passwd : ℕ → User
  pub uhash : Uhash

-- The body of the loop for the slot `k`, which is the user k + 1.
unfoldable pub clean_user : (clock k : ℕ) → Accounts → Option Accounts
unfolding compute_user_value
clean_user clock k a =
    if is_dated (compute_user_value (a.passwd k) clock)
    then (elim (remove_from_uhash k a.uhash) as (λ _. Option Accounts) [
      | none ↦ none
      | some v ↦ elim (add_to_uhash k [] v) [
        | none ↦ none
        | some u' ↦ some (record { passwd = update a.passwd k zerorec; uhash = u' })
      ]
    ])
    else some a

-- The loop of getnewuserid, for `count` slots from `k` on.
unfoldable pub clean_loop : (count : ℕ) → (clock k : ℕ) → Accounts → Option Accounts
unfolding clean_user
clean_loop zero clock k a = some a
clean_loop (suc count) clock k a = elim (clean_user clock k a) [
  | none ↦ none
  | some a' ↦ clean_loop count clock (k + 1) a'
]
