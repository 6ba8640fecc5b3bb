-- ===== src/Examples/Users.antt =====
-- The user hash with one user.
use Prim.Native.Nat.{max}
use openptt.Prelude.{
  ◌⊎◌, ℕ, suc, ◌<◌, ◌≡◌, refl, arith, true, none, some, [], ◌∷◌, ◌+◌, ◌==◌, ◌≤◌, Bool-cases, inl,
  inr, Option,
}
use openptt.Prelude.Bytes.{Bytes, codes, str_eq, toupper, tolower, str_case_eq}
use openptt.Users.{
  Uhash, string_hash, hash_loop, update, read, write, walk_end, add_at, add_walk, add_to_uhash,
  search_loop, remove_from_uhash, remove_walk, remove_at, walk_to, searchuser, setuserid,
}
use openptt.Users.Invariant.{IsSound}
use openptt.Users.Load.{fill_loop, fill_uhash, Reachable, loaded, searchuser-Reachable}
use openptt.Users.Register.{setuserid-IsSound}
use openptt.Users.Clean.{Accounts, zerorec, clean_user, clean_loop, compute_user_value, is_kept}
use openptt.Users.Cleaned.{IsConsistent, IsCleaned, clean_loop-IsCleaned}
use openptt.Users.Search.{IsUnknown}

abbrev pub ptt : Bytes
ptt = codes "ptt"

abbrev loud : Bytes
loud = codes "PTT"

abbrev sysop : Bytes
sysop = codes "SYSOP"

abbrev nobody : Uhash
nobody = record { userid = λ k. []; next_in_hash = λ k. none; hash_head = λ h. none; number = 0 }

nobody-IsSound : IsSound nobody
nobody-IsSound = record {
  chains = λ h. [];
  holds = record {
    linked = λ h. unfold read in refl;
    nodup = λ h. tt;
    hashed = λ h k e. cc;
    small = λ h k e. cc;
  };
  bounded = omega arith;
  used = λ h k e. cc;
  present = λ k lt. absurd (omega arith);
}

-- One user, in the bucket of its name.
abbrev pub one : Uhash
one = record {
  userid = update nobody.userid 0 ptt;
  next_in_hash = update nobody.next_in_hash 0 none;
  hash_head = update nobody.hash_head (string_hash ptt) (some 0);
  number = 1;
}

setuserid_run : setuserid 1 ptt nobody ≡ some one
unfolding setuserid add_to_uhash add_walk walk_end add_at read write
setuserid_run = refl

setuserid-IsSound_example :
    (u' : Uhash) × (setuserid 1 ptt nobody ≡ some u')
    × IsSound u'
    × (u'.userid ≡ update nobody.userid 0 ptt)
    × (u'.number ≡ max 0 1)
setuserid-IsSound_example =
    setuserid-IsSound 1 ptt nobody (omega arith) (omega arith) (omega arith) nobody-IsSound

pub one-IsSound : IsSound one
one-IsSound =
    let (u', run, sound, names, count) = setuserid-IsSound_example in
    let same : u' ≡ one = cc (run, setuserid_run) in rw (← same) sound

searchuser_run : searchuser loud one ≡ some 1
unfolding searchuser search_loop string_hash hash_loop toupper str_case_eq tolower
searchuser_run = refl

one-Reachable : Reachable one
unfolding fill_uhash fill_loop add_to_uhash add_walk walk_end add_at read write
one-Reachable = loaded (ptt ∷ []) nobody one (omega arith) refl

searchuser-Reachable_example :
    ((searchuser loud one ≡ some 0) × IsUnknown loud one)
    ⊎ ((k : ℕ) × (searchuser loud one ≡ some (suc k))
        × (k < 1)
        × (str_case_eq (one.userid k) loud ≡ true))
searchuser-Reachable_example = searchuser-Reachable loud one one-Reachable

-- The only user has not been seen for 20 days.
abbrev old_accounts : Accounts
old_accounts = record {
  passwd = update (λ k. zerorec) 0 (record { userid = ptt; userlevel = 0; lastlogin = 1000 });
  uhash = one;
}

old_accounts-behind : (k : ℕ) → 1 ≤ k → (old_accounts.passwd k).userid ≡ []
old_accounts-behind k le = elim (Bool-cases (0 == k)) [
  | inl e ↦ absurd (ground arith)
  | inr e ↦ rw e refl
]

old_accounts-IsConsistent : IsConsistent old_accounts
old_accounts-IsConsistent = record { sound = one-IsSound; behind = old_accounts-behind }

clean_loop-IsCleaned_example :
    (a' : Accounts) × (clean_loop 4 1800000 0 old_accounts ≡ some a')
    × IsCleaned 1800000 0 (0 + 4) old_accounts a'
clean_loop-IsCleaned_example =
    clean_loop-IsCleaned 4 1800000 0 old_accounts old_accounts-IsConsistent

abbrev name_of : Option Accounts → Bytes
name_of none = ptt
name_of (some a) = a.uhash.userid 0

clean_run : name_of (clean_loop 4 1800000 0 old_accounts) ≡ []
unfolding clean_loop clean_user compute_user_value is_kept remove_from_uhash add_to_uhash add_walk
    walk_end add_at read write string_hash hash_loop toupper remove_walk walk_to str_eq remove_at
clean_run = refl
