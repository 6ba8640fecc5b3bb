-- ===== src/Online.antt =====
-- mbbsd/cache.c, the table of users on line in shared memory (utmpfile_t of include/pttstruct.h). A
-- userinfo_t * is a position in the table.
pub mod Slots
pub mod Search
use openptt.Prelude.{
  ℕ, zero, suc, ◌+◌, ◌-◌, Bool, true, false, Option, none, some, List, [], ◌∷◌, ◌==◌, if◌then◌else◌,
  ◌&&◌, ◌||◌, not, length, get_or, set,
}
use openptt.Prelude.Bytes.{Bytes}

-- userinfo_t: the fields that the table reads, and the bytes of the others.
pub record Userinfo : Type 0 where
  pub uid : ℕ
  pub pid : ℕ
  pub rest : Bytes

-- An entry of zeros.
abbrev pub blank : Userinfo
blank = record { uid = 0; pid = 0; rest = [] }

pub record Utmp : Type 0 where
  pub uinfo : List Userinfo
  pub uptime : ℕ
  pub number : ℕ

-- resolve_utmp behind attach_shm.
unfoldable pub resolve_utmp : Utmp → Utmp
resolve_utmp u = if u.uptime == 0 then record u { uptime = 1; number = 1 } else u

-- The loop of getnewutmpent from entry `i` on.
unfoldable pub free_entry : ℕ → List Userinfo → Option ℕ
free_entry i [] = none
free_entry i (e ∷ es) = elim (e.pid == 0) [ true ↦ some i | false ↦ free_entry (i + 1) es ]

unfoldable pub take_entry : Userinfo → Utmp → Option (ℕ × Utmp)
take_entry up u = elim (free_entry 0 u.uinfo) [
  | none ↦ none
  | some i ↦ some (i, record u { uinfo = set u.uinfo i up; number = u.number + 1 })
]

-- getnewutmpent: the entry taken and the table, or `none` for exit(1).
unfoldable pub getnewutmpent : Userinfo → Utmp → Option (ℕ × Utmp)
unfolding resolve_utmp take_entry
getnewutmpent up u = take_entry up (resolve_utmp u)

-- purge_utmp
pub purge_utmp : ℕ → Utmp → Utmp
purge_utmp i u = record u { uinfo = set u.uinfo i blank; number = u.number - 1 }

-- The loop of apply_ulist, with the state that the callback changes.
unfoldable pub apply_loop {ℓ} :
    {S : Type ℓ} → (Userinfo → S → ℕ × S) → (Userinfo → Bool) → List Userinfo → S → ℕ × S
apply_loop fptr shown [] s = (0, s)
apply_loop fptr shown (e ∷ es) s = elim (not (e.pid == 0) && shown e) [
  | true ↦
      let (state, s') = fptr e s in
      elim (state == 0) [ true ↦ apply_loop fptr shown es s' | false ↦ (state, s') ]
  | false ↦ apply_loop fptr shown es s
]

-- apply_ulist. With PERM_HIDE the caller sees every entry.
pub apply_ulist {ℓ} :
    {S : Type ℓ} → (Userinfo → S → ℕ × S) → (Userinfo → Bool) → Userinfo → Utmp → S → ℕ × S
unfolding resolve_utmp
apply_ulist fptr perm_hide me u s =
    apply_loop fptr (λ e. perm_hide me || not (perm_hide e)) (resolve_utmp u).uinfo s

-- The loop of search_ulistn from entry `i` on, with `j` entries found.
unfoldable pub search_loop : (i j unum : ℕ) → (Userinfo → Bool) → List Userinfo → Option ℕ
search_loop i j unum f [] = none
search_loop i j unum f (e ∷ es) = elim (f e) [
  | true ↦ elim (j + 1 == unum) [ true ↦ some i | false ↦ search_loop (i + 1) (j + 1) unum f es ]
  | false ↦ search_loop (i + 1) j unum f es
]

-- search_ulistn, with the callback at its `farg`.
pub search_ulistn : (Userinfo → Bool) → (unum : ℕ) → Utmp → Option ℕ
unfolding resolve_utmp
search_ulistn f unum u = search_loop 0 0 unum f (resolve_utmp u).uinfo

-- The loop of search_ulist.
unfoldable pub first_loop : ℕ → (Userinfo → Bool) → List Userinfo → Option ℕ
first_loop i f [] = none
first_loop i f (e ∷ es) = elim (f e) [ true ↦ some i | false ↦ first_loop (i + 1) f es ]

pub search_ulist : (Userinfo → Bool) → Utmp → Option ℕ
unfolding resolve_utmp
search_ulist f u = first_loop 0 f (resolve_utmp u).uinfo

-- The loop of count_logins and count_multi.
unfoldable pub count_loop : (j : ℕ) → (Userinfo → Bool) → List Userinfo → ℕ
count_loop j f [] = j
count_loop j f (e ∷ es) = elim (f e) [ true ↦ count_loop (j + 1) f es | false ↦ count_loop j f es ]

pub count_logins : (Userinfo → Bool) → Utmp → ℕ
unfolding resolve_utmp
count_logins f u = count_loop 0 f (resolve_utmp u).uinfo

pub count_multi : (usernum : ℕ) → Utmp → ℕ
unfolding resolve_utmp
count_multi usernum u = count_loop 0 (λ e. e.uid == usernum) (resolve_utmp u).uinfo
