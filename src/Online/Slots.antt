-- ===== src/Online/Slots.antt =====
-- getnewutmpent and purge_utmp of mbbsd/cache.c, and the entries in use.
use openptt.Prelude.{
  ℕ, zero, suc, ◌+◌, ◌-◌, ◌<◌, ◌≡◌, ◌≢◌, ◌⊎◌, refl, ap, false, none, some, List, [], ◌∷◌, inl, inr,
  arith, ◌∙◌, sym, ◌==◌, if◌then◌else◌, length, get_or, set, Bool-cases,
}
use openptt.Online.{
  Userinfo, blank, Utmp, resolve_utmp, free_entry, take_entry, getnewutmpent, purge_utmp,
}

-- The entries in use.
abbrev pub in_use : List Userinfo → ℕ
in_use [] = 0
in_use (e ∷ es) = if e.pid == 0 then in_use es else suc (in_use es)

-- The table has been set up, and `number` is one more than the entries in use.
pub record IsCounted (u : Utmp) : Type 0 where
  pub started : 0 < u.uptime
  pub count : u.number ≡ suc (in_use u.uinfo)

-- Every one of the first `i` entries is in use, and entry `i` is not.
abbrev pub IsFirstFree : ℕ → List Userinfo → Type 0
IsFirstFree i es =
    (i < length es)
    × ((get_or es i blank).pid ≡ 0)
    × ((k : ℕ) → k < i → (get_or es k blank).pid ≢ 0)

free_entry_lem :
    (i : ℕ) (es : List Userinfo)
    → ((free_entry i es ≡ none) × (in_use es ≡ length es))
      ⊎ ((k : ℕ) × (free_entry i es ≡ some (i + k)) × IsFirstFree k es)
unfolding free_entry
free_entry_lem i [] = inl (refl, refl)
free_entry_lem i (e ∷ es) = elim (Bool-cases (e.pid == 0)) [
  | inl z ↦ inr (
    0,
    rw (z, free_entry) (ap some (omega arith)),
    (omega arith, ground arith, λ k lt. absurd (omega arith)),
  )
  | inr z ↦ elim (free_entry_lem (i + 1) es) [
    | inl (run, full) ↦ inl (rw (z, free_entry) run, ground arith)
    | inr (k, run, (inside, free, used)) ↦ inr (
      suc k,
      rw (z, free_entry) (run ∙ ap some (omega arith)),
      (omega arith, free, before e es k (ground arith) used),
    )
  ]
]
  where
    before :
        (e : Userinfo) (es : List Userinfo) (k : ℕ)
        → e.pid ≢ 0
        → ((j : ℕ) → j < k → (get_or es j blank).pid ≢ 0)
        → (j : ℕ) → j < suc k
        → (get_or (e ∷ es) j blank).pid ≢ 0
    before e es k ne used zero lt = ne
    before e es k ne used (suc j) lt = used j (omega arith)

in_use-set_taken :
    (es : List Userinfo) (i : ℕ) (e : Userinfo)
    → i < length es
    → (get_or es i blank).pid ≡ 0
    → 0 < e.pid
    → in_use (set es i e) ≡ suc (in_use es)
in_use-set_taken [] i e inside free pos = absurd (omega arith)
in_use-set_taken (x ∷ es) zero e inside free pos = ground arith
in_use-set_taken (x ∷ es) (suc i) e inside free pos =
    ground (arith, in_use-set_taken es i e (omega arith) free pos)

in_use-set-blank :
    (es : List Userinfo) (i : ℕ)
    → i < length es
    → 0 < (get_or es i blank).pid
    → suc (in_use (set es i blank)) ≡ in_use es
in_use-set-blank [] i inside used = absurd (omega arith)
in_use-set-blank (x ∷ es) zero inside used = ground arith
in_use-set-blank (x ∷ es) (suc i) inside used =
    ground (arith, in_use-set-blank es i (omega arith) used)

resolved : (u : Utmp) → 0 < u.uptime → resolve_utmp u ≡ u
unfolding resolve_utmp
resolved u pos = let e : (u.uptime == 0) ≡ false = ground arith in rw e

-- What the process gets in entry `i`.
abbrev entered : Userinfo → Utmp → ℕ → Utmp
entered up u i = record u { uinfo = set u.uinfo i up; number = u.number + 1 }

getnewutmpent-free :
    (up : Userinfo) (u : Utmp) (i : ℕ)
    → 0 < u.uptime
    → free_entry 0 u.uinfo ≡ some i
    → getnewutmpent up u ≡ some (i, entered up u i)
unfolding getnewutmpent take_entry
getnewutmpent-free up u i pos run = ap (take_entry up) (resolved u pos) ∙ rw (take_entry, run)

getnewutmpent-full :
    (up : Userinfo) (u : Utmp)
    → 0 < u.uptime
    → free_entry 0 u.uinfo ≡ none
    → getnewutmpent up u ≡ none
unfolding getnewutmpent take_entry
getnewutmpent-full up u pos run = ap (take_entry up) (resolved u pos) ∙ rw (take_entry, run)

first_free :
    (es : List Userinfo)
    → ((free_entry 0 es ≡ none) × (in_use es ≡ length es))
      ⊎ ((k : ℕ) × (free_entry 0 es ≡ some k) × IsFirstFree k es)
first_free es = elim (free_entry_lem 0 es) [
  | inl full ↦ inl full
  | inr (k, run, free) ↦ inr (k, run ∙ ap some (omega arith), free)
]

-- getnewutmpent of a running process takes the first free entry, writes the process there, and
-- keeps `number` right; it gives up only when every entry is in use.
pub getnewutmpent_lem :
    (up : Userinfo) (u : Utmp)
    → 0 < up.pid
    → IsCounted u
    → ((getnewutmpent up u ≡ none) × (in_use u.uinfo ≡ length u.uinfo))
      ⊎ ((i : ℕ) × (u' : Utmp) × (getnewutmpent up u ≡ some (i, u'))
          × IsFirstFree i u.uinfo
          × (u'.uinfo ≡ set u.uinfo i up)
          × IsCounted u')
getnewutmpent_lem up u pos c = elim (first_free u.uinfo) [
  | inl (run, full) ↦ inl (getnewutmpent-full up u c.started run, full)
  | inr (i, run, free) ↦ inr (
    i,
    entered up u i,
    getnewutmpent-free up u i c.started run,
    free,
    refl,
    record {
      started = c.started;
      count = omega (arith, in_use-set_taken u.uinfo i up free.0 free.1 pos, c.count);
    },
  )
]

-- purge_utmp of an entry in use keeps `number` right, and frees that entry and no other.
pub purge_utmp-IsCounted :
    (i : ℕ) (u : Utmp)
    → IsCounted u
    → i < length u.uinfo
    → 0 < (get_or u.uinfo i blank).pid
    → IsCounted (purge_utmp i u) × (suc (in_use (purge_utmp i u).uinfo) ≡ in_use u.uinfo)
unfolding purge_utmp
purge_utmp-IsCounted i u c inside used = (
  record {
    started = c.started;
    count = omega (arith, in_use-set-blank u.uinfo i inside used, c.count);
  },
  in_use-set-blank u.uinfo i inside used,
)

set-set : (es : List Userinfo) (i : ℕ) (a b : Userinfo) → set (set es i a) i b ≡ set es i b
set-set [] i a b = refl
set-set (x ∷ es) zero a b = refl
set-set (x ∷ es) (suc i) a b = ap (x ∷◌) (set-set es i a b)

set_same : (es : List Userinfo) (i : ℕ) (a : Userinfo) → get_or es i a ≡ a → set es i a ≡ es
set_same [] i a e = refl
set_same (x ∷ es) zero a e = ap (◌∷ es) (sym e)
set_same (x ∷ es) (suc i) a e = ap (x ∷◌) (set_same es i a e)

-- A process that comes and goes leaves the table as it was, where the entry it gets holds zeros.
pub purge_utmp-getnewutmpent :
    (up : Userinfo) (u u' : Utmp) (i : ℕ)
    → 0 < u.uptime
    → get_or u.uinfo i blank ≡ blank
    → getnewutmpent up u ≡ some (i, u')
    → purge_utmp i u' ≡ u
unfolding purge_utmp
purge_utmp-getnewutmpent up u u' i pos zeros run = elim (first_free u.uinfo) [
  | inl (r, full) ↦ cc (run, getnewutmpent-full up u pos r)
  | inr (k, r, free) ↦
      let same : (i, u') ≡ (k, entered up u k) = cc (run, getnewutmpent-free up u k pos r) in
      let at : i ≡ k = ap (λ (q : ℕ × Utmp). q.0) same in
      let new : u' ≡ entered up u k = ap (λ (q : ℕ × Utmp). q.1) same in
      let restored : set u.uinfo k blank ≡ u.uinfo = set_same u.uinfo k blank (rw (← at) zeros) in
      let count : u.number + 1 - 1 ≡ u.number = omega arith in
      rw (new, at, set-set u.uinfo k up blank, restored, count) refl
]
