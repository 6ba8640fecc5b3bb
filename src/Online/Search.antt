-- ===== src/Online/Search.antt =====
-- search_ulistn and count_logins of mbbsd/cache.c.
use openptt.Prelude.{
  ℕ, suc, ◌+◌, ◌<◌, ◌≤◌, ◌≡◌, ◌⊎◌, refl, ap, ◌∙◌, Bool, true, none, some, List, [], ◌∷◌, inl, inr,
  arith, ◌==◌, length, get_or, take, Bool-cases,
}
use native.Mathlib.Decide.{dec_lt}
use openptt.Online.{
  Userinfo, blank, Utmp, resolve_utmp, search_loop, search_ulistn, count_loop, count_logins,
}

count_loop-start :
    (j : ℕ) (f : Userinfo → Bool) (es : List Userinfo) → count_loop j f es ≡ j + count_loop 0 f es
unfolding count_loop
count_loop-start j f [] = omega arith
count_loop-start j f (e ∷ es) = elim (Bool-cases (f e)) [
  | inl y ↦
      rw (y, count_loop) (omega (arith, count_loop-start (j + 1) f es, count_loop-start 1 f es))
  | inr y ↦ rw (y, count_loop) (count_loop-start j f es)
]

search_loop_lem :
    (i j unum : ℕ) (f : Userinfo → Bool) (es : List Userinfo)
    → ((search_loop i j unum f es ≡ none) × ((unum ≤ j) ⊎ (j + count_loop 0 f es < unum)))
      ⊎ ((k : ℕ) × (search_loop i j unum f es ≡ some (i + k))
          × (k < length es)
          × (f (get_or es k blank) ≡ true)
          × (j + count_loop 0 f (take k es) + 1 ≡ unum))
unfolding search_loop count_loop
search_loop_lem i j unum f [] =
    inl (refl, elim (dec_lt j unum) [ yes h ↦ inr (omega arith) | no h ↦ inl (omega arith) ])
search_loop_lem i j unum f (e ∷ es) = elim (Bool-cases (f e)) [
  | inl y ↦ elim (Bool-cases (j + 1 == unum)) [
    | inl q ↦ inr (0, rw (y, search_loop, q) (ap some (omega arith)), omega arith, y, ground arith)
    | inr q ↦ elim (search_loop_lem (i + 1) (j + 1) unum f es) [
      | inl (run, why) ↦ inl (
        rw (y, search_loop, q) run,
        elim why [
          | inl a ↦ inl (ground arith)
          | inr b ↦ inr (rw (y, count_loop) (omega (arith, count_loop-start 1 f es)))
        ],
      )
      | inr (k, run, inside, hit, nth) ↦ inr (
        suc k,
        rw (y, search_loop, q) (run ∙ ap some (omega arith)),
        omega arith,
        hit,
        rw (y, count_loop) (omega (arith, count_loop-start 1 f (take k es))),
      )
    ]
  ]
  | inr y ↦ elim (search_loop_lem (i + 1) j unum f es) [
    | inl (run, why) ↦ inl (rw (y, search_loop) run, rw (y, count_loop) why)
    | inr (k, run, inside, hit, nth) ↦ inr (
      suc k,
      rw (y, search_loop) (run ∙ ap some (omega arith)),
      omega arith,
      hit,
      rw (y, count_loop) nth,
    )
  ]
]

uinfo-resolve_utmp : (u : Utmp) → (resolve_utmp u).uinfo ≡ u.uinfo
unfolding resolve_utmp
uinfo-resolve_utmp u = elim (Bool-cases (u.uptime == 0)) [ inl e ↦ rw e | inr e ↦ rw e ]

-- search_ulistn gives the entry that is number `unum` among those that count_logins counts, from 1
-- on, and NULL exactly when there are not so many or `unum` is 0.
pub search_ulistn-count_logins :
    (f : Userinfo → Bool) (unum : ℕ) (u : Utmp)
    → ((search_ulistn f unum u ≡ none) × ((unum ≡ 0) ⊎ (count_logins f u < unum)))
      ⊎ ((k : ℕ) × (search_ulistn f unum u ≡ some k)
          × (k < length u.uinfo)
          × (f (get_or u.uinfo k blank) ≡ true)
          × (count_logins f (record u { uinfo = take k u.uinfo }) + 1 ≡ unum))
unfolding search_ulistn count_logins resolve_utmp
search_ulistn-count_logins f unum u =
    let table = uinfo-resolve_utmp in
    rw (search_ulistn, count_logins, table u)
      (elim (search_loop_lem 0 0 unum f u.uinfo) [
        | inl (run, why) ↦
            inl (run, elim why [ inl a ↦ inl (omega arith) | inr b ↦ inr (omega arith) ])
        | inr (k, run, inside, hit, nth) ↦ inr (
          k,
          run ∙ ap some (omega arith),
          inside,
          hit,
          rw (table (record u { uinfo = take k u.uinfo })) (omega arith),
        )
      ])
