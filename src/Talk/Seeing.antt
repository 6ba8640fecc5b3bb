-- ===== src/Talk/Seeing.antt =====
-- is_friend, is_rejected, isvisible and count_ulist of mbbsd/talk.c and mbbsd/cache.c.
use openptt.Prelude.{
  ℕ, ◌+◌, ◌≤◌, Bool, true, false, some, List, [], ◌∷◌, ◌≡◌, refl, ◌==◌, ◌&&◌, ◌||◌, not, arith,
  Bool-cases, inl, inr, if◌then◌else◌, sym, ◌∙◌,
}
use openptt.Boards.{has_bit, perm_sysop}
use openptt.Talk.{
  Userinfo, perm_seecloak, scan, add_bit, is_friend, perm_hide, is_rejected, is_nameless, isvisible,
  counts, count_ulist,
}

-- The array has a zero.
abbrev pub IsClosed : List ℕ → Type 0
IsClosed cells = (k : ℕ) → (b : Bool) × (scan k cells ≡ some b)

-- The arrays of an entry.
pub record IsEntry (u : Userinfo) : Type 0 where
  pub friend : IsClosed u.friend
  pub reject : IsClosed u.reject

-- The bits for "my friend" (2), "friend of the board" (1) and "I am his friend" (4).
friend_bits :
    (mine board his : Bool)
    → let hit = add_bit 4 his (add_bit 1 board (if mine then 2 else 0)) in
      (has_bit hit 2 ≡ mine) × (has_bit hit 1 ≡ board) × (has_bit hit 4 ≡ his)
friend_bits true true true = (refl, refl, refl)
friend_bits true true false = (refl, refl, refl)
friend_bits true false true = (refl, refl, refl)
friend_bits true false false = (refl, refl, refl)
friend_bits false true true = (refl, refl, refl)
friend_bits false true false = (refl, refl, refl)
friend_bits false false true = (refl, refl, refl)
friend_bits false false false = (refl, refl, refl)

pub is_friend_bits :
    (me ui : Userinfo) (mine his : Bool)
    → scan ui.uid me.friend ≡ some mine
    → scan me.uid ui.friend ≡ some his
    → (hit : ℕ) × (is_friend me ui ≡ some hit)
      × (has_bit hit 2 ≡ mine)
      × (has_bit hit 1 ≡ (not (me.brc_id == 0) && ui.brc_id == me.brc_id))
      × (has_bit hit 4 ≡ his)
unfolding is_friend
is_friend_bits me ui mine his p q =
    let (b2, b1, b4) = friend_bits mine (not (me.brc_id == 0) && ui.brc_id == me.brc_id) his in
    (
      add_bit 4 his
          (add_bit 1 (not (me.brc_id == 0) && ui.brc_id == me.brc_id) (if mine then 2 else 0)),
      rw (is_friend, p, q) refl,
      b2,
      b1,
      b4,
    )

-- Both sides see the same friendship. Where the arrays of both are closed by a zero, is_friend ends
-- for either of them, "my friend" for the one is "I am his friend" for the other, and they agree on
-- whether they read the same board.
pub is_friend-swap :
    (me ui : Userinfo)
    → IsEntry me
    → IsEntry ui
    → (a : ℕ) × (b : ℕ) × (is_friend me ui ≡ some a)
      × (is_friend ui me ≡ some b)
      × (has_bit a 2 ≡ has_bit b 4)
      × (has_bit a 4 ≡ has_bit b 2)
      × (has_bit a 1 ≡ has_bit b 1)
is_friend-swap me ui p q =
    let (mine, scan_mine) = p.friend ui.uid in
    let (his, scan_his) = q.friend me.uid in
    let (a, run_a, a2, a1, a4) = is_friend_bits me ui mine his scan_mine scan_his in
    let (b, run_b, b2, b1, b4) = is_friend_bits ui me his mine scan_his scan_mine in
    (a, b, run_a, run_b, a2 ∙ sym b4, a4 ∙ sym b2, ground (arith, a1, b1))

reject_bits :
    (mine his : Bool)
    → let hit = add_bit 2 his (if mine then 1 else 0) in
      (has_bit hit 1 ≡ mine) × (has_bit hit 2 ≡ his)
reject_bits true true = (refl, refl)
reject_bits true false = (refl, refl)
reject_bits false true = (refl, refl)
reject_bits false false = (refl, refl)

-- An entry with PERM_HIDE counts as one without rejections.
pub is_rejected_bits :
    (me ui : Userinfo) (mine his : Bool)
    → scan ui.uid me.reject ≡ some mine
    → scan me.uid ui.reject ≡ some his
    → (hit : ℕ) × (is_rejected me ui ≡ some hit)
      × (has_bit hit 1 ≡ (not (perm_hide ui) && mine))
      × (has_bit hit 2 ≡ (not (perm_hide ui) && his))
unfolding is_rejected
is_rejected_bits me ui mine his p q = elim (Bool-cases (perm_hide ui)) [
  | inl e ↦ (0, rw e refl, rw e refl, rw e refl)
  | inr e ↦
      let (b1, b2) = reject_bits mine his in
      (add_bit 2 his (if mine then 1 else 0), rw (e, p, q) refl, rw e b1, rw e b2)
]

-- Who may be seen, where `his_friend` and `his_reject` are whether I am in the other's lists.
abbrev pub sees : (level : ℕ) → (me ui : Userinfo) → (his_friend his_reject : Bool) → Bool
sees level me ui his_friend his_reject =
    not (is_nameless ui.userid)
    && (not (perm_hide ui) || perm_hide me)
    && (has_bit level perm_sysop
        || (if not (perm_hide ui) && his_reject
            then his_friend
            else not ui.invisible || has_bit level perm_seecloak))

table :
    (nameless hide my_hide sysop cloaked sees_cloak friend reject : Bool)
    → (if nameless
        then false
        else (if hide && not my_hide
            then false
            else (if sysop
                then true
                else (if cloaked && not sees_cloak && not ((not hide && reject) && friend)
                    then false
                    else not ((not hide && reject) && not friend)))))
      ≡ (not nameless
          && (not hide || my_hide)
          && (sysop || (if not hide && reject then friend else not cloaked || sees_cloak)))
table nameless hide my_hide sysop cloaked sees_cloak friend reject = ground arith

isvisible-sees :
    (level : ℕ) (me ui : Userinfo) (fri rej : ℕ) (his_friend his_reject : Bool)
    → has_bit fri 4 ≡ his_friend
    → has_bit rej 2 ≡ (not (perm_hide ui) && his_reject)
    → isvisible level me ui fri rej ≡ sees level me ui his_friend his_reject
unfolding isvisible
isvisible-sees level me ui fri rej his_friend his_reject p q =
    rw (p, q)
      (table (is_nameless ui.userid) (perm_hide ui) (perm_hide me) (has_bit level perm_sysop)
        ui.invisible (has_bit level perm_seecloak) his_friend his_reject)

-- Where the arrays are closed by zeros, is_friend and is_rejected end, and with their results
-- isvisible shows a user exactly if: the entry has a name; it has no PERM_HIDE, or I have it too; and
-- I am a sysop, or, where the user rejects me and has no PERM_HIDE, I am in the user's list of
-- friends, and where not, the user is not cloaked or I may see the cloaked.
pub isvisible_lem :
    (level : ℕ) (me ui : Userinfo)
    → IsEntry me
    → IsEntry ui
    → (fri rej : ℕ) × (his_friend his_reject : Bool) × (is_friend me ui ≡ some fri)
      × (is_rejected me ui ≡ some rej)
      × (scan me.uid ui.friend ≡ some his_friend)
      × (scan me.uid ui.reject ≡ some his_reject)
      × (isvisible level me ui fri rej ≡ sees level me ui his_friend his_reject)
isvisible_lem level me ui p q =
    let (mine, scan_mine) = p.friend ui.uid in
    let (his, scan_his) = q.friend me.uid in
    let (my_reject, scan_my) = p.reject ui.uid in
    let (his_reject, scan_hr) = q.reject me.uid in
    let (fri, run_f, f2, f1, f4) = is_friend_bits me ui mine his scan_mine scan_his in
    let (rej, run_r, r1, r2) = is_rejected_bits me ui my_reject his_reject scan_my scan_hr in
    (
      fri,
      rej,
      his,
      his_reject,
      run_f,
      run_r,
      scan_his,
      scan_hr,
      isvisible-sees level me ui fri rej his his_reject f4 r2,
    )

abbrev pub AreEntries : List Userinfo → Type 0
AreEntries [] = Unit {0}
AreEntries (e ∷ es) = IsEntry e × AreEntries es

-- How many entries are in use.
abbrev pub in_use : List Userinfo → ℕ
in_use [] = 0
in_use (e ∷ es) = (if e.pid == 0 then 0 else 1) + in_use es

counts-pid :
    (level uflag fri rej : ℕ) (me e : Userinfo)
    → e.pid ≡ 0
    → counts level uflag me e fri rej ≡ false
unfolding counts
counts-pid level uflag fri rej me e h = rw h refl

-- Where the arrays of all entries are closed by zeros, count_ulist ends, and it counts at most as
-- many entries as are in use.
pub count_ulist-in_use :
    (rtv level uflag : ℕ) (me : Userinfo) (es : List Userinfo)
    → IsEntry me
    → AreEntries es
    → (n : ℕ) × (count_ulist rtv level uflag me es ≡ some n) × (rtv ≤ n) × (n ≤ rtv + in_use es)
unfolding count_ulist
count_ulist-in_use rtv level uflag me [] p h = (rtv, refl, omega arith, omega arith)
count_ulist-in_use rtv level uflag me (e ∷ es) p (q, h) =
    let (fri, rej, hf, hr, run_f, run_r, sf, sr, seen) = isvisible_lem level me e p q in
    let c = counts level uflag me e fri rej in
    let (n, run, low, high) =
      count_ulist-in_use (if c then rtv + 1 else rtv) level uflag me es p h in
    (
      n,
      rw (count_ulist, run_f, run_r) run,
      ground arith,
      ground (arith, counts-pid level uflag fri rej me e),
    )
