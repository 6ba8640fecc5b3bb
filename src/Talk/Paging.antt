-- ===== src/Talk/Paging.antt =====
-- my_talk of mbbsd/talk.c: whether a page reaches the other user.
use openptt.Prelude.{
  ℕ, Bool, false, Option, some, none, ◌≡◌, refl, ◌==◌, ◌&&◌, ◌||◌, not, if◌then◌else◌, arith,
  Bool-cases, inl, inr, ap, get_or,
}
use openptt.Boards.{has_bit, perm_sysop}
use openptt.Talk.{Userinfo, scan, is_friend, perm_hide, is_rejected}
use openptt.Talk.Seeing.{IsEntry, is_friend_bits, is_rejected_bits}

-- What my_talk answers, up to the prompt.
pub data Answer : Type 0 where
  busy : Answer
  pager_closed : Answer
  pager_pulled : Answer
  friends_only : Answer
  left : Answer
  prompt : Answer

-- EDITING, TALK, CHATING, PAGE, MAILALL and MONITOR, or an answer or a message on its way.
abbrev pub is_busy : (mode first : ℕ) → Bool
is_busy mode first =
    mode == 38
    || mode == 26
    || mode == 18
    || mode == 24
    || mode == 39
    || mode == 23
    || (mode == 0 && (first == 1 || first == 3))

-- !x as an int.
abbrev pub int_not : ℕ → ℕ
int_not x = if x == 0 then 1 else 0

-- `fri` and `rej` are the results of is_friend and is_rejected; HRM is 2, HFM 4. In the source
-- `!is_friend(uin) & HFM` is `(!is_friend(uin)) & HFM`.
unfoldable pub answer_with : (level : ℕ) → (uin : Userinfo) → (fri rej : ℕ) → Answer
answer_with level uin fri rej =
    let sysop = has_bit level perm_sysop in
    let refused = has_bit rej 2 && not (has_bit fri 4) in
    if is_busy uin.mode (get_or uin.chatid 0 0)
    then busy
    else (if not sysop && (refused || (uin.pager == 0 && has_bit (int_not fri) 4))
        then pager_closed
        else (if not sysop && (refused || uin.pager == 2)
            then pager_pulled
            else (if not sysop && not (has_bit fri 4) && uin.pager == 4
                then friends_only
                else (if uin.pid == 0 then left else prompt))))

unfoldable pub my_talk : (level : ℕ) → (me uin : Userinfo) → Option Answer
unfolding is_friend is_rejected answer_with
my_talk level me uin = elim (is_friend me uin) [
  | none ↦ none
  | some fri ↦ elim (is_rejected me uin) [
    | none ↦ none
    | some rej ↦ some (answer_with level uin fri rej)
  ]
]

int_not-bit : (x : ℕ) → has_bit (int_not x) 4 ≡ false
int_not-bit x = elim (Bool-cases (x == 0)) [ inl e ↦ rw e refl | inr e ↦ rw e refl ]

-- The answer, where `friend` and `reject` are whether I am in the other's lists and count as such.
abbrev pub answer_for : (sysop friend reject : Bool) → Userinfo → Answer
answer_for sysop friend reject uin =
    if is_busy uin.mode (get_or uin.chatid 0 0)
    then busy
    else (if not sysop && reject && not friend
        then pager_closed
        else (if not sysop && uin.pager == 2
            then pager_pulled
            else (if not sysop && uin.pager == 4 && not friend
                then friends_only
                else (if uin.pid == 0 then left else prompt))))

answer_with-for :
    (level : ℕ) (uin : Userinfo) (fri rej : ℕ) (friend reject : Bool)
    → has_bit fri 4 ≡ friend
    → has_bit rej 2 ≡ reject
    → answer_with level uin fri rej ≡ answer_for (has_bit level perm_sysop) friend reject uin
unfolding answer_with
answer_with-for level uin fri rej friend reject p q =
    let no_bit : has_bit (int_not fri) 4 ≡ false = int_not-bit fri in
    rw (answer_with, no_bit) (rw (p, q) (ground arith))

-- Where the arrays of both are closed by zeros, a page gets the answer that the state of the other,
-- the lists and the pagers "pulled" (2) and "friends only" (4) call for. A pager that is off (0)
-- plays no part: whoever is not rejected gets through to it.
pub my_talk_lem :
    (level : ℕ) (me uin : Userinfo)
    → IsEntry me
    → IsEntry uin
    → (friend reject : Bool) × (scan me.uid uin.friend ≡ some friend)
      × (scan me.uid uin.reject ≡ some reject)
      × (my_talk level me uin
          ≡ some (answer_for (has_bit level perm_sysop) friend (not (perm_hide uin) && reject) uin))
unfolding my_talk answer_with
my_talk_lem level me uin p q =
    let (mine, scan_mine) = p.friend uin.uid in
    let (his, scan_his) = q.friend me.uid in
    let (my_reject, scan_my) = p.reject uin.uid in
    let (his_reject, scan_hr) = q.reject me.uid in
    let (fri, run_f, f2, f1, f4) = is_friend_bits me uin mine his scan_mine scan_his in
    let (rej, run_r, r1, r2) = is_rejected_bits me uin my_reject his_reject scan_my scan_hr in
    (
      his,
      his_reject,
      scan_his,
      scan_hr,
      rw (my_talk, run_f, run_r)
          (ap some
            (answer_with-for level uin fri rej his (not (perm_hide uin) && his_reject) f4 r2)),
    )
