-- ===== src/Talk/Picking.antt =====
-- What pickup_user of mbbsd/talk.c lists, against count_ulist of mbbsd/cache.c.
use openptt.Prelude.{
  ℕ, ◌+◌, ◌≤◌, Bool, true, false, some, none, List, [], ◌∷◌, ◌≡◌, refl, ◌==◌, ◌||◌, not, length,
  arith, Bool-cases, inl, inr, sub_int, ◌∙◌, ap,
}
use openptt.Talk.{Userinfo, count_ulist, counts}
use openptt.Talk.Seeing.{IsEntry, AreEntries, isvisible_lem}
use openptt.Talk.Pickup.{Pickup, no_pickup, bit_count, count_in, pickup_loop, passes_by, is_idle}

-- No entry in use is idle for too long.
abbrev pub AreActive : (freshtime timeout : ℕ) → List Userinfo → Type 0
AreActive freshtime timeout [] = Unit {0}
AreActive freshtime timeout (e ∷ es) =
    ((e.pid == 0 || not (is_idle freshtime timeout e)) ≡ true) × AreActive freshtime timeout es

pick_few : (fri : ℕ) → bit_count fri 2 ≤ 1
pick_few fri = ground arith

-- The two tests of an entry are one.
passes_by-counts :
    (level uflag fri rej : ℕ) (me e : Userinfo)
    → counts level uflag me e fri rej ≡ not (e.pid == 0 || passes_by level uflag none me e fri rej)
unfolding counts passes_by
passes_by-counts level uflag fri rej me e = ground arith

-- Where the arrays of all entries are closed by zeros, no entry in use is idle for too long and no mood is
-- looked for, the list of pickup_user has as many users as count_ulist shows in the title, it counts
-- at most as many friends, and it leaves the table as it was.
pub pickup_loop-count_ulist :
    (freshtime timeout level uflag : ℕ) (is_gone : ℕ → Bool) (me : Userinfo) (es : List Userinfo)
    → IsEntry me
    → AreEntries es
    → AreActive freshtime timeout es
    → (p : Pickup) × (pickup_loop freshtime timeout level uflag is_gone none me es ≡ some (p, es))
      × ((rtv : ℕ) → count_ulist rtv level uflag me es ≡ some (rtv + length p.pklist))
      × (p.friends_number ≤ length p.pklist)
unfolding pickup_loop count_ulist
pickup_loop-count_ulist freshtime timeout level uflag is_gone me [] m h a =
    (no_pickup, refl, λ rtv. ground arith, omega arith)
pickup_loop-count_ulist freshtime timeout level uflag is_gone me (e ∷ es) m (q, h) (busy, a) =
    let (fri, rej, hf, hr, run_f, run_r, sf, sr, seen) = isvisible_lem level me e m q in
    let (p, run, count, few) =
      pickup_loop-count_ulist freshtime timeout level uflag is_gone me es m h a in
    let test : counts level uflag me e fri rej
        ≡ not (e.pid == 0 || passes_by level uflag none me e fri rej) =
      passes_by-counts level uflag fri rej me e in
    elim (Bool-cases (e.pid == 0)) [
      | inl unused ↦
          let no_count : counts level uflag me e fri rej ≡ false = ground arith in
          (
            p,
            rw (pickup_loop, run, unused) refl,
            λ rtv. rw (count_ulist, run_f, run_r) (rw no_count (count rtv)),
            few,
          )
      | inr used ↦ elim (Bool-cases (passes_by level uflag none me e fri rej)) [
        | inl passed ↦
            let no_count : counts level uflag me e fri rej ≡ false = ground arith in
            (
              p,
              rw (pickup_loop, run, used, run_r, run_f, passed) refl,
              λ rtv. rw (count_ulist, run_f, run_r) (rw no_count (count rtv)),
              few,
            )
        | inr listed ↦
            let counted : counts level uflag me e fri rej ≡ true = ground arith in
            let awake : is_idle freshtime timeout e ≡ false = ground arith in
            (
              record (count_in fri rej p) {
                pklist =
                    record { ui = e; idle = sub_int freshtime e.lastact; friend = fri } ∷ p.pklist;
              },
              rw (pickup_loop, run, used, run_r, run_f, listed) (rw awake refl),
              λ rtv.
                  rw (count_ulist, run_f, run_r)
                    (rw counted (count (rtv + 1) ∙ ap some (omega arith))),
              ground (arith, pick_few fri),
            )
      ]
    ]
