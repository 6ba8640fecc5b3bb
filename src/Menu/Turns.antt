-- ===== src/Menu/Turns.antt =====
-- The turns of domenu in mbbsd/menu.c keep the cursor on an item that the user may use.
use openptt.Prelude.{
  ℕ, suc, ◌+◌, ◌-◌, ◌≤◌, Bool, true, false, Option, some, List, [], ◌∷◌, ◌≡◌, refl, ◌==◌, ◌&&◌,
  ◌||◌, not, if◌then◌else◌, ltb, arith, Bool-cases, inl, inr, length,
}
use openptt.Menu.{
  Item, State, Calls, Turn, Err, is_allowed, shown, settle, by_key, upper, to_key, run_item,
  default, turn, key_end, key_pgup, key_pgdn, mmenu, mail, tmenu, xmenu,
}
use openptt.Menu.Cursor.{searches-end}
use openptt.Input.{key_up, key_down, key_left, key_right, key_home}

abbrev pub AreAllowed : (level : ℕ) → List Item → List ℕ → Type 0
AreAllowed level table [] = Unit {0}
AreAllowed level table (i ∷ is) = (is_allowed level table i ≡ true) × AreAllowed level table is

-- The cursor is on an item of the menu that the user may use, at its place on the screen, and the
-- user was allowed to use all items that were run.
pub record IsPlaced (level : ℕ) (table : List Item) (s : State) : Type 0 where
  pub inside : s.lastcmdptr ≤ length table - 1
  pub allowed : is_allowed level table s.lastcmdptr ≡ true
  pub place : s.pos + 1 ≡ shown (s.lastcmdptr + 1) (is_allowed level table)
  pub ran : AreAllowed level table s.ran

abbrev pub EndsPlaced : (level : ℕ) → List Item → Turn → Type 0
EndsPlaced level table Turn.return = Unit {0}
EndsPlaced level table (Turn.next s) = IsPlaced level table s

shown-pos : (i : ℕ) (ok : ℕ → Bool) → ok i ≡ true → shown (suc i) ok - 1 + 1 ≡ shown (suc i) ok
unfolding shown
shown-pos i ok h = rw h (omega arith)

add_one : (i : ℕ) → i + 1 ≡ suc i
add_one i = omega arith

-- Wherever it goes, the cursor is placed.
pub settle-IsPlaced :
    (level : ℕ) (table : List Item) (i : ℕ) (s : State)
    → IsPlaced level table s
    → IsPlaced level table (settle level table (length table - 1) i s)
unfolding settle
settle-IsPlaced level table i s p =
    elim (Bool-cases (ltb (length table - 1) i || not (is_allowed level table i))) [
      | inl e ↦ rw (settle, e) p
      | inr e ↦
          let fine : is_allowed level table i ≡ true = ground arith in
          rw (settle, e)
            (record {
              inside = ground arith;
              allowed = fine;
              place = rw (add_one i) (shown-pos i (is_allowed level table) fine);
              ran = p.ran;
            })
    ]

-- A change of what the cursor does not depend on.
redrawn :
    (level : ℕ) (table : List Item) (s : State) (b : Bool)
    → IsPlaced level table s
    → IsPlaced level table (record s { refscreen = b })
redrawn level table s b p = record {
  inside = p.inside;
  allowed = p.allowed;
  place = p.place;
  ran = p.ran;
}

module _ (level : ℕ) (table : List Item) where
  abbrev total : ℕ
  total = length table - 1

  after_item :
      (s : State) (stat cmd : ℕ) (b : Bool)
      → IsPlaced level table s
      → IsPlaced level table
          (record s { ran = s.lastcmdptr ∷ s.ran; currstat = stat; cmd0 = cmd; refscreen = b })
  after_item s stat cmd b p = record {
    inside = p.inside;
    allowed = p.allowed;
    place = p.place;
    ran = (p.allowed, p.ran);
  }

  run_item-EndsPlaced :
      (calls : Calls) (cmdmode : ℕ) (s : State)
      → IsPlaced level table s
      → EndsPlaced level table (run_item calls level cmdmode table total s)
  unfolding run_item
  run_item-EndsPlaced calls cmdmode s p = by_err calls.err
    where
      by_err :
          (err : Err)
          → EndsPlaced level table
              (run_item (record calls { err = err }) level cmdmode table total s)
      by_err Err.quit = tt
      by_err Err.easy = settle-IsPlaced level table _ _ (after_item s _ _ _ p)
      by_err Err.easy_next = settle-IsPlaced level table _ _ (after_item s _ _ _ p)
      by_err Err.minus_one = settle-IsPlaced level table _ _ (after_item s _ _ _ p)
      by_err Err.other = settle-IsPlaced level table _ _ (after_item s _ _ _ p)

  either :
      (b : Bool) (x y : Turn)
      → EndsPlaced level table x
      → EndsPlaced level table y
      → EndsPlaced level table (if b then x else y)
  either true x y p q = p
  either false x y p q = q

  default-EndsPlaced :
      (calls : Calls) (cmdmode cmd : ℕ) (s : State)
      → IsPlaced level table s
      → EndsPlaced level table (default calls level cmdmode table total cmd s)
  unfolding default
  default-EndsPlaced calls cmdmode cmd s p =
      either
        ((cmd == b's' || cmd == b'r')
          && (s.currstat == mmenu || s.currstat == tmenu || s.currstat == xmenu))
        (Turn.next (settle level table total s.lastcmdptr (record s { refscreen = true })))
        (if cmd == 10 || cmd == 13 || cmd == key_right
          then run_item calls level cmdmode table total s
          else to_key level table total cmd s)
        (settle-IsPlaced level table s.lastcmdptr (record s { refscreen = true })
          (redrawn level table s true p))
        (either (cmd == 10 || cmd == 13 || cmd == key_right)
          (run_item calls level cmdmode table total s) (to_key level table total cmd s)
          (run_item-EndsPlaced calls cmdmode s p)
          (settle-IsPlaced level table (by_key (upper cmd) 0 table) s p))

  -- The turn ends, with the cursor placed or the menu left.
  pub record IsEnded (o : Option Turn) : Type 0 where
    pub end : Turn
    pub run : o ≡ some end
    pub placed : EndsPlaced level table end

  ended : (t : Turn) → EndsPlaced level table t → IsEnded (some t)
  ended t p = record { end = t; run = refl; placed = p }

  -- Going to an item.
  settled :
      (i : ℕ) (s : State)
      → IsPlaced level table s
      → IsEnded (some (Turn.next (settle level table total i s)))
  settled i s p = ended _ (settle-IsPlaced level table i s p)

  left_ended :
      (calls : Calls) (cmdmode : ℕ) (s : State)
      → IsPlaced level table s
      → IsEnded (
          if cmdmode == mmenu
          then some (default calls level cmdmode table total b'G' s)
          else (if cmdmode == mail && calls.box
              then some (default calls level cmdmode table total b'R' s)
              else some Turn.return))
  left_ended calls cmdmode s p = elim (Bool-cases (cmdmode == mmenu)) [
    | inl e ↦ rw e (ended _ (default-EndsPlaced calls cmdmode b'G' s p))
    | inr e ↦ elim (Bool-cases (cmdmode == mail && calls.box)) [
      | inl f ↦ rw (e, f) (ended _ (default-EndsPlaced calls cmdmode b'R' s p))
      | inr f ↦ rw (e, f) (ended _ tt)
    ]
  ]

  full_redrawn :
      (b : Bool) (s : State)
      → IsPlaced level table s
      → IsPlaced level table (if b then record s { refscreen = true } else s)
  full_redrawn true s p = redrawn level table s true p
  full_redrawn false s p = p

  -- From a placed cursor every turn of domenu ends, whatever the key and the functions called: the
  -- menu is left, or the cursor is again on an item that the user may use, at its place on the screen,
  -- and no item was run that the user may not use.
  pub turn-IsEnded :
      (calls : Calls) (cmdmode cmd : ℕ) (s : State)
      → IsPlaced level table s
      → IsEnded (turn calls level cmdmode table cmd s)
  unfolding turn
  turn-IsEnded calls cmdmode cmd s p =
      let i = s.lastcmdptr in
      let (down, up) =
        searches-end total i (i + 1) i (is_allowed level table) p.inside p.inside p.allowed in
      let (home, same) =
        searches-end total i 0 i (is_allowed level table) p.inside p.inside p.allowed in
      elim (Bool-cases (cmd == 9 || cmd == 14)) [
        | inl a ↦ rw (turn, a) (settled i _ (redrawn level table s true p))
        | inr a ↦ elim (Bool-cases (cmd == 1)) [
          | inl b ↦ rw (turn, a, b) (settled i _ (full_redrawn calls.full s p))
          | inr b ↦ elim (Bool-cases (cmd == key_down)) [
            | inl c ↦ rw (turn, a, b, c, down.1) (settled down.0 s p)
            | inr c ↦ elim (Bool-cases (cmd == key_home || cmd == key_pgup)) [
              | inl d ↦ rw (turn, a, b, c, d, home.1) (settled home.0 s p)
              | inr d ↦ elim (Bool-cases (cmd == key_end || cmd == key_pgdn)) [
                | inl e ↦ rw (turn, a, b, c, d, e) (settled total s p)
                | inr e ↦ elim (Bool-cases (cmd == key_up)) [
                  | inl f ↦ rw (turn, a, b, c, d, e, f, up.1) (settled up.0 s p)
                  | inr f ↦ elim (Bool-cases (cmd == key_left || cmd == b'e' || cmd == b'E')) [
                    | inl g ↦ rw (turn, a, b, c, d, e, f, g) (left_ended calls cmdmode s p)
                    | inr g ↦
                        rw (turn, a, b, c, d, e, f, g)
                          (ended _ (default-EndsPlaced calls cmdmode cmd s p))
                  ]
                ]
              ]
            ]
          ]
        ]
      ]
