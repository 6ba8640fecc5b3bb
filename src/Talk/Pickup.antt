-- ===== src/Talk/Pickup.antt =====
-- mbbsd/talk.c: the list of users of pickup_user, its order and the search in it.
use openptt.Prelude.{
  ℕ, zero, suc, ◌+◌, ◌-◌, ◌*◌, Bool, true, false, Option, some, none, List, [], ◌∷◌, ◌==◌, ◌&&◌,
  ◌||◌, not, if◌then◌else◌, ltb, leb, ℤ, pos, sub_int, ◌-ℤ◌, ◌%◌,
}
use openptt.Prelude.Bytes.{Bytes, str_eq, tolower}
use openptt.Boards.{has_bit}
use openptt.Talk.{is_nameless, Userinfo, blank, friend_flag, is_friend, is_rejected, isvisible}

-- pickup_t
pub record Picked : Type 0 where
  pub ui : Userinfo
  pub idle : ℤ
  pub friend : ℕ

-- pklist and the counters of pickup_user.
pub record Pickup : Type 0 where
  pub pklist : List Picked
  pub friends_number : ℕ
  pub override_number : ℕ
  pub bfriends_number : ℕ
  pub rejected_number : ℕ

abbrev pub bit_count : (n bit : ℕ) → ℕ
bit_count n bit = if has_bit n bit then 1 else 0

-- Is the entry left out? `bmind` is the mood that is looked for, if any.
unfoldable pub passes_by :
    (level uflag : ℕ) → (bmind : Option ℕ) → (me e : Userinfo) → (isfri isrej : ℕ) → Bool
unfolding isvisible
passes_by level uflag bmind me e isfri isrej =
    not (isvisible level me e isfri isrej)
    || (has_bit uflag friend_flag && (isfri == 0 || (has_bit isrej 1 && not (has_bit isfri 2))))
    || (elim bmind as (λ _. Bool) [ none ↦ false | some m ↦ not (m == e.mind) ])

-- An entry is idle for longer than allowed, but not for five days.
abbrev pub is_idle : (freshtime timeout : ℕ) → Userinfo → Bool
is_idle freshtime timeout e =
    ltb (timeout + 10) (freshtime - e.lastact) && ltb (freshtime - e.lastact) (60 * 60 * 24 * 5)

abbrev pub no_pickup : Pickup
no_pickup = record {
  pklist = [];
  friends_number = 0;
  override_number = 0;
  bfriends_number = 0;
  rejected_number = 0;
}

-- The counters with one entry more.
abbrev pub count_in : (isfri isrej : ℕ) → Pickup → Pickup
count_in isfri isrej p = record p {
  friends_number = bit_count isfri 2 + p.friends_number;
  override_number = bit_count isfri 4 + p.override_number;
  bfriends_number = bit_count isfri 1 + p.bfriends_number;
  rejected_number = (if has_bit isrej 1 && not (has_bit isfri 2) then 1 else 0) + p.rejected_number;
}

-- What the body of the loop does with an entry that is not passed by, after the rest of the loop. An
-- idle one is counted, but not listed, and purged where its process is gone.
abbrev pub pick :
    (freshtime timeout : ℕ)
    → (is_gone : ℕ → Bool) → (e : Userinfo) → (isfri isrej : ℕ) → Pickup × List Userinfo
    → Pickup × List Userinfo
pick freshtime timeout is_gone e isfri isrej (p, es) =
    if is_idle freshtime timeout e
    then (count_in isfri isrej p, (if is_gone e.pid then blank else e) ∷ es)
    else (
      record (count_in isfri isrej p) {
        pklist = record { ui = e; idle = sub_int freshtime e.lastact; friend = isfri } ∷ p.pklist;
      },
      e ∷ es,
    )

-- The loop of pickup_user over the table, and the table that it leaves. `is_gone` is whether a signal
-- to the process finds none.
unfoldable pub pickup_loop :
    (freshtime timeout level uflag : ℕ)
    → (is_gone : ℕ → Bool) → (bmind : Option ℕ) → (me : Userinfo) → List Userinfo
    → Option (Pickup × List Userinfo)
unfolding is_friend is_rejected passes_by
pickup_loop freshtime timeout level uflag is_gone bmind me [] = some (no_pickup, [])
pickup_loop freshtime timeout level uflag is_gone bmind me (e ∷ es) =
    elim (pickup_loop freshtime timeout level uflag is_gone bmind me es) [
      | none ↦ none
      | some (p, rest) ↦ elim (e.pid == 0) [
        | true ↦ some (p, e ∷ rest)
        | false ↦ elim (is_rejected me e) [
          | none ↦ none
          | some isrej ↦ elim (is_friend me e) [
            | none ↦ none
            | some isfri ↦ some (
                if passes_by level uflag bmind me e isfri isrej
                then (p, e ∷ rest)
                else pick freshtime timeout is_gone e isfri isrej (p, rest))
          ]
        ]
      ]
    ]

-- strcasecmp: the difference of the first bytes that differ in lower case.
unfoldable pub strcasecmp : Bytes → Bytes → ℤ
unfolding tolower
strcasecmp [] [] = pos 0
strcasecmp [] (b ∷ t) = sub_int 0 (tolower b)
strcasecmp (a ∷ s) [] = pos (tolower a)
strcasecmp (a ∷ s) (b ∷ t) =
    if tolower a == tolower b then strcasecmp s t else sub_int (tolower a) (tolower b)

-- pickup_cmp for the order `way`.
unfoldable pub pickup_cmp : (way : ℕ) → (i j : Picked) → ℤ
unfolding strcasecmp
pickup_cmp way i j =
    if way == 0
    then (if j.friend == i.friend
        then strcasecmp i.ui.userid j.ui.userid
        else sub_int j.friend i.friend)
    else (if way == 1
        then strcasecmp i.ui.userid j.ui.userid
        else (if way == 2
            then sub_int i.ui.mode j.ui.mode
            else (if way == 3
                then i.idle -ℤ j.idle
                else (if way == 4 then strcasecmp i.ui.from j.ui.from else pos 0))))

-- The loop of search_pickup from place `n` on, with fuel.
unfoldable pub search_loop :
    (fuel n num actor : ℕ) → (name : Bytes) → (ids : ℕ → Bytes) → Option (Option ℕ)
search_loop zero n num actor name ids = none
search_loop (suc fuel) n num actor name ids =
    let rest = search_loop fuel (if leb actor (n + 1) then 0 else n + 1) num actor name ids in
    if n == num then some none else (if str_eq (ids n) name then some (some n) else rest)

-- search_pickup for the name given to namecomplete, in a list of `actor` users with the names `ids`,
-- from the place behind `num` on. The inner `none` is -1. A round for each user is enough.
unfoldable pub search_pickup :
    (num actor : ℕ) → (name : Bytes) → (ids : ℕ → Bytes) → Option (Option ℕ)
unfolding search_loop
search_pickup num actor name ids =
    if is_nameless name then some none else search_loop actor ((num + 1) % actor) num actor name ids
