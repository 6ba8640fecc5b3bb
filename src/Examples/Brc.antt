-- ===== src/Examples/Brc.antt =====
-- What a user has read.
use openptt.Prelude.{
  inl, ◌⊎◌, ◌<◌, take, ℕ, ◌≤◌, ◌≡◌, refl, true, false, some, List, [], ◌∷◌, ◌++◌, arith, length,
}
use openptt.Prelude.Bytes.{codes, str_eq}
use openptt.Brc.{
  brc_strlen, Brc, brc_getrecord, brc_putrecord, brc_initial, brc_addlist, brc_unread, add_time,
  later_loop, insert_time, post_time, atoi_digits, brc_unread_time, put_ints, fresh_part,
}
use openptt.Brc.Times.{add_time-before}
use openptt.Brc.Codec.{IsRecord}
use openptt.Brc.Saved.{saved, brc_getrecord-brc_putrecord}
use openptt.Brc.Items.{Item, encode, lookup, others}
use openptt.Brc.File.{brc_initial_lem}

abbrev list : List ℕ
list = 1100 ∷ 1050 ∷ []

test-IsRecord : IsRecord 1000 (codes "test") list
test-IsRecord = record {
  starts = refl;
  short = omega arith;
  plain = (refl, (refl, (refl, (refl, tt))));
  some_time = omega arith;
  few = omega arith;
  kept = (omega arith, omega arith, (omega arith, omega arith, tt));
  fresh = omega arith;
}

-- The last time has expired.
abbrev ageing : List ℕ
ageing = 1100 ∷ 990 ∷ 1050 ∷ 900 ∷ []

brc_getrecord-brc_putrecord_example :
    ((saved 1000 ageing ≡ []) × (brc_putrecord 1000 (codes "test") ageing ≡ []))
    ⊎ ((0 < length (saved 1000 ageing))
        × (brc_getrecord (brc_putrecord 1000 (codes "test") ageing ++ 7 ∷ [])
            ≡ (take brc_strlen (codes "test"), saved 1000 ageing, 7 ∷ [])))
brc_getrecord-brc_putrecord_example =
    brc_getrecord-brc_putrecord 1000 (codes "test") ageing (7 ∷ [])
      (refl, (refl, (refl, (refl, tt))))
      (omega arith, (omega arith, (omega arith, (omega arith, tt))))

saved_run : saved 1000 ageing ≡ 1100 ∷ 990 ∷ 1050 ∷ []
saved_run = refl

sysop-IsRecord : IsRecord 1000 (codes "SYSOP") (1200 ∷ [])
sysop-IsRecord = record {
  starts = refl;
  short = omega arith;
  plain = (refl, (refl, (refl, (refl, (refl, tt)))));
  some_time = omega arith;
  few = omega arith;
  kept = (omega arith, omega arith, tt);
  fresh = omega arith;
}

-- The user reads "test"; the file has an old record of it and one of "SYSOP".
abbrev items : List Item
items = (codes "SYSOP", 1200 ∷ []) ∷ (codes "test", list) ∷ []

abbrev brc : Brc
brc = record {
  expire_time = 1000;
  changed = true;
  buf = [];
  first = 0;
  name = codes "test";
  list = list;
  currboard = codes "test";
  userlevel = 1;
  file = some (encode 1000 items);
}

length-items : length (encode 1000 items) ≤ 24240
unfolding brc_putrecord fresh_part put_ints
length-items = omega arith

found : lookup (codes "SYSOP") items ≡ some (1200 ∷ [])
unfolding str_eq
found = refl

different : str_eq (codes "test") (codes "SYSOP") ≡ false
unfolding str_eq
different = refl

brc_initial_lem_example :
    ((brc_initial (codes "SYSOP") brc).0 ≡ 1)
    × ((brc_initial (codes "SYSOP") brc).1.list ≡ 1200 ∷ [])
    × ((brc_initial (codes "SYSOP") brc).1.file
        ≡ some (encode 1000 ((codes "test", list) ∷ others (codes "test") items)))
brc_initial_lem_example =
    brc_initial_lem (codes "SYSOP") brc items (1200 ∷ []) (sysop-IsRecord, (test-IsRecord, tt)) refl
      length-items (inl refl) (λ save. (test-IsRecord, refl)) different found

add_time-before_example :
    (later_loop 1040 (1100 ∷ 1050 ∷ []) ≡ false)
    × (later_loop 1040 (add_time 1030 (1100 ∷ 1050 ∷ [])).1 ≡ true)
add_time-before_example =
    add_time-before 2000 1030 1100 1050 [] 1040 (omega arith, (omega arith, tt)) (omega arith)
      (omega arith) (omega arith)

-- Reading a post takes it off the unread ones.
unread-after : brc_unread (codes "M.1070.A") (brc_addlist (codes "M.1070.A") brc) ≡ false
unfolding brc_unread brc_addlist brc_unread_time add_time insert_time later_loop post_time
    atoi_digits
unread-after = refl
