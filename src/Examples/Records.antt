-- ===== src/Examples/Records.antt =====
-- A file of records of two bytes.
use openptt.Prelude.{
  ◌≡◌, ◌⊎◌, refl, arith, Bool, true, false, none, some, List, [], ◌∷◌, ◌++◌, if◌then◌else◌,
}
use openptt.Prelude.Bytes.{Bytes, codes, str_eq}
use openptt.Records.{
  Fs, Answers, succeeded, failed, new_fn, old_fn, store, copy_others, swap_in, delete_record,
  delete_in, search_loop, search_rec,
}
use openptt.Records.Slices.{flat}
use openptt.Records.Delete.{AllWell, delete_record_lem, delete_record-failed}
use openptt.Records.Shift.{delete_in-scan}

abbrev dir : Bytes
dir = codes "DIR"

abbrev recs : List Bytes
recs = codes "aa" ∷ codes "bb" ∷ codes "cc" ∷ []

-- Three records, and nothing else.
abbrev fs : Fs
fs = record { files = λ p. if str_eq dir p then some (flat recs) else none; is_dir = λ p. false }

-- The same with a byte that is no record.
abbrev cut : Fs
cut = record {
  files = λ p. if str_eq dir p then some (flat recs ++ codes "x") else none;
  is_dir = λ p. false;
}

abbrev well : Answers
well = record {
  lock_opens = true;
  new_opens = true;
  writes = λ n. true;
  renames_old = true;
  renames_new = true;
}

-- The second rename fails.
abbrev stuck : Answers
stuck = record well { renames_new = false }

well-AllWell : AllWell well
well-AllWell = record {
  locks = refl;
  opens = refl;
  writes = λ n. refl;
  renames_old = refl;
  renames_new = refl;
}

abbrev is_b : Bytes → Bool
is_b r = str_eq r (codes "bb")

search_rec_run : search_rec dir 2 is_b fs ≡ some 2
unfolding search_rec search_loop str_eq
search_rec_run = refl

delete_record_lem_example :
    (fs' : Fs) × (delete_record well dir 2 2 cut ≡ some (succeeded, fs'))
    × (fs'.files dir ≡ some (flat (codes "aa" ∷ codes "cc" ∷ [])))
    × (fs'.files (old_fn dir) ≡ some (flat recs ++ codes "x"))
    × (fs'.files (new_fn dir) ≡ none)
delete_record_lem_example =
    delete_record_lem well dir 2 2 cut recs (codes "x") well-AllWell (refl, (refl, (refl, tt)))
      (omega arith) (unfold str_eq in refl) (unfold str_eq in refl)

-- The state after the second rename has failed.
stuck_run : (fs' : Fs) × (delete_record stuck dir 2 2 fs ≡ some (failed, fs'))
unfolding delete_record copy_others swap_in store str_eq
stuck_run = (_, refl)

delete_record-failed_example :
    (stuck_run.0.files dir ≡ some (flat recs)) ⊎ (stuck_run.0.files (old_fn dir) ≡ some (flat recs))
delete_record-failed_example =
    delete_record-failed stuck dir 2 2 fs stuck_run.0 (flat recs) (unfold str_eq in refl)
      stuck_run.1

-- The search for "bb" finds it as the second record, and "cc" behind it goes.
delete_in-scan_example :
    delete_in (λ k. true) 2 1 is_b (flat recs ++ codes "x")
    ≡ some (flat (codes "aa" ∷ codes "bb" ∷ []))
delete_in-scan_example =
    delete_in-scan (λ k. true) (λ k. refl) 2 1 is_b (codes "aa" ∷ []) (codes "bb") (codes "cc" ∷ [])
      (codes "x") (refl, (refl, (refl, tt))) (omega arith) (unfold str_eq in refl)
      (unfold str_eq in (refl, tt)) (unfold str_eq in refl)
