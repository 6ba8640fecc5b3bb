-- ===== src/Examples/Ranges.antt =====
-- A directory of three posts.
use openptt.Prelude.{
  ℕ, ◌-◌, ◌≡◌, refl, arith, true, false, none, some, List, [], ◌∷◌, ◌++◌, if◌then◌else◌, length,
  replicate,
}
use openptt.Prelude.Bytes.{Bytes, codes, str_eq}
use openptt.Records.{Fs, Answers, succeeded, new_fn, old_fn}
use openptt.Records.Slices.{flat}
use openptt.Records.Delete.{AllWell}
use openptt.Ranges.{dir_of, filemode_at, stays, delete_range}
use openptt.Ranges.Posts.{staying, delete_range_lem}

abbrev post : Bytes → ℕ → Bytes
post name mode = name ++ replicate (filemode_at - length name) 0 ++ mode ∷ []

-- The second post is marked.
abbrev posts : List Bytes
posts = post (codes "M.1.A") 0 ∷ post (codes "M.2.A") 2 ∷ post (codes "M.3.A") 0 ∷ []

abbrev path : Bytes
path = codes "b/.DIR"

abbrev fs : Fs
fs = record { files = λ p. if str_eq path p then some (flat posts) else none; is_dir = λ p. false }

abbrev well : Answers
well = record {
  lock_opens = true;
  new_opens = true;
  writes = λ n. true;
  renames_old = true;
  renames_new = true;
}

well-AllWell : AllWell well
well-AllWell = record {
  locks = refl;
  opens = refl;
  writes = λ n. refl;
  renames_old = refl;
  renames_new = refl;
}

staying_run :
    staying 2 3 none fs (dir_of path) 1 posts ≡ post (codes "M.1.A") 0 ∷ post (codes "M.2.A") 2 ∷ []
unfolding stays
staying_run = refl

delete_range_lem_example :
    (fs' : Fs) × (delete_range well path 2 3 none fs ≡ some (succeeded, fs'))
    × (fs'.files path ≡ some (flat (staying 2 3 none fs (dir_of path) 1 posts)))
    × (fs'.files (old_fn path) ≡ some (flat posts ++ []))
    × (fs'.files (new_fn path) ≡ none)
delete_range_lem_example =
    delete_range_lem well path 2 3 none fs posts [] well-AllWell (refl, (refl, (refl, tt)))
      (omega arith) (unfold str_eq in ((refl, refl, (refl, refl, (refl, refl, tt)))))
      (unfold str_eq in refl) (unfold str_eq in refl)
