-- ===== src/Ranges/Posts.antt =====
-- Which posts delete_range of mbbsd/record.c leaves in a directory.
use openptt.Prelude.{
  ℕ, zero, suc, ◌+◌, ◌<◌, ◌≡◌, refl, ap, ◌∙◌, arith, Bool, true, false, Option, none, some, List,
  [], ◌∷◌, ◌++◌, inl, inr, if◌then◌else◌, length, Bool-cases,
}
use mathlib.Core.List.{append_assoc, append-nil}
use openptt.Prelude.Bytes.{Bytes, str_eq}
use openptt.Records.{Fs, Answers, succeeded, created, store, new_fn, old_fn, lock_fn}
use openptt.Records.Slices.{AllSize, flat, read_rec-append, read_rec-short}
use openptt.Records.Delete.{
  AllWell, files-store_self, files-store_ne, names_apart, fits, locked, locked_p, locked_new,
  swapped, swap_in-lem, swapped_p, swapped_old, swapped_new,
}
use openptt.Ranges.{
  filename, dir_of, header_size, stays, range_loop, range_copied, finish, delete_range,
}

-- The posts that stay, counted from `count`.
abbrev pub staying :
    (id1 id2 : ℕ) → Option Bytes → Fs → (dir : Bytes) → (count : ℕ) → List Bytes → List Bytes
staying id1 id2 title fs dir count [] = []
staying id1 id2 title fs dir count (r ∷ rs) =
    let rest = staying id1 id2 title fs dir (count + 1) rs in
    if stays id1 id2 title (fs.is_dir (dir ++ filename r)) count r then r ∷ rest else rest

-- No post's file is the directory file itself or its new file.
abbrev pub AllElsewhere : Bytes → List Bytes → Type 0
AllElsewhere p [] = Unit {0}
AllElsewhere p (r ∷ rs) =
    (str_eq (dir_of p ++ filename r) p ≡ false)
    × (str_eq (dir_of p ++ filename r) (new_fn p) ≡ false)
    × AllElsewhere p rs

staying-store :
    (id1 id2 : ℕ) (title : Option Bytes) (q : Bytes) (v : Option Bytes) (fs : Fs) (dir : Bytes)
    (count : ℕ) (rs : List Bytes)
    → staying id1 id2 title (store q v fs) dir count rs ≡ staying id1 id2 title fs dir count rs
unfolding store
staying-store id1 id2 title q v fs dir count [] = refl
staying-store id1 id2 title q v fs dir count (r ∷ rs) =
    rw (staying-store id1 id2 title q v fs dir (count + 1) rs) refl

range_loop-flat :
    (fuel id1 id2 : ℕ) (title : Option Bytes) (p : Bytes) (count : ℕ) (ok : ℕ → Bool)
    (rs : List Bytes) (tail out : Bytes) (fs : Fs)
    → ((n : ℕ) → ok n ≡ true)
    → AllSize header_size rs
    → length tail < header_size
    → length rs < fuel
    → AllElsewhere p rs
    → (fs' : Fs) × (range_loop fuel id1 id2 title (dir_of p) count ok (flat rs ++ tail) out fs
        ≡ range_copied (out ++ flat (staying id1 id2 title fs (dir_of p) count rs)) fs')
      × (fs'.files p ≡ fs.files p)
      × (fs'.files (new_fn p) ≡ fs.files (new_fn p))
unfolding range_loop
range_loop-flat zero id1 id2 title p count ok rs tail out fs w s t f el = elim f [ ]
range_loop-flat (suc fuel) id1 id2 title p count ok [] tail out fs w s t f el =
    (fs, rw (read_rec-short header_size tail t, range_loop) (rw append-nil refl), refl, refl)
range_loop-flat (suc fuel) id1 id2 title p count ok (r ∷ rs) tail out fs w s t f (e1, e2, el) =
    let path = dir_of p ++ filename r in
    let read = read_rec-append header_size r (flat rs ++ tail) s.0 in
    elim (Bool-cases (stays id1 id2 title (fs.is_dir path) count r)) [
      | inl stay ↦
          let (fs', run, same, new) =
            range_loop-flat fuel id1 id2 title p (count + 1) ok rs tail (out ++ r) fs w s.1 t
              (omega arith) el in
          (
            fs',
            rw (append_assoc r (flat rs) tail, read, range_loop)
                (rw (stay, w count, range_loop)
                  (run ∙ ap (λ b. range_copied b fs') (append_assoc out r _))),
            same,
            new,
          )
      | inr go ↦
          let (fs', run, same, new) =
            range_loop-flat fuel id1 id2 title p (count + 1) ok rs tail out (store path none fs) w
              s.1 t (omega arith) el in
          (
            fs',
            rw (append_assoc r (flat rs) tail, read, range_loop)
                (rw (go, range_loop)
                  (run
                    ∙ ap (λ ks. range_copied (out ++ flat ks) fs')
                        (staying-store id1 id2 title path none fs (dir_of p) (count + 1) rs))),
            same ∙ files-store_ne path p none fs e1,
            new ∙ files-store_ne path (new_fn p) none fs e2,
          )
    ]

-- Where every call succeeds, no new file is left over, and no post's file is the directory file or its
-- new file, delete_range ends with success. The directory then has exactly the posts that stay, in
-- their order, whole; the old bytes are in the old file, and there is no new file.
pub delete_range_lem :
    (a : Answers) (p : Bytes) (id1 id2 : ℕ) (title : Option Bytes) (fs : Fs) (rs : List Bytes)
    (tail : Bytes)
    → AllWell a
    → AllSize header_size rs
    → length tail < header_size
    → AllElsewhere p rs
    → fs.files p ≡ some (flat rs ++ tail)
    → fs.files (new_fn p) ≡ none
    → (fs' : Fs) × (delete_range a p id1 id2 title fs ≡ some (succeeded, fs'))
      × (fs'.files p ≡ some (flat (staying id1 id2 title fs (dir_of p) 1 rs)))
      × (fs'.files (old_fn p) ≡ some (flat rs ++ tail))
      × (fs'.files (new_fn p) ≡ none)
unfolding delete_range finish
delete_range_lem a p id1 id2 title fs rs tail well s t el e fresh =
    let old = flat rs ++ tail in
    let begun = store (new_fn p) (some []) (locked p fs) in
    let (fs', run, same, new) =
      range_loop-flat (suc (length old)) id1 id2 title p 1 a.writes rs tail [] begun well.writes s t
        (fits header_size rs tail s t) el in
    let posts = staying id1 id2 title begun (dir_of p) 1 rs in
    let kept : posts ≡ staying id1 id2 title fs (dir_of p) 1 rs =
      staying-store id1 id2 title (new_fn p) (some []) (locked p fs) (dir_of p) 1 rs
      ∙ staying-store id1 id2 title (lock_fn p) (some (created (lock_fn p) fs)) fs (dir_of p) 1
          rs in
    let there : fs'.files p ≡ some old =
      same
      ∙ files-store_ne (new_fn p) p (some []) (locked p fs) (names_apart p).2
      ∙ locked_p p fs
      ∙ e in
    let there_new : fs'.files (new_fn p) ≡ some [] =
      new ∙ files-store_self (new_fn p) (some []) (locked p fs) in
    let ready = store (new_fn p) (some (flat posts)) fs' in
    (
      swapped p old (flat posts) ready,
      rw (well.locks, locked_p p fs ∙ e, locked_new p fs ∙ fresh, well.opens, run, delete_range)
          (rw (there, there_new, finish) (ap some (swap_in-lem p old (flat posts) ready a well))),
      swapped_p p old (flat posts) ready ∙ ap (λ ks. some (flat ks)) kept,
      swapped_old p old (flat posts) ready,
      swapped_new p old (flat posts) ready,
    )
