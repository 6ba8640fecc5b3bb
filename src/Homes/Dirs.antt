-- ===== src/Homes/Dirs.antt =====
-- setdirpath of mbbsd/stuff.c, from a directory file to the files beside it.
use openptt.Prelude.{◌≡◌, refl, ap, ◌∙◌, Bool, true, false, [], ◌∷◌, ◌++◌, ◌==◌, if◌then◌else◌}
use mathlib.Core.List.{append_assoc}
use openptt.Prelude.Bytes.{Bytes, codes}
use openptt.Ranges.{dir_of}
use openptt.Text.Paths.{NoSlash}
use openptt.Homes.{str_dotdir, setbfile, setbdir, setdirpath}

dir_of-NoSlash : (f : Bytes) → NoSlash f → dir_of f ≡ []
dir_of-NoSlash [] h = refl
dir_of-NoSlash (c ∷ f) h = rw (dir_of-NoSlash f h.1, h.0) refl

-- Everything before the last slash, and it, is the directory.
dir_of-append : (a f : Bytes) → NoSlash f → dir_of (a ++ b'/' ∷ f) ≡ a ++ b'/' ∷ []
dir_of-append [] f h = rw (dir_of-NoSlash f h) refl
dir_of-append (c ∷ a) f h = rw (dir_of-append a f h) (before a)
  where
    before :
        (a : Bytes)
        → (elim (a ++ b'/' ∷ []) as (λ _. Bytes) [
          | [] ↦ if c == b'/' then c ∷ [] else []
          | d ∷ ds ↦ c ∷ d ∷ ds
        ])
          ≡ c ∷ a ++ b'/' ∷ []
    before [] = refl
    before (d ∷ a) = refl

-- From the path of any file of a board, with no slash in the file's name, setdirpath gives the path that
-- setbfile gives; so it does from that of the board's directory file.
pub setdirpath-setbfile :
    (boardname f g fn_mandex : Bytes) (etc digest : Bool)
    → NoSlash f
    → NoSlash fn_mandex
    → (setdirpath (setbfile boardname f) g ≡ setbfile boardname g)
      × (setdirpath (setbdir etc digest fn_mandex boardname) g ≡ setbfile boardname g)
unfolding setdirpath setbfile setbdir
setdirpath-setbfile boardname f g fn_mandex etc digest h hm = (beside f h, by_bits etc digest)
  where
    beside : (f : Bytes) → NoSlash f → setdirpath (setbfile boardname f) g ≡ setbfile boardname g
    beside f h =
        let path : setbfile boardname f ≡ (codes "boards/" ++ boardname) ++ b'/' ∷ f =
          append_assoc (codes "boards/" ++ boardname) (codes "/") f in
        ap (λ (p : Bytes). dir_of p ++ g) path
        ∙ ap (◌++ g) (dir_of-append (codes "boards/" ++ boardname) f h)

    by_bits :
        (etc digest : Bool)
        → setdirpath (setbdir etc digest fn_mandex boardname) g ≡ setbfile boardname g
    by_bits true digest = beside (codes ".ETC") (refl, (refl, (refl, (refl, tt))))
    by_bits false true = beside fn_mandex hm
    by_bits false false = beside str_dotdir (refl, (refl, (refl, (refl, tt))))
