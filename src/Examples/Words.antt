-- ===== src/Examples/Words.antt =====
-- Names, titles and paths.
use openptt.Prelude.{
  ℕ, ◌+◌, ◌≡◌, refl, arith, some, [], ◌∷◌, ◌++◌, ◌||◌, not, if◌then◌else◌, length,
}
use openptt.Prelude.Bytes.{Bytes, codes, str_eq}
use openptt.Homes.{sethomepath, sethomefile}
use openptt.Names.{Names, toggle_name_list}
use openptt.Names.Toggle.{mem, IsValid, odd_in, toggle_name_list_lem}
use openptt.Text.{invalid_pname, is_ubm}
use openptt.Text.Moderators.{slashed, has_name, is_ubm_lem}
use openptt.Text.Paths.{ended, bad_part, any_bad, invalid_pname_lem}

abbrev ann : Bytes
ann = codes "ann"

abbrev bob : Bytes
bob = codes "Bob"

abbrev both : Names
both = record { words = ann ∷ bob ∷ []; current = some 1 }

both-IsValid : IsValid both
both-IsValid = record { tail = refl; once = unfold str_eq in (refl, (refl, tt)) }

toggle_name_list_lem_example :
    (n' : Names) × (r' : ℕ) × (toggle_name_list (bob ∷ ann ∷ bob ∷ []) (both, 2) ≡ some (n', r'))
    × IsValid n'
    × (r' + 2 ≡ 2 + length n'.words)
    × ((y : Bytes)
        → mem y n'.words
          ≡ (if odd_in y (bob ∷ ann ∷ bob ∷ []) then not (mem y both.words) else mem y both.words))
toggle_name_list_lem_example =
    toggle_name_list_lem (bob ∷ ann ∷ bob ∷ []) both 2 both-IsValid (omega arith)

is_ubm_lem_example :
    (is_ubm (ann ++ slashed (bob ∷ [])) (codes "BOB") ≡ has_name (codes "BOB") (ann ∷ bob ∷ []))
    × (is_ubm (b'[' ∷ (ann ++ slashed (bob ∷ []))) (codes "BOB")
        ≡ has_name (codes "BOB") (ann ∷ bob ∷ []))
is_ubm_lem_example =
    is_ubm_lem (codes "BOB") (codes "nn") b'a' (bob ∷ []) (refl, (refl, (refl, tt)))
      (refl, (refl, (refl, tt))) ((refl, (refl, (refl, tt))), tt) (omega arith) (omega arith) refl

invalid_pname_lem_example :
    (invalid_pname (ended (ann ∷ codes ".." ∷ [])) ≡ any_bad (ann ∷ codes ".." ∷ []))
    × (invalid_pname (ended (ann ∷ codes ".." ∷ []) ++ bob)
        ≡ (any_bad (ann ∷ codes ".." ∷ []) || bad_part bob))
invalid_pname_lem_example =
    invalid_pname_lem (ann ∷ codes ".." ∷ []) b'B' (codes "ob")
      ((refl, (refl, (refl, tt))), ((refl, (refl, tt)), tt)) (refl, (refl, (refl, tt)))

sethomefile_run : sethomefile ann (codes "plans") ≡ codes "home/a/ann/plans"
unfolding sethomefile
sethomefile_run = refl

sethomepath_run : sethomepath ann ≡ codes "home/a/ann"
unfolding sethomepath
sethomepath_run = refl
