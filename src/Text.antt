-- ===== src/Text.antt =====
-- mbbsd/stuff.c: the functions on strings, with title_body of mbbsd/record.c.
pub mod Moderators
pub mod Paths
use openptt.Prelude.{
  ℕ, zero, suc, ◌+◌, ◌-◌, Bool, true, false, Option, none, some, List, [], ◌∷◌, ◌++◌, ltb, leb,
  ◌==◌, if◌then◌else◌, ◌&&◌, ◌||◌, not, length, take, drop, map, get_or,
}
use openptt.Prelude.Bytes.{Bytes, codes, tolower, strn_case_eq}

-- subject and title_body, with str_reply = "Re: ".
unfoldable pub subject : Bytes → Bytes
unfolding strn_case_eq
subject title =
    if strn_case_eq 3 title (codes "Re: ")
    then (elim (drop 3 title) [ [] ↦ [] | c ∷ rest ↦ if c == b' ' then rest else c ∷ rest ])
    else title

-- The loop of trim, with `p` behind the first `n` bytes.
unfoldable pub trim_loop : ℕ → Bytes → Bytes
trim_loop zero s = []
trim_loop (suc n) s = elim (get_or s n 0 == b' ') [ true ↦ trim_loop n s | false ↦ take (suc n) s ]

pub trim : Bytes → Bytes
unfolding trim_loop
trim s = trim_loop (length s) s

-- not_alnum
abbrev pub not_alnum : ℕ → Bool
not_alnum c = ltb c b'0' || (ltb b'9' c && ltb c b'A') || (ltb b'Z' c && ltb c b'a') || ltb b'z' c

-- Up to the next '/', and from it on.
unfoldable pub to_slash : Bytes → Bytes × Bytes
to_slash [] = ([], [])
to_slash (c ∷ s) = let (a, b) = to_slash s in if c == b'/' then ([], c ∷ s) else (c ∷ a, b)

-- Only dots; so is the empty string.
abbrev pub all_dots : Bytes → Bool
all_dots [] = true
all_dots (c ∷ s) = c == b'.' && all_dots s

abbrev pub one_of : Bytes → ℕ → Bool
one_of [] c = false
one_of (d ∷ ds) c = d == c || one_of ds c

abbrev pub has_bad : Bytes → Bool
has_bad [] = false
has_bad (c ∷ s) = (not_alnum c && not (one_of (codes "@[]-._") c)) || has_bad s

-- The loop of invalid_pname. Each round passes a '/' at least.
unfoldable pub pname_loop : ℕ → Bytes → Bool
unfolding to_slash
pname_loop zero s = true
pname_loop (suc fuel) [] = false
pname_loop (suc fuel) (c ∷ s) =
    let (part, rest) = to_slash (c ∷ s) in
    let more = elim rest as (λ _. Bool) [ [] ↦ false | _ ∷ r ↦ pname_loop fuel r ] in
    if all_dots part then true else (if has_bad part then true else more)

pub invalid_pname : Bytes → Bool
unfolding pname_loop
invalid_pname s = pname_loop (suc (length s)) s

abbrev pub starts_with : Bytes → Bytes → Bool
starts_with [] s = true
starts_with (p ∷ ps) [] = false
starts_with (p ∷ ps) (c ∷ s) = p == c && starts_with ps s

-- strstr(s, pat) != NULL
unfoldable pub strstr : Bytes → Bytes → Bool
strstr pat [] = starts_with pat []
strstr pat (c ∷ s) = starts_with pat (c ∷ s) || strstr pat s

abbrev pub invalid_idents : List Bytes
invalid_idents =
    codes "unknown@"
    ∷ codes "root@"
    ∷ codes "gopher@"
    ∷ codes "bbs@"
    ∷ codes "@bbs"
    ∷ codes "guest@"
    ∷ codes "@ppp"
    ∷ codes "@slip"
    ∷ []

abbrev pub any_in : List Bytes → Bytes → Bool
any_in [] s = false
any_in (p ∷ ps) s = strstr p s || any_in ps s

-- str_lower
abbrev pub str_lower : Bytes → Bytes
str_lower s = map tolower s

pub valid_ident : Bytes → Bool
unfolding strstr tolower
valid_ident ident = not (any_in invalid_idents (str_lower ident))

-- What follows the next '/', if there is one.
unfoldable pub after_slash : Bytes → Option Bytes
after_slash [] = none
after_slash (c ∷ s) = if c == b'/' then some s else after_slash s

-- The first byte, or the closing zero, ends a name in is_uBM.
abbrev pub ends_name : Bytes → Bool
ends_name [] = true
ends_name (c ∷ s) = c == b'/' || c == b']' || c == b' '

-- The loop of is_uBM. Each round but the last passes a '/'.
unfoldable pub bm_loop : ℕ → Bytes → Bytes → Bool
unfolding strn_case_eq after_slash
bm_loop zero list id = false
bm_loop (suc fuel) list id =
    let matched = strn_case_eq (length id) list id in
    let list' = if matched then drop (length id) list else list in
    let more = elim (after_slash list') as (λ _. Bool) [
      | none ↦ false
      | some r ↦ bm_loop fuel r id
    ] in
    if matched && ends_name list' then true else more

-- list[0] > ' ' for a signed char.
abbrev pub is_printed : Bytes → Bool
is_printed [] = false
is_printed (c ∷ s) = ltb b' ' c && ltb c 128

abbrev pub unbracket : Bytes → Bytes
unbracket [] = []
unbracket (c ∷ s) = if c == b'[' then s else c ∷ s

-- is_uBM behind the opening bracket.
unfoldable pub bm_from : Bytes → Bytes → Bool
unfolding bm_loop
bm_from l id = if is_printed l then bm_loop (suc (length l)) l id else false

unfoldable pub is_ubm : Bytes → Bytes → Bool
is_ubm list id = bm_from (unbracket list) id
