-- ===== src/Prelude/Bytes.antt =====
-- C strings: a list of bytes without the closing zero. The comparisons of <string.h>, and the
-- character classes of <ctype.h> in the C locale.
use openptt.Prelude.Tests.{leb, ◌==◌, if◌then◌else◌}
use Prim.Native.Nat.{ℕ, zero, suc, ◌+◌, ◌-◌}
use mathlib.Core.Path.{◌≡◌, refl}
use mathlib.Core.Logic.{◌↔◌}
use mathlib.Core.Bool.{Bool, true, false, ◌&&◌}
use mathlib.Core.List.{List, [], ◌∷◌, map}
use native.Mathlib.Omega.{arith}
use Prim.Native.Char.{code}
use Prim.Native.String.{String}

abbrev pub Bytes : Type 0
Bytes = List ℕ

-- The bytes of an ASCII literal.
abbrev pub codes : String → Bytes
codes String.[] = []
codes (String.◌∷◌ c s) = code c ∷ codes s

-- !strcmp(s, t)
unfoldable pub str_eq : Bytes → Bytes → Bool
str_eq [] [] = true
str_eq [] (_ ∷ _) = false
str_eq (_ ∷ _) [] = false
str_eq (a ∷ s) (b ∷ t) = a == b && str_eq s t

pub str_eq_refl : (s : Bytes) → str_eq s s ≡ true
unfolding str_eq
str_eq_refl [] = refl
str_eq_refl (a ∷ s) = ground (arith, str_eq_refl s)

pub str_eq→eq : (s t : Bytes) → str_eq s t ≡ true → s ≡ t
unfolding str_eq
str_eq→eq [] [] h = refl
str_eq→eq [] (_ ∷ _) h = cc
str_eq→eq (_ ∷ _) [] h = cc
str_eq→eq (a ∷ s) (b ∷ t) h = ground (arith, str_eq→eq s t)

pub str_eq_iff : (s t : Bytes) → (str_eq s t ≡ true) ↔ (s ≡ t)
str_eq_iff s t = (str_eq→eq s t, λ e. rw e (str_eq_refl t))

-- toupper and tolower.
unfoldable pub toupper : ℕ → ℕ
toupper c = if leb b'a' c && leb c b'z' then c - 32 else c

unfoldable pub tolower : ℕ → ℕ
tolower c = if leb b'A' c && leb c b'Z' then c + 32 else c

-- !strcasecmp(s, t)
unfoldable pub str_case_eq : Bytes → Bytes → Bool
unfolding str_eq tolower
str_case_eq s t = str_eq (map tolower s) (map tolower t)

pub str_case_eq_iff : (s t : Bytes) → (str_case_eq s t ≡ true) ↔ (map tolower s ≡ map tolower t)
unfolding str_case_eq
str_case_eq_iff s t = str_eq_iff _ _

-- !strncasecmp(s, t, n): equal in the first n bytes, the closing zero included.
unfoldable pub strn_case_eq : ℕ → Bytes → Bytes → Bool
unfolding tolower
strn_case_eq zero s t = true
strn_case_eq (suc n) [] [] = true
strn_case_eq (suc n) [] (_ ∷ _) = false
strn_case_eq (suc n) (_ ∷ _) [] = false
strn_case_eq (suc n) (a ∷ s) (b ∷ t) = tolower a == tolower b && strn_case_eq n s t
