-- ===== src/Prelude/Stdio.antt =====
-- Text files as bytes: fgets and fprintf of <stdio.h>, and strtok and strncmp of <string.h>.
use Prim.Native.Nat.{ℕ, zero, suc, ◌-◌}
use mathlib.Core.Bool.{Bool, true, false, ◌&&◌, ◌||◌}
use mathlib.Core.Option.{Option, none, some}
use mathlib.Core.List.{List, [], ◌∷◌, ◌++◌}
use openptt.Prelude.Tests.{◌==◌, if◌then◌else◌}
use openptt.Prelude.Lists.{length, replicate}
use openptt.Prelude.Bytes.{Bytes}

-- fgets(buf, n + 1, fp): what is read, and the rest of the file.
unfoldable pub fgets : (n : ℕ) → Bytes → Bytes × Bytes
fgets zero s = ([], s)
fgets (suc n) [] = ([], [])
fgets (suc n) (c ∷ s) = let (l, r) = fgets n s in if c == 10 then (10 ∷ [], s) else (c ∷ l, r)

-- What `while(fgets(buf, n + 1, fp))` reads, one after the other.
unfoldable pub reads : (fuel n : ℕ) → Bytes → List Bytes
unfolding fgets
reads zero n s = []
reads (suc fuel) n [] = []
reads (suc fuel) n (c ∷ s) = let (l, r) = fgets n (c ∷ s) in l ∷ reads fuel n r

-- With a round for each byte.
abbrev pub fgets_all : (n : ℕ) → Bytes → List Bytes
fgets_all n s = reads (length s) n s

-- The separators " \t\n\r".
abbrev pub is_blank : ℕ → Bool
is_blank c = c == 32 || c == 9 || c == 10 || c == 13

-- The bytes up to the first separator.
unfoldable pub word : Bytes → Bytes
word [] = []
word (c ∷ s) = if is_blank c then [] else c ∷ word s

-- strtok(buf, " \t\n\r"): the buffer, which now ends behind the token, and the token.
unfoldable pub strtok : Bytes → Option (Bytes × Bytes)
unfolding word
strtok [] = none
strtok (c ∷ s) = elim (is_blank c) [
  | false ↦ some (c ∷ word s, c ∷ word s)
  | true ↦ elim (strtok s) [ none ↦ none | some (buf, token) ↦ some (c ∷ buf, token) ]
]

-- !strncmp(s, t, strlen(t))
unfoldable pub starts_with : (s t : Bytes) → Bool
starts_with s [] = true
starts_with [] (_ ∷ _) = false
starts_with (a ∷ s) (b ∷ t) = a == b && starts_with s t

-- "%-13s"
abbrev pub pad : (width : ℕ) → Bytes → Bytes
pad width s = s ++ replicate (width - length s) 32
