-- ===== src/Input/Keys.antt =====
-- igetkey of mbbsd/io.c on the sequences of a terminal.
use openptt.Prelude.{
  ℕ, ◌+◌, ◌-◌, ◌<◌, ◌≤◌, ◌≡◌, ◌≢◌, refl, Bool, true, false, some, [], ◌∷◌, ◌++◌, arith, inl, inr,
  leb, ◌==◌, if◌then◌else◌, ◌⊎◌, length,
}
use openptt.Prelude.Bytes.{Bytes}
use openptt.Input.{
  Mode, plain, in_escape, cursor_key, paging_key, Key, simple, Step, ends, goes_on, key_step,
  key_loop, igetkey, key_esc, key_up, key_home,
}

-- A byte, an arrow (up, down, right and left), or a key of the other block (home to page down).
pub data Press : Type 0 where
  byte : ℕ → Press
  arrow : ℕ → Press
  paging : ℕ → Press

abbrev pub IsPress : Press → Type 0
IsPress (byte c) = c ≢ key_esc
IsPress (arrow k) = k < 4
IsPress (paging k) = k < 6

-- What a terminal sends, with its cursor keys in one mode or the other.
abbrev pub sent : (application : Bool) → Press → Bytes
sent application (byte c) = c ∷ []
sent application (arrow k) = 27 ∷ (if application then b'O' else b'[') ∷ (b'A' + k) ∷ []
sent application (paging k) = 27 ∷ b'[' ∷ (b'1' + k) ∷ 126 ∷ []

abbrev pub code : Press → ℕ
code (byte c) = c
code (arrow k) = key_up + k
code (paging k) = key_home + k

-- igetkey gives the code of the key that was pressed, and takes what the terminal has sent for it.
pub igetkey-sent :
    (application : Bool) (k : Press) (rest : Bytes)
    → IsPress k
    → igetkey (sent application k ++ rest) ≡ some (simple (code k), rest)
unfolding key_loop key_step
igetkey-sent application (byte c) rest h =
    let other : (c == key_esc) ≡ false = ground arith in rw (other, key_loop, key_step) refl
igetkey-sent true (arrow k) rest h =
    let low : leb b'A' (b'A' + k) ≡ true = ground arith in
    let high : leb (b'A' + k) b'D' ≡ true = ground arith in
    let back : b'A' + k - b'A' ≡ k = omega arith in
    rw (low, high, key_loop, key_step) (rw back refl)
igetkey-sent false (arrow k) rest h =
    let low : leb b'A' (b'A' + k) ≡ true = ground arith in
    let high : leb (b'A' + k) b'D' ≡ true = ground arith in
    let back : b'A' + k - b'A' ≡ k = omega arith in
    rw (low, high, key_loop, key_step) (rw back refl)
igetkey-sent application (paging k) rest h =
    let below : leb b'A' (b'1' + k) ≡ false = ground arith in
    let low : leb b'1' (b'1' + k) ≡ true = ground arith in
    let high : leb (b'1' + k) b'6' ≡ true = ground arith in
    let back : b'1' + k - b'1' ≡ k = omega arith in
    rw (below, low, high, key_loop, key_step) (rw back refl)

-- How many more bytes a mode may need.
abbrev rank : Mode → ℕ
rank plain = 4
rank in_escape = 3
rank cursor_key = 2
rank paging_key = 1

rank-positive : (mode : Mode) → 1 ≤ rank mode
rank-positive plain = omega arith
rank-positive in_escape = omega arith
rank-positive cursor_key = omega arith
rank-positive paging_key = omega arith

Step-cases : (s : Step) → ((k : Key) × (s ≡ ends k)) ⊎ ((m : Mode) × (s ≡ goes_on m))
Step-cases (ends k) = inl (k, refl)
Step-cases (goes_on m) = inr (m, refl)

key_step-rank :
    (mode : Mode) (last ch : ℕ) (m : Mode) → key_step mode last ch ≡ goes_on m → rank m < rank mode
unfolding key_step
key_step-rank plain last ch m e = ground arith
key_step-rank in_escape last ch m e = ground arith
key_step-rank cursor_key last ch m e = ground arith
key_step-rank paging_key last ch m e = ground arith

key_loop-ends :
    (mode : Mode) (last : ℕ) (bytes : Bytes)
    → rank mode ≤ length bytes
    → (k : Key) × (rest : Bytes) × (key_loop mode last bytes ≡ some (k, rest))
      × (length rest < length bytes)
      × (length bytes ≤ length rest + rank mode)
unfolding key_loop
key_loop-ends plain last [] h = absurd (omega arith)
key_loop-ends in_escape last [] h = absurd (omega arith)
key_loop-ends cursor_key last [] h = absurd (omega arith)
key_loop-ends paging_key last [] h = absurd (omega arith)
key_loop-ends mode last (ch ∷ bytes) h = elim (Step-cases (key_step mode last ch)) [
  | inl (k, e) ↦ (k, bytes, rw (key_loop, e) refl, omega arith, omega (arith, rank-positive mode))
  | inr (m, e) ↦
      let lower = key_step-rank mode last ch m e in
      let (k, rest, run, less, more) = key_loop-ends m ch bytes (omega arith) in
      (k, rest, rw (key_loop, e) run, omega arith, omega arith)
]

-- Four bytes are enough: igetkey returns, and has taken at least one of them and at most four.
pub igetkey-ends :
    (bytes : Bytes)
    → 4 ≤ length bytes
    → (k : Key) × (rest : Bytes) × (igetkey bytes ≡ some (k, rest))
      × (length rest < length bytes)
      × (length bytes ≤ length rest + 4)
igetkey-ends bytes h = key_loop-ends plain 0 bytes h
