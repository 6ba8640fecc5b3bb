-- ===== src/Friends/Loading.antt =====
-- friend_load of mbbsd/friend.c on a sound user hash.
use openptt.Prelude.{
  ◌⊎◌, ℕ, zero, suc, ◌-◌, ◌<◌, Bool, true, false, some, none, List, [], ◌∷◌, ◌++◌, ◌≡◌, refl, ◌==◌,
  ◌||◌, length, arith, length-append, Option-cases, inl, inr, take, length-take, Option, replicate,
  length-replicate,
}
use openptt.Prelude.Bytes.{Bytes, str_case_eq}
use openptt.Prelude.Stdio.{fgets_all, strtok}
use openptt.Users.{Uhash}
use openptt.Users.Invariant.{IsSound}
use openptt.Users.Search.{IsUnknown, searchuser_lem}
use openptt.Friends.{
  max_friend, max_reject, bytes_of, number_of, load_loop, in_array, Loaded, friend_load,
}
use openptt.Talk.{scan}

-- The numbers that the lines give, without zeros.
unfoldable numbers : Uhash → List Bytes → List ℕ
numbers u [] = []
numbers u (l ∷ ls) = elim (number_of (strtok l) u) [
  | some (suc k) ↦ suc k ∷ numbers u ls
  | _ ↦ numbers u ls
]

number_of-ends :
    (t : Option (Bytes × Bytes)) (u : Uhash) → IsSound u → (n : ℕ) × (number_of t u ≡ some n)
number_of-ends none u s = (0, refl)
number_of-ends (some (buf, token)) u s = elim (searchuser_lem buf u s) [
  | inl (run, miss) ↦ (0, run)
  | inr (k, run, lt, same) ↦ (suc k, run)
]

-- No user has the name in a line, or the user of slot `k` has it, in upper or lower case. A line is cut
-- behind its first word, and what is left is the name, blanks before the word included.
abbrev pub Nobody : Uhash → Option (Bytes × Bytes) → Type 0
Nobody u none = Unit {0}
Nobody u (some (buf, token)) = IsUnknown buf u

abbrev pub Somebody : Uhash → Option (Bytes × Bytes) → ℕ → Type 0
Somebody u none k = ⊥
Somebody u (some (buf, token)) k = (k < u.number) × (str_case_eq (u.userid k) buf ≡ true)

-- The numbers are those of the users that the lines name, in order; the user of slot `k` has the number
-- `k + 1`, and a line that names nobody has none.
abbrev pub Named : Uhash → List Bytes → List ℕ → Type 0
Named u [] ns = ns ≡ []
Named u (l ∷ ls) ns =
    (Nobody u (strtok l) × Named u ls ns)
    ⊎ ((k : ℕ) × (ms : List ℕ) × (ns ≡ suc k ∷ ms) × Somebody u (strtok l) k × Named u ls ms)

number_of-Named :
    (t : Option (Bytes × Bytes)) (u : Uhash)
    → IsSound u
    → ((number_of t u ≡ some 0) × Nobody u t)
      ⊎ ((k : ℕ) × (number_of t u ≡ some (suc k)) × Somebody u t k)
number_of-Named none u s = inl (refl, tt)
number_of-Named (some (buf, token)) u s = elim (searchuser_lem buf u s) [
  | inl (run, miss) ↦ inl (run, miss)
  | inr (k, run, lt, same) ↦ inr (k, run, (lt, same))
]

numbers-Named : (u : Uhash) (ls : List Bytes) → IsSound u → Named u ls (numbers u ls)
unfolding numbers
numbers-Named u [] s = refl
numbers-Named u (l ∷ ls) s = elim (number_of-Named (strtok l) u s) [
  | inl (run, nobody) ↦ rw (numbers, run) (inl (nobody, numbers-Named u ls s))
  | inr (k, run, somebody) ↦
      rw (numbers, run) (inr (k, numbers u ls, refl, somebody, numbers-Named u ls s))
]

load_step :
    (u : Uhash) (room n : ℕ) (l : Bytes) (ls : List Bytes)
    → number_of (strtok l) u ≡ some n
    → load_loop u (suc room) ls ≡ some (take (suc room) (numbers u ls))
    → load_loop u room ls ≡ some (take room (numbers u ls))
    → load_loop u (suc room) (l ∷ ls) ≡ some (take (suc room) (numbers u (l ∷ ls)))
unfolding numbers load_loop
load_step u room zero l ls e same less = rw (load_loop, numbers, e) same
load_step u room (suc k) l ls e same less = rw (load_loop, numbers, e, less) refl

load_loop-numbers :
    (u : Uhash) (room : ℕ) (ls : List Bytes)
    → IsSound u
    → load_loop u room ls ≡ some (take room (numbers u ls))
unfolding load_loop numbers
load_loop-numbers u zero [] s = refl
load_loop-numbers u (suc room) [] s = refl
load_loop-numbers u zero (l ∷ ls) s = refl
load_loop-numbers u (suc room) (l ∷ ls) s =
    let (n, e) = number_of-ends (strtok l) u s in
    load_step u room n l ls e (load_loop-numbers u (suc room) ls s) (load_loop-numbers u room ls s)

-- The number is in the list.
abbrev pub elem : ℕ → List ℕ → Bool
elem n [] = false
elem n (m ∷ ms) = n == m || elem n ms

abbrev pub ArePositive : List ℕ → Type 0
ArePositive [] = Unit {0}
ArePositive (n ∷ ns) = (0 < n) × ArePositive ns

numbers-ArePositive : (u : Uhash) (ls : List Bytes) → ArePositive (numbers u ls)
unfolding numbers
numbers-ArePositive u [] = tt
numbers-ArePositive u (l ∷ ls) = elim (Option-cases (number_of (strtok l) u)) [
  | inl e ↦ rw (numbers, e) (numbers-ArePositive u ls)
  | inr (zero, e) ↦ rw (numbers, e) (numbers-ArePositive u ls)
  | inr (suc k, e) ↦ rw (numbers, e) (omega arith, numbers-ArePositive u ls)
]

take-ArePositive : (n : ℕ) (ns : List ℕ) → ArePositive ns → ArePositive (take n ns)
take-ArePositive zero ns h = tt
take-ArePositive (suc n) [] h = tt
take-ArePositive (suc n) (m ∷ ns) (p, h) = (p, take-ArePositive n ns h)

-- A search of an array with a zero behind the numbers ends there, and finds what is among them.
scan-append :
    (unum : ℕ) (ns cells : List ℕ)
    → ArePositive ns
    → scan unum (ns ++ (0 ∷ cells)) ≡ some (elem unum ns)
unfolding scan
scan-append unum [] cells h = refl
scan-append unum (n ∷ ns) cells (p, h) = ground (arith, scan-append unum ns cells h)

scan-in_array :
    (size unum : ℕ) (ns : List ℕ)
    → length ns < size
    → ArePositive ns
    → scan unum (in_array size ns) ≡ some (elem unum ns)
scan-in_array size unum ns lt h =
    let more : size - length ns ≡ suc (size - length ns - 1) = omega arith in
    rw more (scan-append unum ns _ h)

length-in_array : (size : ℕ) (ns : List ℕ) → length ns < size → length (in_array size ns) ≡ size
length-in_array size ns lt = omega (
  arith,
  length-append {0} ns (replicate (size - length ns) 0),
  length-replicate {A = ℕ} (size - length ns) 0,
)

short : (size : ℕ) (ns : List ℕ) → 0 < size → length (take (size - 1) ns) < size
short size ns h = omega (arith, length-take {A = ℕ} (size - 1) ns)

-- What belongs to a file of names, for an array of `size` cells.
abbrev loaded : (size : ℕ) → Uhash → Option Bytes → List ℕ
loaded size u file = take (size - 1) (numbers u (fgets_all 79 (bytes_of file)))

loaded-lt :
    (size : ℕ) (u : Uhash) (file : Option Bytes) → 0 < size → length (loaded size u file) < size
loaded-lt size u file h = short size (numbers u (fgets_all 79 (bytes_of file))) h

scan-loaded :
    (size unum : ℕ) (u : Uhash) (file : Option Bytes)
    → 0 < size
    → scan unum (in_array size (loaded size u file)) ≡ some (elem unum (loaded size u file))
scan-loaded size unum u file h =
    scan-in_array size unum (loaded size u file) (loaded-lt size u file h) (
      take-ArePositive (size - 1) (numbers u (fgets_all 79 (bytes_of file)))
        (numbers-ArePositive u (fgets_all 79 (bytes_of file))))

length-loaded :
    (size : ℕ) (u : Uhash) (file : Option Bytes)
    → 0 < size
    → length (in_array size (loaded size u file)) ≡ size
length-loaded size u file h = length-in_array size (loaded size u file) (loaded-lt size u file h)

-- On a sound user hash friend_load ends. A line of a file that is cut behind its first word, blanks
-- before the word included, names the user with that name, in upper or lower case. The first 255
-- friends and the first 31 rejected users that lines name are loaded. The arrays keep a zero at the
-- end, so that a search of them for any number ends inside, and it finds just what is loaded.
pub friend_load-scan :
    (overrides rejects : Option Bytes) (u : Uhash)
    → IsSound u
    → (r : Loaded) × (friends rejected : List ℕ) × (friend_load overrides rejects u ≡ some r)
      × Named u (fgets_all 79 (bytes_of overrides)) friends
      × Named u (fgets_all 79 (bytes_of rejects)) rejected
      × (r.friendcount ≡ length (take 255 friends))
      × (r.rejected_number ≡ length (take 31 rejected))
      × (length r.friend ≡ max_friend)
      × (length r.reject ≡ max_reject)
      × ((unum : ℕ)
          → (scan unum r.friend ≡ some (elem unum (take 255 friends)))
            × (scan unum r.reject ≡ some (elem unum (take 31 rejected))))
unfolding friend_load
friend_load-scan overrides rejects u s =
    let friends = loaded max_friend u overrides in
    let rejected = loaded max_reject u rejects in
    (
      record {
        friend = in_array max_friend friends;
        friendcount = length friends;
        reject = in_array max_reject rejected;
        rejected_number = length rejected;
      },
      numbers u (fgets_all 79 (bytes_of overrides)),
      numbers u (fgets_all 79 (bytes_of rejects)),
      rw
          (
            friend_load,
            load_loop-numbers u (max_friend - 1) (fgets_all 79 (bytes_of overrides)) s,
            load_loop-numbers u (max_reject - 1) (fgets_all 79 (bytes_of rejects)) s,
          )
          refl,
      numbers-Named u (fgets_all 79 (bytes_of overrides)) s,
      numbers-Named u (fgets_all 79 (bytes_of rejects)) s,
      refl,
      refl,
      length-loaded max_friend u overrides (omega arith),
      length-loaded max_reject u rejects (omega arith),
      λ unum. (
        scan-loaded max_friend unum u overrides (omega arith),
        scan-loaded max_reject unum u rejects (omega arith),
      ),
    )
