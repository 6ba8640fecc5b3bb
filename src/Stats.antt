-- ===== src/Stats.antt =====
-- util/poststat.c: how many posts a title has had on a board, and the titles with the most.
pub mod Counting
pub mod Placing
pub mod Top
use openptt.Prelude.{
  ℕ, zero, suc, ◌+◌, ◌-◌, ◌%◌, Bool, true, false, Option, none, some, List, [], ◌∷◌, ◌==◌, ◌&&◌,
  if◌then◌else◌, ltb, leb,
}
use openptt.Prelude.Bytes.{Bytes, str_eq}
use openptt.Users.{update}

-- HASHSIZE and TOPCOUNT
abbrev pub hashsize : ℕ
hashsize = 1024

abbrev pub topcount : ℕ
topcount = 200

-- struct posttop, and struct postrec without its link.
pub record Post : Type 0 where
  pub author : Bytes
  pub board : Bytes
  pub title : Bytes
  pub date : ℕ
  pub number : ℕ

-- A record of zeros.
abbrev pub no_post : Post
no_post = record { author = []; board = []; title = []; date = 0; number = 0 }

-- The loop of hash over at most `left` bytes; a char is signed.
unfoldable pub hash_loop : (left value : ℕ) → Bytes → ℕ
hash_loop zero value key = value
hash_loop (suc left) value [] = value
hash_loop (suc left) value (c ∷ key) =
    hash_loop left (value + (if ltb c 128 then c else 256 - c)) key

unfoldable pub hash : Bytes → ℕ
unfolding hash_loop
hash key = hash_loop 80 0 key % hashsize

abbrev pub is_same : Post → Post → Bool
is_same p t = str_eq p.title t.title && str_eq p.board t.board

-- search in the chain of a bucket.
unfoldable pub bump : Post → List Post → List Post
bump t [] = t ∷ []
bump t (p ∷ chain) =
    if is_same p t
    then record p {
      number = p.number + t.number;
      date = if ltb p.date t.date then t.date else p.date;
    }
      ∷ chain
    else p ∷ bump t chain

abbrev pub Buckets : Type 0
Buckets = ℕ → List Post

unfoldable pub search : Post → Buckets → Buckets
unfolding hash bump
search t bucket = update bucket (hash t.title) (bump t (bucket (hash t.title)))

-- `while(fread(top, ...)) search(top)`, and load_stat for the records from the last on.
unfoldable pub search_all : List Post → Buckets → Buckets
unfolding search
search_all [] bucket = bucket
search_all (t ∷ ts) bucket = search_all ts (search t bucket)

-- The place in sort from `i` on where the number is smaller, within `rounds` places.
unfoldable pub find : (rounds i number : ℕ) → (ℕ → Post) → Option ℕ
find zero i number top = none
find (suc rounds) i number top =
    let rest = find rounds (i + 1) number top in if ltb (top i).number number then some i else rest

-- `for(j = i + rounds - 1; j >= i; j--) top[j + 1] = top[j]`
unfoldable pub shift : (rounds i : ℕ) → (ℕ → Post) → ℕ → Post
shift zero i top = top
shift (suc rounds) i top = shift rounds i (update top (i + rounds + 1) (top (i + rounds)))

-- sort: the new count and the new table.
unfoldable pub sort : Post → (count : ℕ) → (ℕ → Post) → ℕ × (ℕ → Post)
unfolding find shift
sort pp count top = elim (find (count + 1) 0 pp.number top) [
  | none ↦ (count, top)
  | some i ↦
      let count' = (if ltb count (topcount - 1) then count + 1 else count) in
      (count', update (shift (count' - i) i top) i pp)
]

-- The loop of poststat over the records of all buckets.
unfoldable pub sort_all : List Post → (count : ℕ) → (ℕ → Post) → ℕ × (ℕ → Post)
unfolding sort
sort_all [] count top = (count, top)
sort_all (pp ∷ pps) count top = let (count', top') = sort pp count top in sort_all pps count' top'
