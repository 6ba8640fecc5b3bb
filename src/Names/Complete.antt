-- ===== src/Names/Complete.antt =====
-- Completion in mbbsd/name.c: GetSubList, and UserSubArray after u_namearray of mbbsd/cache.c.
use openptt.Prelude.{
  ℕ, ◌+◌, ◌<◌, ◌≡◌, refl, ap, sym, ◌∙◌, Bool, true, List, [], ◌∷◌, ◌++◌, arith, leb, ◌==◌,
  if◌then◌else◌, ◌&&◌, ◌||◌, length, map,
}
use mathlib.Core.List.{map-append}
use openptt.Prelude.Bytes.{Bytes, toupper}
use openptt.Names.{chkstr, filter_by, get_sub_list, key_at, user_sub_array, names_tag, u_namearray}

filter_by-filter_by :
    (f g : Bytes → Bool) (ws : List Bytes)
    → filter_by f (filter_by g ws) ≡ filter_by (λ w. g w && f w) ws
filter_by-filter_by f g [] = refl
filter_by-filter_by f g (w ∷ ws) = ground (arith, filter_by-filter_by f g ws)

filter_by-same :
    (f g : Bytes → Bool) (ws : List Bytes)
    → ((w : Bytes) → f w ≡ g w)
    → filter_by f ws ≡ filter_by g ws
filter_by-same f g [] h = refl
filter_by-same f g (w ∷ ws) h = ground (arith, filter_by-same f g ws h, h w)

chkstr-append : (a b name : Bytes) → (chkstr a name && chkstr (a ++ b) name) ≡ chkstr (a ++ b) name
unfolding chkstr
chkstr-append [] b name = refl
chkstr-append (t ∷ a) b [] = refl
chkstr-append (t ∷ a) b (c ∷ name) = ground (arith, chkstr-append a b name)

-- Searching for a longer tag among the names that fit its beginning finds what searching for it
-- among all names finds.
pub get_sub_list-append :
    (tag more : Bytes) (ws : List Bytes)
    → get_sub_list (tag ++ more) (get_sub_list tag ws) ≡ get_sub_list (tag ++ more) ws
unfolding get_sub_list
get_sub_list-append tag more ws =
    filter_by-filter_by (chkstr (map toupper (tag ++ more))) (chkstr (map toupper tag)) ws
    ∙ filter_by-same _ _ ws (λ w.
      rw (map-append toupper tag more) (chkstr-append (map toupper tag) (map toupper more) w))

-- A byte is the key in either case exactly when it is the key in upper case. (0 is no key.)
key_case :
    (key c : ℕ)
    → ((c == toupper key)
        || (c == (
            if leb b'A' (toupper key) && leb (toupper key) b'Z'
            then toupper key + 32
            else toupper key)))
      ≡ (toupper key == toupper c)
unfolding toupper
key_case key c = ground arith

chkstr-snoc :
    (key : ℕ) (tag w : Bytes)
    → 0 < key
    → (chkstr (map toupper tag) w && key_at key (length tag) w)
      ≡ chkstr (map toupper (tag ++ key ∷ [])) w
unfolding chkstr key_at toupper
chkstr-snoc key [] [] pos = ground arith
chkstr-snoc key [] (c ∷ w) pos = ground (arith, key_case key c)
chkstr-snoc key (t ∷ tag) [] pos = refl
chkstr-snoc key (t ∷ tag) (c ∷ w) pos = ground (arith, chkstr-snoc key tag w pos)

names_tag-chkstr :
    (t : ℕ) (tag w : Bytes) → names_tag (map toupper (t ∷ tag)) w ≡ chkstr (map toupper (t ∷ tag)) w
unfolding names_tag toupper
names_tag-chkstr t tag [] = ground arith
names_tag-chkstr t tag (c ∷ w) = ground arith

filter_by-all : (ws : List Bytes) → filter_by (λ w. true) ws ≡ ws
filter_by-all [] = refl
filter_by-all (w ∷ ws) = ap (w ∷◌) (filter_by-all ws)

u_namearray-chkstr :
    (tag : Bytes) (ws : List Bytes) → u_namearray tag ws ≡ filter_by (chkstr (map toupper tag)) ws
unfolding u_namearray
u_namearray-chkstr [] ws =
    sym (filter_by-same _ (λ w. true) ws (λ w. unfold chkstr in refl) ∙ filter_by-all ws)
u_namearray-chkstr (t ∷ tag) ws = filter_by-same _ _ ws (names_tag-chkstr t tag)

-- One more typed byte: UserSubArray at the next position, over what u_namearray found for the
-- prefix, finds what u_namearray finds for the longer prefix, in either case of the letters.
pub user_sub_array-u_namearray :
    (tag : Bytes) (key : ℕ) (ws : List Bytes)
    → 0 < key
    → user_sub_array (u_namearray tag ws) key (length tag) ≡ u_namearray (tag ++ key ∷ []) ws
unfolding user_sub_array
user_sub_array-u_namearray tag key ws pos =
    rw (u_namearray-chkstr tag ws, u_namearray-chkstr (tag ++ key ∷ []) ws)
      (filter_by-filter_by (key_at key (length tag)) (chkstr (map toupper tag)) ws
        ∙ filter_by-same _ _ ws (λ w. chkstr-snoc key tag w pos))
