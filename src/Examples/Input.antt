-- ===== src/Examples/Input.antt =====
-- Keys and the prompt.
use openptt.Prelude.{
  ℕ, zero, suc, ◌+◌, ◌<◌, ◌≤◌, ◌≡◌, refl, false, none, some, [], ◌∷◌, ◌++◌, arith, length, get_or,
  replicate, map, ◌==◌,
}
use openptt.Prelude.Bytes.{Bytes, codes}
use openptt.Ranges.{cstr}
use openptt.Input.{
  Key, simple, igetkey, key_left, Prompt, edit_key, remember, left, insert, oldgetdata, noecho,
  quiet_loop,
}
use openptt.Input.Keys.{paging, sent, igetkey-sent, igetkey-ends}
use openptt.Input.Line.{IsPrompt, Same, view}
use openptt.Input.Editing.{text_key, edit_key-text_key}

igetkey-sent_example : igetkey (sent false (paging 4) ++ codes "q") ≡ some (simple 517, codes "q")
igetkey-sent_example = igetkey-sent false (paging 4) (codes "q") (omega arith)

igetkey-ends_example :
    (k : Key) × (rest : Bytes) × (igetkey (27 ∷ codes "[5~q") ≡ some (k, rest))
    × (length rest < 5)
    × (5 ≤ length rest + 4)
igetkey-ends_example = igetkey-ends (27 ∷ codes "[5~q") (omega arith)

abbrev prompt : Prompt
prompt = record {
  buf = codes "abc" ++ replicate 3 0;
  len = 5;
  x = 10;
  scr_cols = 80;
  clen = 3;
  currchar = 1;
  cmdpos = none;
  lastcmd = replicate 12 [];
}

prompt-IsPrompt : IsPrompt prompt
prompt-IsPrompt = record {
  fits = refl;
  short = omega arith;
  inside = omega arith;
  ended = refl;
  full = before;
}
  where
    before : (x : ℕ) → x < 3 → (get_or prompt.buf x 0 == 0) ≡ false
    before zero h = refl
    before (suc zero) h = refl
    before (suc (suc zero)) h = refl
    before (suc (suc (suc x))) h = absurd (omega arith)

edit_key-text_key_example :
    IsPrompt (edit_key b'x' prompt)
    × Same (view (edit_key b'x' prompt)) (text_key b'x' 5 10 80 (view prompt))
edit_key-text_key_example = edit_key-text_key b'x' prompt prompt-IsPrompt refl refl

typed :
    edit_key key_left (edit_key b'x' prompt)
    ≡ record prompt { buf = codes "axbc" ++ replicate 2 0; clen = 4 }
unfolding edit_key insert left
typed = refl

-- A line is put into the first two places of the history, and what was the first is lost.
remembered :
    map cstr (
      remember
        (record prompt { lastcmd = codes "old" ∷ codes "older" ∷ replicate 10 (replicate 80 0) }))
    ≡ codes "abc" ∷ codes "abc" ∷ codes "older" ∷ replicate 9 []
unfolding remember
remembered = refl

-- A line as long as the prompt allows keeps the end of the longer one before it.
run_on :
    map cstr (
      remember
        (record prompt { len = 3; lastcmd = codes "longer" ∷ replicate 11 (replicate 80 0) }))
    ≡ codes "abcger" ∷ codes "abcger" ∷ replicate 10 []
unfolding remember
run_on = refl

-- A password.
quiet :
    oldgetdata noecho 4 0 80
      (b'a' ∷ b'b' ∷ 127 ∷ b'c' ∷ b'd' ∷ b'e' ∷ b'\r' ∷ [])
      (replicate 4 0)
      []
    ≡ some (3, codes "acd" ++ 0 ∷ [], [])
unfolding oldgetdata quiet_loop
quiet = refl
