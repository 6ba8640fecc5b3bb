-- ===== src/Input.antt =====
-- mbbsd/io.c: keys (igetkey) and the prompt that reads a line (oldgetdata). Keys come from igetch as a
-- list; what the prompt draws is left out.
pub mod Keys
pub mod Line
pub mod Editing
pub mod History
use openptt.Prelude.{
  ℕ, zero, suc, ◌+◌, ◌-◌, ◌%◌, Bool, true, false, Option, none, some, List, [], ◌∷◌, ◌++◌, ltb, leb,
  ◌==◌, if◌then◌else◌, ◌&&◌, ◌||◌, not, length, get_or, set, take, drop, replicate,
}
use openptt.Prelude.Bytes.{Bytes}
use openptt.Ranges.{cstr}
use openptt.Editor.{isprint2}

-- The keys of common.h.
abbrev pub key_esc : ℕ
key_esc = 27

abbrev pub key_up : ℕ
key_up = 257

abbrev pub key_down : ℕ
key_down = 258

abbrev pub key_right : ℕ
key_right = 259

abbrev pub key_left : ℕ
key_left = 260

abbrev pub key_home : ℕ
key_home = 513

abbrev pub ctrl : ℕ → ℕ
ctrl c = c % 32

-- The modes of igetkey, 0 to 3.
pub data Mode : Type 0 where
  plain in_escape cursor_key paging_key : Mode

-- A key, with KEY_ESC_arg where it is KEY_ESC.
pub record Key : Type 0 where
  pub key : ℕ
  pub arg : Option ℕ

abbrev pub simple : ℕ → Key
simple c = record { key = c; arg = none }

-- What a byte does in igetkey: it ends the key, or the loop goes on in another mode.
pub data Step : Type 0 where
  ends : Key → Step
  goes_on : Mode → Step

unfoldable pub key_step : Mode → (last ch : ℕ) → Step
key_step plain last ch = if ch == key_esc then goes_on in_escape else ends (simple ch)
key_step in_escape last ch =
    if (ch == b'[') || (ch == b'O')
    then goes_on cursor_key
    else (if (ch == b'1') || (ch == b'4')
        then goes_on paging_key
        else ends (record { key = key_esc; arg = some ch }))
key_step cursor_key last ch =
    if leb b'A' ch && leb ch b'D'
    then ends (simple (key_up + (ch - b'A')))
    else (if leb b'1' ch && leb ch b'6' then goes_on paging_key else ends (simple ch))
key_step paging_key last ch =
    if ch == 126 then ends (simple (key_home + (last - b'1'))) else ends (simple ch)

-- The loop of igetkey; the key, and what is left of the bytes. `none` waits for more.
unfoldable pub key_loop : Mode → (last : ℕ) → Bytes → Option (Key × Bytes)
unfolding key_step
key_loop mode last [] = none
key_loop mode last (ch ∷ rest) = elim (key_step mode last ch) [
  | ends k ↦ some (k, rest)
  | goes_on mode' ↦ key_loop mode' ch rest
]

abbrev pub igetkey : Bytes → Option (Key × Bytes)
igetkey bytes = key_loop plain 0 bytes

-- The variables of oldgetdata. `len` is one less than the argument; `cmdpos` is `none` for -1.
pub record Prompt : Type 0 where
  pub buf : Bytes
  pub len : ℕ
  pub x : ℕ
  pub scr_cols : ℕ
  pub clen : ℕ
  pub currchar : ℕ
  pub cmdpos : Option ℕ
  pub lastcmd : List Bytes

abbrev pub maxlastcmd : ℕ
maxlastcmd = 12

-- for(i = ...; ...; i++) buf[i] = buf[i + 1], `count` times.
abbrev pub shift_left : (i count : ℕ) → Bytes → Bytes
shift_left i zero b = b
shift_left i (suc count) b = shift_left (suc i) count (set b i (get_or b (suc i) 0))

-- for(i = from + count; i > from; i--) buf[i] = buf[i - 1]
abbrev pub shift_right : (from count : ℕ) → Bytes → Bytes
shift_right from zero b = b
shift_right from (suc count) b =
    shift_right from count (set b (from + suc count) (get_or b (from + count) 0))

abbrev pub strncpy : (n : ℕ) → (source dest : Bytes) → Bytes
strncpy n source dest = take n (source ++ replicate n 0) ++ drop n dest

abbrev pub strcpy : (source dest : Bytes) → Bytes
strcpy source dest = source ++ (0 ∷ drop (length source + 1) dest)

-- KEY_LEFT and KEY_RIGHT
unfoldable pub left : Prompt → Prompt
left p = record p { currchar = p.currchar - 1 }

unfoldable pub right : Prompt → Prompt
right p = if get_or p.buf p.currchar 0 == 0 then p else record p { currchar = p.currchar + 1 }

-- A backspace
unfoldable pub rubout : Prompt → Prompt
rubout p =
    if p.currchar == 0
    then p
    else (let c = p.currchar - 1 in
        let n = p.clen - 1 in
        record p { currchar = c; clen = n; buf = shift_left c (n + 1 - c) p.buf })

-- Ctrl-K, and Ctrl-Y before it.
unfoldable pub kill : Prompt → Prompt
kill p = record p { buf = set p.buf p.currchar 0; clen = p.currchar }

-- Ctrl-D
unfoldable pub delete : Prompt → Prompt
delete p =
    if get_or p.buf p.currchar 0 == 0
    then p
    else (let n = p.clen - 1 in
        record p { clen = n; buf = shift_left p.currchar (n + 1 - p.currchar) p.buf })

-- Any other key. A char has its last eight bits.
unfoldable pub insert : (ch : ℕ) → Prompt → Prompt
insert ch p =
    if isprint2 (ch % 256) && ltb p.clen p.len && ltb (p.x + p.clen) p.scr_cols
    then record p {
      buf = set (shift_right p.currchar (p.clen + 1 - p.currchar) p.buf) p.currchar (ch % 256);
      currchar = p.currchar + 1;
      clen = p.clen + 1;
    }
    else p

-- The line is put back into the history; before its first entry the model writes nothing.
abbrev pub save_line : Prompt → Prompt
save_line p =
    let b = set p.buf p.clen 0 in
    record p {
      buf = b;
      lastcmd = elim p.cmdpos [
        | none ↦ p.lastcmd
        | some k ↦ set p.lastcmd k (strncpy 79 (cstr b) (get_or p.lastcmd k []))
      ];
    }

-- The entry `k` of the history comes into the line.
abbrev pub recall : (k : ℕ) → Prompt → Prompt
recall k p =
    let b = set (strncpy p.len (cstr (get_or p.lastcmd k [])) p.buf) p.len 0 in
    record p { cmdpos = some k; buf = b; clen = length (cstr b); currchar = length (cstr b) }

-- KEY_UP and KEY_DOWN
unfoldable pub up : Prompt → Prompt
up p = recall (elim p.cmdpos [ none ↦ 0 | some k ↦ (k + 1) % maxlastcmd ]) (save_line p)

unfoldable pub down : Prompt → Prompt
down p =
    recall
      (elim p.cmdpos [
        | none ↦ (maxlastcmd - 2) % maxlastcmd
        | some k ↦ (k + (maxlastcmd - 2) + 1) % maxlastcmd
      ])
      (save_line p)

-- The switch of oldgetdata.
unfoldable pub edit_key : (ch : ℕ) → Prompt → Prompt
unfolding left right rubout kill delete insert up down
edit_key ch p =
    if (ch == key_down) || (ch == ctrl b'N')
    then down p
    else (if (ch == ctrl b'P') || (ch == key_up)
        then up p
        else (if ch == key_left
            then left p
            else (if ch == key_right
                then right p
                else (if (ch == 127) || (ch == ctrl b'H')
                    then rubout p
                    else (if ch == ctrl b'Y'
                        then kill (record p { currchar = 0 })
                        else (if ch == ctrl b'K'
                            then kill p
                            else (if ch == ctrl b'D'
                                then delete p
                                else (if ch == ctrl b'A'
                                    then record p { currchar = 0 }
                                    else (if ch == ctrl b'E'
                                        then record p { currchar = p.clen }
                                        else insert ch p)))))))))

-- The loop of the prompt, to a return.
unfoldable pub edit_loop : List ℕ → Prompt → Option Prompt
unfolding edit_key
edit_loop [] p = none
edit_loop (ch ∷ keys) p =
    let rest = edit_loop keys (edit_key ch p) in if ch == b'\r' then some p else rest

-- The loop after it that moves the history on and puts the line into it; `cmdpos` counts down to 1.
abbrev pub history_loop : (cmdpos : ℕ) → (len : ℕ) → (line : Bytes) → List Bytes → List Bytes
history_loop zero len line cmds = cmds
history_loop (suc k) len line cmds =
    let moved = set cmds (suc k) (strcpy (cstr (get_or cmds k [])) (get_or cmds (suc k) [])) in
    history_loop k len line (set moved 0 (strncpy len line (get_or moved 0 [])))

unfoldable pub remember : Prompt → List Bytes
remember p =
    if ltb 1 p.clen then history_loop (maxlastcmd - 1) p.len (cstr p.buf) p.lastcmd else p.lastcmd

-- With no echo: the loop that reads a line.
unfoldable pub quiet_loop : (len : ℕ) → List ℕ → (clen : ℕ) → Bytes → Option (ℕ × Bytes)
quiet_loop len [] clen buf = none
quiet_loop len (ch ∷ keys) clen buf =
    if ch == b'\r'
    then some (clen, set buf clen 0)
    else (let back = quiet_loop len keys (clen - 1) buf in
        let same = quiet_loop len keys clen buf in
        let more = quiet_loop len keys (clen + 1) (set buf clen (ch % 256)) in
        if (ch == 127) || (ch == ctrl b'H')
        then (if clen == 0 then same else back)
        else (if not (isprint2 (ch % 256)) || leb len clen then same else more))

-- LCECHO makes a capital at the start small; `| 32` sets the bit.
abbrev pub lower_first : Bytes → Bytes
lower_first [] = []
lower_first (c ∷ s) = (if leb b'A' c && leb c b'Z' then c + 32 else c) ∷ s

pub data Echo : Type 0 where
  noecho doecho lcecho : Echo

-- oldgetdata from where the prompt has been drawn, for a `len` that is not 0: the result, the buffer,
-- and the history. strip_ansi has been called on the buffer before.
unfoldable pub oldgetdata :
    Echo
    → (len x scr_cols : ℕ) → List ℕ
    → (buf : Bytes) → List Bytes
    → Option (ℕ × Bytes × List Bytes)
unfolding edit_loop remember quiet_loop
oldgetdata noecho len x scr_cols keys buf cmds = elim (quiet_loop (len - 1) keys 0 buf) [
  | none ↦ none
  | some (n, b) ↦ some (n, b, cmds)
]
oldgetdata echo len x scr_cols keys buf cmds =
    let b = set buf (len - 1) 0 in
    let n = length (cstr b) in
    let start : Prompt = record {
      buf = b;
      len = len - 1;
      x = x;
      scr_cols = scr_cols;
      clen = n;
      currchar = n;
      cmdpos = none;
      lastcmd = cmds;
    } in
    elim (edit_loop keys start) [
      | none ↦ none
      | some p ↦ some (p.clen, (elim echo [ lcecho ↦ lower_first p.buf | _ ↦ p.buf ]), remember p)
    ]
