-- ===== src/Editor/Paste.antt =====
-- insert_string of mbbsd/edit.c, which loads files and puts deleted lines back.
use openptt.Prelude.{
  ℕ, ◌≡◌, refl, ◌∙◌, false, some, [], ◌∷◌, inl, inr, arith, ltb, ◌==◌, ◌&&◌, ◌||◌, not, length,
  Bool-cases,
}
use openptt.Prelude.Bytes.{Bytes}
use openptt.Editor.{
  Editor, line_at, wrapmargin, append, split, wrap, insert_char, isprint2, key_esc,
}
use openptt.Editor.Strings.{insert_byte, insert_string}
use openptt.Editor.Lines.{AllBelow-get, AllBelow-set}
use openptt.Editor.Wrap.{IsValid, IsFull, split-IsValid}
use openptt.Editor.Insert.{insert_char-IsValid}

indent_mode-split : (k pos : ℕ) (e : Editor) → (split k pos e).indent_mode ≡ e.indent_mode
unfolding split append
indent_mode-split k pos e = ground arith

indent_mode-wrap : (e : Editor) → (wrap e).indent_mode ≡ e.indent_mode
unfolding wrap split append
indent_mode-wrap e = ground arith

indent_mode-insert_char : (ch : ℕ) (e : Editor) → (insert_char ch e).indent_mode ≡ e.indent_mode
unfolding insert_char
indent_mode-insert_char ch e =
    let d = line_at e e.currline in
    elim (Bool-cases (ltb (length d) e.currpnt)) [
      | inl far ↦ rw far refl
      | inr far ↦ elim (Bool-cases (ltb e.currpnt (length d) && not e.insert_character)) [
        | inl o ↦ rw (far, o) (indent_mode-wrap _)
        | inr o ↦ rw (far, o) (indent_mode-wrap _)
      ]
    ]

IsValid→IsFull : (e : Editor) → e.indent_mode ≡ false → IsValid e → IsFull e
IsValid→IsFull e off v = record {
  off = off;
  inside = v.within;
  others = AllBelow-set wrapmargin e.currline e.lines [] v.short (omega arith);
  fits = omega (arith, AllBelow-get wrapmargin e.currline e.lines (omega arith) v.short);
  point = v.point;
  total = v.total;
}

-- A new line at the cursor.
pub split-IsValid_here :
    (e : Editor) → e.indent_mode ≡ false → IsValid e → IsValid (split e.currline e.currpnt e)
split-IsValid_here e off v =
    let short = AllBelow-get wrapmargin e.currline e.lines (omega arith) v.short in
    split-IsValid e.currpnt e (IsValid→IsFull e off v) (omega (arith, v.point)) v.point
      (omega (arith, short))

insert_byte-IsValid :
    (ch : ℕ) (e : Editor)
    → (ch == b'\t') ≡ false
    → e.indent_mode ≡ false
    → IsValid e
    → (e' : Editor) × (insert_byte ch e ≡ some e') × (e'.indent_mode ≡ false) × IsValid e'
unfolding insert_byte
insert_byte-IsValid ch e no_tab off v = elim (Bool-cases (isprint2 ch || (ch == key_esc))) [
  | inl p ↦ (
    insert_char ch e,
    rw (insert_byte, p) refl,
    indent_mode-insert_char ch e ∙ off,
    insert_char-IsValid ch e off v,
  )
  | inr p ↦ elim (Bool-cases (ch == b'\n')) [
    | inl n ↦ (
      split e.currline e.currpnt e,
      rw (insert_byte, p, no_tab, n) refl,
      indent_mode-split e.currline e.currpnt e ∙ off,
      split-IsValid_here e off v,
    )
    | inr n ↦ (e, rw (insert_byte, p, no_tab, n) refl, off, v)
  ]
]

abbrev pub NoTab : Bytes → Type 0
NoTab [] = Unit {0}
NoTab (c ∷ s) = ((c == b'\t') ≡ false) × NoTab s

-- insert_string of bytes without a tab ends, and keeps the text well formed, through all the lines
-- that it splits and wraps, as long as auto-indent is off, as it is when a file is loaded.
pub insert_string-IsValid :
    (str : Bytes) (e : Editor)
    → NoTab str
    → e.indent_mode ≡ false
    → IsValid e
    → (e' : Editor) × (insert_string str e ≡ some e') × (e'.indent_mode ≡ false) × IsValid e'
unfolding insert_string
insert_string-IsValid [] e h off v = (e, refl, off, v)
insert_string-IsValid (ch ∷ str) e h off v =
    let (e', step, off', v') = insert_byte-IsValid ch e h.0 off v in
    let (e'', run, off'', v'') = insert_string-IsValid str e' h.1 off' v' in
    (e'', rw (insert_string, step) run, off'', v'')
