-- ===== src/Tmux/Protocol/Output.antt =====
-- The line that carries a pane's output: internal/tmuxcc/protocol.go.
use claude_master_go.Base.{
  ℕ, ◌+◌, ◌/◌, ◌%◌, ◌≤◌, ◌≢◌, ap, inl, inr, ◌≡◌, refl, ◌∙◌, true, false, [], ◌∷◌, ◌++◌, arith, ◌==◌,
  Bytes, some,
}
use claude_master_go.Tmux.Text.{space, is_eol, all_eol, trim_eol, cut_space}
use claude_master_go.Tmux.Octal.{done, octal_escape}
use claude_master_go.Tmux.Octal.RoundTrip.{
  AllByte, All, nil, cons, tmux_escape, tmux_escape-cases, tmux_escapes, decode-tmux_escapes,
}
use claude_master_go.Tmux.Protocol.{
  output_msg, output_word, or_empty, output_of, parse_output, parse_message, parse_line,
}

-- No byte of the text ends a line.
abbrev pub InLine : Bytes → Type 0
InLine = All (λ c. is_eol c ≡ false)

-- No byte of the text is a space.
abbrev pub IsWord : Bytes → Type 0
IsWord = All (λ c. c ≢ space)

InLine-append : (xs ys : Bytes) → InLine xs → InLine ys → InLine (xs ++ ys)
InLine-append [] ys nil k = k
InLine-append (c ∷ xs) ys (cons e h) k = cons e (InLine-append xs ys h k)

trim_eol-all : (eol : Bytes) → all_eol eol ≡ true → trim_eol eol ≡ []
unfolding trim_eol
trim_eol-all [] h = refl
trim_eol-all (b ∷ bs) h = rw h

trim_eol-append : (xs eol : Bytes) → InLine xs → all_eol eol ≡ true → trim_eol (xs ++ eol) ≡ xs
unfolding trim_eol all_eol
trim_eol-append [] eol nil h = trim_eol-all eol h
trim_eol-append (c ∷ xs) eol (cons e l) h = simp (e, trim_eol-append xs eol l h)

cut_space-append : (p r : Bytes) → IsWord p → cut_space (p ++ space ∷ r) ≡ (p, some r)
unfolding cut_space
cut_space-append [] r nil = refl
cut_space-append (c ∷ p) r (cons n h) = simp (cut_space-append p r h, not_space)
  where
    not_space : (c == space) ≡ false
    not_space = ground arith

digit-is_eol : (k : ℕ) → is_eol (48 + k) ≡ false
unfolding is_eol
digit-is_eol k = ground arith

octal_escape-InLine : (c : ℕ) → InLine (octal_escape c)
unfolding is_eol
octal_escape-InLine c = cons refl (
    cons (digit-is_eol (c / 64))
      (cons (digit-is_eol (c / 8 % 8)) (cons (digit-is_eol (c % 8)) nil)))

printing : {c : ℕ} → 32 ≤ c → is_eol c ≡ false
unfolding is_eol
printing l = ground arith

tmux_escape-InLine : (c : ℕ) → InLine (tmux_escape c)
unfolding is_eol
tmux_escape-InLine c = elim (tmux_escape-cases c) [
  | inl (e, p) ↦ rw p (cons refl (cons refl nil))
  | inr (inl p) ↦ rw p (octal_escape-InLine c)
  | inr (inr (_, l, p)) ↦ rw p (cons (printing l) nil)
]

tmux_escapes-InLine : (s : Bytes) → InLine (tmux_escapes s)
unfolding tmux_escapes
tmux_escapes-InLine [] = nil
tmux_escapes-InLine (c ∷ s) =
    InLine-append (tmux_escape c) (tmux_escapes s) (tmux_escape-InLine c) (tmux_escapes-InLine s)

-- The line in which tmux sends what a pane wrote.
unfoldable pub output_line : Bytes → Bytes → Bytes
output_line pane_id s = output_word ++ space ∷ pane_id ++ space ∷ tmux_escapes s

parse_output-escaped :
    (pane_id s : Bytes)
    → IsWord pane_id
    → AllByte s
    → parse_output (cut_space (pane_id ++ space ∷ tmux_escapes s))
      ≡ done (some (output_msg pane_id s))
unfolding parse_output output_of
parse_output-escaped pane_id s w b =
    ap parse_output (cut_space-append pane_id (tmux_escapes s) w)
    ∙ ap (output_of pane_id) (decode-tmux_escapes s b)

parse_line-output :
    (text rest : Bytes)
    → trim_eol text ≡ output_word ++ space ∷ rest
    → parse_line text ≡ parse_output (cut_space rest)
unfolding parse_line parse_message cut_space or_empty
parse_line-output text rest e = rw e

-- `ParseLine` reads from the line in which tmux sends what a pane wrote, with any line end behind it,
-- the pane and the very bytes that the pane wrote.
pub parse_line-output_line :
    (pane_id s eol : Bytes)
    → IsWord pane_id
    → InLine pane_id
    → AllByte s
    → all_eol eol ≡ true
    → parse_line (output_line pane_id s ++ eol) ≡ done (some (output_msg pane_id s))
unfolding output_line is_eol
parse_line-output_line pane_id s eol w l b e =
    parse_line-output _ _ (trim_eol-append (output_line pane_id s) eol in_line e)
    ∙ parse_output-escaped pane_id s w b
  where
    word : InLine (output_word ++ space ∷ [])
    word =
        cons refl
          (cons refl (cons refl (cons refl (cons refl (cons refl (cons refl (cons refl nil)))))))

    in_line : InLine (output_line pane_id s)
    in_line =
        InLine-append (output_word ++ space ∷ []) (pane_id ++ space ∷ tmux_escapes s) word
          (InLine-append pane_id (space ∷ tmux_escapes s) l (cons refl (tmux_escapes-InLine s)))
