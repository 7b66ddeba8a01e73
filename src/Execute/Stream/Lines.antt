-- ===== src/Execute/Stream/Lines.antt =====
-- execute.py: the chunks of a container's log put back into lines (`_stream_cold_attempt`).
use aw_app_agents_platform_r.Prelude.{
  ℕ, ◌≡◌, refl, sym, ap, ◌∙◌, Bool, false, List, [], ◌∷◌, ◌++◌, ◌==◌, Bool-cases, inl, inr,
}
use mathlib.Core.List.{append-nil, append_assoc}
use aw_app_agents_platform_r.Prelude.Texts.{Text}
use aw_app_agents_platform_r.Execute.Outside.{Outside}
use aw_app_agents_platform_r.Execute.Stream.{
  to_first_line, split_lines, StreamState, handle_line, handle_lines, handle_chunks,
}

-- The lines of a text, then those of what it leaves with more behind it.
abbrev pub continued : List Text × Text → Text → List Text × Text
continued first t = (first.0 ++ (split_lines (first.1 ++ t)).0, (split_lines (first.1 ++ t)).1)

first_line-continued :
    (c : ℕ) (first : List Text × Text) (t : Text)
    → (c == 10) ≡ false
    → to_first_line c (continued first t) ≡ continued (to_first_line c first) t
unfolding to_first_line split_lines
first_line-continued c ([], rest) t other = rw other refl
first_line-continued c (line ∷ lines, rest) t other = refl

pub split_lines-append : (s t : Text) → split_lines (s ++ t) ≡ continued (split_lines s) t
unfolding split_lines
split_lines-append [] t = refl
split_lines-append (c ∷ s) t = elim (Bool-cases (c == 10)) [
  | inl newline ↦ rw newline (ap (λ m. ([] ∷ m.0, m.1)) (split_lines-append s t))
  | inr other ↦ rw other (
      ap (to_first_line c) (split_lines-append s t)
      ∙ first_line-continued c (split_lines s) t other)
]

abbrev pub concat : List Text → Text
concat [] = []
concat (t ∷ ts) = t ++ concat ts

abbrev pub NoNewline : Text → Type 0
NoNewline buf = split_lines buf ≡ ([], buf)

module _ (O : Outside) where
  pub handle_lines-append :
      (cr : Bool) (r : Text) (xs ys : List Text) (s : StreamState O.World)
      → handle_lines O cr r (xs ++ ys) s ≡ handle_lines O cr r ys (handle_lines O cr r xs s)
  unfolding handle_lines
  handle_lines-append cr r [] ys s = refl
  handle_lines-append cr r (x ∷ xs) ys s = handle_lines-append cr r xs ys (handle_line O cr r x s)

  -- What the chunks leave when they are one text.
  abbrev pub of_text : Bool → Text → Text → StreamState O.World → Text × StreamState O.World
  of_text cr r t s = ((split_lines t).1, handle_lines O cr r (split_lines t).0 s)

  split_rest : (t : Text) → NoNewline (split_lines t).1
  unfolding split_lines
  split_rest [] = refl
  split_rest (c ∷ t) = elim (Bool-cases (c == 10)) [
    | inl newline ↦ rw newline (split_rest t)
    | inr other ↦ rw other (in_first (split_lines t) other (split_rest t))
  ]
    where
      in_first :
          (p : List Text × Text)
          → (c == 10) ≡ false
          → split_lines p.1 ≡ ([], p.1)
          → split_lines (to_first_line c p).1 ≡ ([], (to_first_line c p).1)
      in_first ([], rest) other h = rw (other, h) refl
      in_first (line ∷ lines, rest) other h = h

  -- How the log's text is cut into chunks does not matter: the chunks leave the same rest and the same
  -- variables, and publish the same lines, as the whole text in one chunk.
  pub handle_chunks-concat :
      (cr : Bool) (r : Text) (chunks : List Text) (buf : Text) (s : StreamState O.World)
      → NoNewline buf
      → handle_chunks O cr r chunks buf s ≡ of_text cr r (buf ++ concat chunks) s
  unfolding handle_chunks handle_lines
  handle_chunks-concat cr r [] buf s h = rw (append-nil buf, h) refl
  handle_chunks-concat cr r (raw ∷ more) buf s h =
      let first = split_lines (buf ++ raw) in
      handle_chunks-concat cr r more first.1 (handle_lines O cr r first.0 s)
        (split_rest (buf ++ raw))
      ∙ (ap (λ q. ((split_lines (first.1 ++ concat more)).1, q))
            (sym (handle_lines-append cr r first.0 (split_lines (first.1 ++ concat more)).0 s))
          ∙ ap (λ m. (m.1, handle_lines O cr r m.0 s))
              (sym (split_lines-append (buf ++ raw) (concat more))
                ∙ ap split_lines (append_assoc buf raw (concat more))))
