-- ===== src/Agents/Compaction/Cut.antt =====
-- agents/compaction.py: the cap on the length of a summary.
use asoe.Prelude.{
  ℕ, ◌+◌, ◌*◌, ◌-◌, ◌≤◌, ◌<◌, ◌≡◌, ◌⊎◌, inl, inr, refl, ap, ◌∙◌, String, none, some, List, [], ◌∷◌,
  ◌++◌, ltb, length, arith, Bool-cases,
}
use asoe.Agents.Compaction.{cut, compact_lines}

-- the characters of lines that each end in a line feed
pub size : (String → ℕ) → List String → ℕ
size len [] = 0
size len (line ∷ lines) = len line + 1 + size len lines

-- What is cut off begins with a line that would have gone beyond the cap.
abbrev pub IsCutAt : (String → ℕ) → (room : ℕ) → List String → List String → Type 0
IsCutAt len room kept lines =
    (line : String) × (lines' : List String) × (lines ≡ kept ++ (line ∷ lines'))
    × (room < size len kept + len line + 1)

module _ (len : String → ℕ) where
  cut-fits :
      (cap total used count : ℕ) (lines : List String)
      → used ≤ cap
      → used + size len (cut len cap total used count lines).kept ≤ cap
  unfolding cut size
  cut-fits cap total used count [] h = omega (arith, h)
  cut-fits cap total used count (line ∷ lines) h =
      ground (arith, h, cut-fits cap total (used + len line + 1) (count + 1) lines)

  cut-split :
      (cap total used count : ℕ) (lines : List String)
      → used ≤ cap
      → (((cut len cap total used count lines).truncated ≡ none)
          × ((cut len cap total used count lines).kept ≡ lines))
        ⊎ (((cut len cap total used count lines).truncated
              ≡ some (count + length (cut len cap total used count lines).kept, total))
            × IsCutAt len (cap - used) (cut len cap total used count lines).kept lines)
  unfolding cut size
  cut-split cap total used count [] h = inl (refl, refl)
  cut-split cap total used count (line ∷ lines) h =
      elim (Bool-cases (ltb cap (used + len line + 1))) [
        | inl over ↦ rw over (
            inr
              (ap (λ c. some (c, total)) (omega arith), (line, lines, refl, ground (arith, over))))
        | inr fits ↦
            rw fits
              (elim (cut-split cap total (used + len line + 1) (count + 1) lines
                (ground (arith, fits))) [
                  | inl (whole, same) ↦ inl (whole, ap (λ l. line ∷ l) same)
                  | inr (short, (x, xs, e, over)) ↦ inr (
                    short ∙ ap (λ c. some (c, total)) (omega arith),
                    (x, xs, ap (λ l. line ∷ l) e, omega (arith, over)),
                  )
                ])
      ]

  -- The lines of a summary fit into four characters for each token of the target, each with a line feed.
  -- They are all of the lines, or the ones before the first line that would not have fitted, and then
  -- the summary names how many they are of how many.
  pub compact_lines-fits :
      (target_tokens : ℕ) (lines : List String)
      → (size len (compact_lines len target_tokens lines).kept ≤ target_tokens * 4)
        × ((((compact_lines len target_tokens lines).truncated ≡ none)
              × ((compact_lines len target_tokens lines).kept ≡ lines))
            ⊎ (((compact_lines len target_tokens lines).truncated
                  ≡ some (length (compact_lines len target_tokens lines).kept, length lines))
                × IsCutAt len
                    (target_tokens * 4)
                    (compact_lines len target_tokens lines).kept
                    lines))
  unfolding compact_lines
  compact_lines-fits target_tokens lines = (
    ground (arith, cut-fits (target_tokens * 4) (length lines) 0 0 lines),
    elim (cut-split (target_tokens * 4) (length lines) 0 0 lines (omega arith)) [
      | inl whole ↦ inl whole
      | inr (short, (x, xs, e, over)) ↦
          inr (
            short ∙ ap (λ c. some (c, length lines)) (omega arith),
            (x, xs, e, omega (arith, over)),
          )
    ],
  )
