-- ===== src/Agents/Compaction/Examples.antt =====
-- A summary of three lines of 30, 30 and 30 characters, capped at 20 tokens.
use asoe.Prelude.{ℕ, ◌*◌, ◌≤◌, ◌≡◌, ◌⊎◌, String, none, some, List, [], ◌∷◌, length}
use asoe.Agents.Compaction.{compact_lines}
use asoe.Agents.Compaction.Cut.{size, IsCutAt, compact_lines-fits}

abbrev thirty : String → ℕ
thirty s = 30

abbrev three : List String
three = "first" ∷ "second" ∷ "third" ∷ []

compact_lines-fits_example :
    (size thirty (compact_lines thirty 20 three).kept ≤ 20 * 4)
    × ((((compact_lines thirty 20 three).truncated ≡ none)
          × ((compact_lines thirty 20 three).kept ≡ three))
        ⊎ (((compact_lines thirty 20 three).truncated
              ≡ some (length (compact_lines thirty 20 three).kept, length three))
            × IsCutAt thirty (20 * 4) (compact_lines thirty 20 three).kept three))
compact_lines-fits_example = compact_lines-fits thirty 20 three
