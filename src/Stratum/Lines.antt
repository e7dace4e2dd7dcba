-- ===== src/Stratum/Lines.antt =====
-- The class LineBuffer of src/stratum/message.cpp, and the loop of src/stratum/client.cpp that takes
-- its lines. A string is the list of its bytes.
pub mod Chunks
use bitcoin_miner.Base.{
  ℕ, zero, suc, ◌+◌, ◌^◌, Bool, true, false, ◌&&◌, List, [], ◌∷◌, ◌++◌, Option, none, some, not,
  ltb, ◌==◌, if◌then◌else◌, length,
}

pub record LineBuffer : Type 0 where
  pub buffer : List ℕ
  pub overflowed : Bool

abbrev pub max_line_length : ℕ
max_line_length = 2 ^ 20

-- `buffer_.find('\n')`, with the bytes before the newline and those after it.
unfoldable pub split_line : List ℕ → Option (List ℕ × List ℕ)
split_line [] = none
split_line (c ∷ cs) =
    let rest = split_line cs in
    if c == 10
    then some ([], cs)
    else elim rest [ none ↦ none | some (line, after) ↦ some (c ∷ line, after) ]

abbrev pub has_newline : List ℕ → Bool
has_newline cs = elim (split_line cs) [ none ↦ false | some s ↦ true ]

unfoldable pub append : LineBuffer → List ℕ → LineBuffer
append lines bytes =
    if lines.overflowed
    then lines
    else let joined = lines.buffer ++ bytes in
      if ltb max_line_length (length joined) && not (has_newline joined)
      then record { buffer = []; overflowed = true }
      else record { buffer = joined; overflowed = lines.overflowed }

-- `if (!line.empty() && line.back() == '\r') line.pop_back()`.
unfoldable pub strip_cr : List ℕ → List ℕ
strip_cr [] = []
strip_cr (c ∷ []) = if c == 13 then [] else c ∷ []
strip_cr (c ∷ d ∷ cs) = c ∷ strip_cr (d ∷ cs)

-- `nextLine`: the line and the buffer after it.
unfoldable pub next_line : LineBuffer → Option (List ℕ × LineBuffer)
next_line lines = elim (split_line lines.buffer) [
  | none ↦ none
  | some (line, after) ↦ some (strip_cr line, record lines { buffer = after })
]

-- `while (lineBuffer_.nextLine(line))`, with the lines in order. Each line takes a newline, so a round
-- for each byte is enough fuel.
unfoldable pub drain_loop : ℕ → LineBuffer → List (List ℕ) × LineBuffer
drain_loop zero lines = ([], lines)
drain_loop (suc fuel) lines = elim (next_line lines) [
  | none ↦ ([], lines)
  | some (line, after) ↦ let (more, final) = drain_loop fuel after in (line ∷ more, final)
]

unfoldable pub drain : LineBuffer → List (List ℕ) × LineBuffer
drain lines = drain_loop (length lines.buffer) lines
