-- ===== src/Parser.antt =====
-- sigmadsp/helper/parser.py: `Parser.run` and the queries. The cells are in `Cells`,
-- whose names are passed on; the proofs are in the other modules below.
pub mod Texts
mod Cells
pub mod Words
pub mod Blocks
pub mod Listing
pub mod Uniqueness
unfoldable pub use Cells.*
use sigmadsp.Prelude.{
  ℕ, zero, suc, ◌+◌, Bool, true, false, ◌&&◌, ◌||◌, Option, none, some, List, [], ◌∷◌, ◌++◌, length,
  ◌==◌, if◌then◌else◌,
}
use sigmadsp.Prelude.Int.{ℤ}
use sigmadsp.Prelude.Result.{ok}
use sigmadsp.Prelude.Exec.{Exec, pure, lift, modify, ◌>>=◌, ◌>>◌}
use sigmadsp.Parser.Texts.{Text, same_text, is_substring}

-- `dropwhile(lambda x: x == "\n", lines)`
unfoldable pub skip_newlines : List Text → List Text
skip_newlines [] = []
skip_newlines (line ∷ lines) = if same_text line newline then skip_newlines lines else line ∷ lines

-- `takewhile(lambda x: x != "\n", lines)`: the block, and what the iterator has left. The line after
-- the block is consumed too.
unfoldable pub take_block : List Text → List Text × List Text
take_block [] = ([], [])
take_block (line ∷ lines) =
    let (block, rest) = take_block lines in
    if same_text line newline then ([], lines) else (line ∷ block, rest)

module _ (num : Numbers) where
  -- A round of the loop of `run` on a block, and what follows it.
  unfoldable pub one_block :
      List Text → Exec (List (Cell num)) (Unit {0}) → Exec (List (Cell num)) (Unit {0})
  unfolding extract_cell add_cell
  one_block [] next_round = pure tt
  one_block (line ∷ more) next_round = do
    cell ← lift (extract_cell num (line ∷ more))
    modify (add_cell num cell)
    next_round

  -- The loop of `run`; every round but the last consumes a line.
  unfoldable pub run_loop : ℕ → List Text → Exec (List (Cell num)) (Unit {0})
  unfolding skip_newlines take_block one_block
  run_loop zero lines = pure tt
  run_loop (suc fuel) lines =
      let (block, rest) = take_block (skip_newlines lines) in one_block block (run_loop fuel rest)

  -- `run`: whether the suffix is `.params`, and the lines of the file, if it is there.
  unfoldable pub run : Bool → Option (List Text) → Exec (List (Cell num)) (Unit {0})
  unfolding run_loop
  run false file _ = (ok tt, [])
  run true none _ = (ok tt, [])
  run true (some lines) _ = run_loop (suc (length lines)) lines []

  abbrev only : List (Cell num) → Option (Cell num)
  only (cell ∷ []) = some cell
  only _ = none

  unfoldable pub safety_hash_cell : List (Cell num) → Option (Cell num)
  safety_hash_cell cells = only (filter (is_safety_hash num) cells)

  unfoldable pub volume_cells : List (Cell num) → List (Cell num)
  volume_cells = filter (is_volume_cell num)

  abbrev pub same_texts : List Text → List Text → Bool
  same_texts [] [] = true
  same_texts (t ∷ ts) (u ∷ us) = same_text t u && same_texts ts us
  same_texts _ _ = false

  unfoldable pub get_matching_cells_by_name_tokens : List (Cell num) → List Text → List (Cell num)
  get_matching_cells_by_name_tokens all_cells tokens =
      filter (λ cell. same_texts tokens (name_tokens num cell)) all_cells

  unfoldable pub get_matching_cells_by_parameter_name :
      List (Cell num) → Text → Bool → List (Cell num)
  get_matching_cells_by_parameter_name all_cells parameter_name match_substring =
      filter
        (λ (cell : Cell num).
          if match_substring
          then is_substring parameter_name cell.parameter_name
          else same_text parameter_name cell.parameter_name)
        all_cells
