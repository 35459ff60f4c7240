-- ===== src/Parser/Uniqueness.antt =====
-- The test `cell not in self.cells` of `Parser.run` in sigmadsp/helper/parser.py.
use sigmadsp.Prelude.{
  ℕ, zero, suc, ◌≡◌, Bool, true, false, Bool-cases, inl, inr, Option, none, some, List, [], ◌∷◌,
  ◌++◌, append_assoc, append-nil, length,
}
use sigmadsp.Prelude.Result.{Result, ok, err}
use sigmadsp.Prelude.Exec.{Exec, continue, modify, ◌>>◌}
use sigmadsp.Parser.Texts.{Text}
use sigmadsp.Parser.{
  Numbers, Cell, elem_cell, add_cell, extract_cell, take_block, skip_newlines, one_block, run_loop,
  run,
}

module _ (num : Numbers) where
  -- No cell equals one that stands before it or among the cells that were seen.
  abbrev pub AreUnique : List (Cell num) → List (Cell num) → Type 0
  AreUnique seen [] = Unit
  AreUnique seen (c ∷ cells) = (elem_cell num c seen ≡ false) × AreUnique (seen ++ c ∷ []) cells

  AreUnique-append :
      (seen cells : List (Cell num)) (c : Cell num)
      → AreUnique seen cells
      → elem_cell num c (seen ++ cells) ≡ false
      → AreUnique seen (cells ++ c ∷ [])
  AreUnique-append seen [] c h fresh = (rw append-nil at fresh, tt)
  AreUnique-append seen (d ∷ cells) c h fresh = (
    h.0,
    AreUnique-append (seen ++ d ∷ []) cells c h.1 (rw (append_assoc seen (d ∷ []) cells) fresh),
  )

  add_cell-AreUnique :
      (cell : Option (Cell num)) (cells : List (Cell num))
      → AreUnique [] cells
      → AreUnique [] (add_cell num cell cells)
  unfolding add_cell
  add_cell-AreUnique none cells h = h
  add_cell-AreUnique (some cell) cells h = elim (Bool-cases (elem_cell num cell cells)) [
    | inl there ↦ rw there h
    | inr fresh ↦ rw fresh (AreUnique-append [] cells cell h fresh)
  ]

  extracted-AreUnique :
      (r : Result (Option (Cell num))) (next : Exec (List (Cell num)) (Unit {0}))
      (cells : List (Cell num))
      → ((cells' : List (Cell num)) → AreUnique [] cells' → AreUnique [] (next cells').1)
      → AreUnique [] cells
      → AreUnique []
          (continue r (λ (cell : Option (Cell num)). modify (add_cell num cell) >> next) cells).1
  extracted-AreUnique (err e) next cells keeps h = h
  extracted-AreUnique (ok cell) next cells keeps h =
      keeps (add_cell num cell cells) (add_cell-AreUnique cell cells h)

  one_block-AreUnique :
      (block : List Text) (next : Exec (List (Cell num)) (Unit {0})) (cells : List (Cell num))
      → ((cells' : List (Cell num)) → AreUnique [] cells' → AreUnique [] (next cells').1)
      → AreUnique [] cells
      → AreUnique [] (one_block num block next cells).1
  unfolding one_block
  one_block-AreUnique [] next cells keeps h = h
  one_block-AreUnique (line ∷ more) next cells keeps h =
      extracted-AreUnique (extract_cell num (line ∷ more)) next cells keeps h

  run_loop-AreUnique :
      (fuel : ℕ) (lines : List Text) (cells : List (Cell num))
      → AreUnique [] cells
      → AreUnique [] (run_loop num fuel lines cells).1
  unfolding run_loop
  run_loop-AreUnique zero lines cells h = h
  run_loop-AreUnique (suc fuel) lines cells h =
      let (block, rest) = take_block (skip_newlines lines) in
      one_block-AreUnique block (run_loop num fuel rest) cells
        (λ cells' h'. run_loop-AreUnique fuel rest cells' h') h

  -- Whatever the file holds, and also where `run` raises, no cell that it leaves equals one before it.
  pub run-AreUnique :
      (is_params : Bool) (file : Option (List Text)) (before : List (Cell num))
      → AreUnique [] (run num is_params file before).1
  unfolding run
  run-AreUnique false file before = tt
  run-AreUnique true none before = tt
  run-AreUnique true (some lines) before = run_loop-AreUnique (suc (length lines)) lines [] tt
