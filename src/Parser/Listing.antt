-- ===== src/Parser/Listing.antt =====
-- `Parser.run` of sigmadsp/helper/parser.py on a listing of parameters, such as
-- tests/helper/test_parameter_file.params.
use sigmadsp.Prelude.{
  ℕ, zero, suc, ◌<◌, ◌≤◌, ◌≡◌, refl, ◌∙◌, true, Option, none, some, List, [], ◌∷◌, ◌++◌, All,
  length, arith, length-append, append-nil, replicate,
}
use sigmadsp.Prelude.Int.{ℤ}
use sigmadsp.Prelude.Result.{ok}
use sigmadsp.Parser.Texts.{Text, codes, same_text, split_words, join}
use sigmadsp.Parser.Blocks.{
  IsFull, IsData, title, row, has_word, skip_newlines-replicate, take_block-newline, take_block-end,
  data-IsFull,
}
use sigmadsp.Parser.{
  Numbers, Cell, Locals, newline, number_of, cell_line, cell_lines, new_cell, extract_cell,
  add_cell, skip_newlines, take_block, one_block, run_loop, run,
}

module _ (num : Numbers) where
  -- An entry of a listing: its lines, and the number of empty lines after it (but for the one that every
  -- entry has which another one follows); and the names, the address and the value that it has.
  pub record Entry : Type 0 where
    pub name_line : Text
    pub parameter_line : Text
    pub address_line : Text
    pub value_line : Option Text
    pub data_lines : List Text
    pub empty_lines : ℕ
    pub name_words : List Text
    pub parameter_words : List Text
    pub address : ℤ
    pub value : Option (num.Number)

  -- The line of the value, which may be missing.
  pub data HasValueLine : Option Text → Option (num.Number) → Type 0 where
    no_line : HasValueLine none none
    with_line :
        (line text : Text) (v : num.Number)
        → split_words line ≡ codes "Parameter" ∷ codes "Value" ∷ codes "=" ∷ text ∷ []
        → number_of num text ≡ ok v
        → HasValueLine (some line) (some v)

  -- The lines consist of these words, with any white space between them.
  pub record IsEntry (e : Entry) : Type 0 where
    pub name_is : split_words e.name_line ≡ codes "Cell" ∷ codes "Name" ∷ codes "=" ∷ e.name_words
    pub parameter_is :
        split_words e.parameter_line
        ≡ codes "Parameter" ∷ codes "Name" ∷ codes "=" ∷ e.parameter_words
    pub address_text : Text
    pub address_is :
        split_words e.address_line
        ≡ codes "Parameter" ∷ codes "Address" ∷ codes "=" ∷ address_text ∷ []
    pub address_reads : num.int_of address_text ≡ ok e.address
    pub value_is : HasValueLine e.value_line e.value
    pub data_is : All IsData e.data_lines

  abbrev value_then : Option Text → List Text → List Text
  value_then none lines = lines
  value_then (some line) lines = line ∷ lines

  -- The lines of an entry.
  abbrev pub block_of : Entry → List Text
  block_of e =
      e.name_line ∷ e.parameter_line ∷ e.address_line ∷ value_then e.value_line e.data_lines

  -- The lines of some entries, with one empty line between two of them at least.
  abbrev pub listing_lines : List Entry → List Text
  listing_lines [] = []
  listing_lines (e ∷ []) = block_of e ++ replicate e.empty_lines newline
  listing_lines (e ∷ f ∷ es) =
      block_of e ++ newline ∷ (replicate e.empty_lines newline ++ listing_lines (f ∷ es))

  -- The cell of an entry.
  abbrev pub cell_of : Entry → Cell num
  cell_of e = record {
    full_name = join e.name_words;
    parameter_address = e.address;
    parameter_name = join e.parameter_words;
    parameter_value = e.value;
  }

  data_lines_lem :
      (lines : List Text) (s : Locals num) → All IsData lines → cell_lines num lines s ≡ ok s
  unfolding cell_lines cell_line same_text
  data_lines_lem [] s h = refl
  data_lines_lem (line ∷ lines) s (title rest words, h) = rw words (data_lines_lem lines s h)
  data_lines_lem (line ∷ lines) s (row first rest words cell parameter, h) =
      rw words (rw (cell, parameter) (data_lines_lem lines s h))

  value_lem :
      (line : Option Text) (v : Option (num.Number)) (lines : List Text) (s : Locals num)
      → HasValueLine line v
      → s.parameter_value ≡ none
      → All IsData lines
      → cell_lines num (value_then line lines) s ≡ ok (record s { parameter_value = v })
  unfolding cell_lines cell_line same_text
  value_lem none none lines s no_line unset h = data_lines_lem lines s h ∙ rw unset refl
  value_lem none (some _) lines s never unset h = elim never [ ]
  value_lem (some _) none lines s never unset h = elim never [ ]
  value_lem (some _) (some _) lines s (with_line line text v words reads) unset h =
      rw words (rw reads (data_lines_lem lines (record s { parameter_value = some v }) h))

  extract_cell-entry :
      (e : Entry) → IsEntry e → extract_cell num (block_of e) ≡ ok (some (cell_of e))
  unfolding extract_cell new_cell cell_lines cell_line same_text
  extract_cell-entry e h =
      let s : Locals num = record {
        name = some (join e.name_words);
        parameter_name = some (join e.parameter_words);
        parameter_address = some e.address;
        parameter_value = none;
      } in
      rw h.name_is (
        rw h.parameter_is (
          rw h.address_is (
            rw h.address_reads
              (rw (value_lem e.value_line e.value e.data_lines s h.value_is refl h.data_is) refl))))

  All-data-IsFull : (lines : List Text) → All IsData lines → All IsFull lines
  All-data-IsFull [] h = tt
  All-data-IsFull (line ∷ lines) h = (data-IsFull line h.0, All-data-IsFull lines h.1)

  value-IsFull :
      (line : Option Text) (v : Option (num.Number)) (lines : List Text)
      → HasValueLine line v
      → All IsFull lines
      → All IsFull (value_then line lines)
  value-IsFull none none lines no_line h = h
  value-IsFull none (some _) lines never h = elim never [ ]
  value-IsFull (some _) none lines never h = elim never [ ]
  value-IsFull (some _) (some _) lines (with_line line text v words _) h =
      (has_word line _ _ words, h)

  block-IsFull : (e : Entry) → IsEntry e → All IsFull (block_of e)
  block-IsFull e h = (
    has_word e.name_line _ _ h.name_is,
    (
      has_word e.parameter_line _ _ h.parameter_is,
      (
        has_word e.address_line _ _ h.address_is,
        value-IsFull e.value_line e.value e.data_lines h.value_is
            (All-data-IsFull e.data_lines h.data_is),
      ),
    ),
  )

  -- The block of the first entry, and what follows it up to empty lines.
  first_block :
      (e : Entry) (es : List Entry)
      → IsEntry e
      → (n : ℕ) × (take_block (listing_lines (e ∷ es))
          ≡ (block_of e, replicate n newline ++ listing_lines es))
  first_block e [] h = last_block e e.empty_lines (block-IsFull e h)
    where
      last_block :
          (e : Entry) (k : ℕ)
          → All IsFull (block_of e)
          → (n : ℕ) × (take_block (block_of e ++ replicate k newline)
              ≡ (block_of e, replicate n newline ++ []))
      last_block e zero full = (0, rw append-nil (take_block-end (block_of e) full))
      last_block e (suc k) full =
          (k, rw append-nil (take_block-newline (block_of e) (replicate k newline) full))
  first_block e (f ∷ es) h = (e.empty_lines, take_block-newline (block_of e) _ (block-IsFull e h))

  first_kept :
      (e : Entry) (es : List Entry)
      → IsEntry e
      → skip_newlines (listing_lines (e ∷ es)) ≡ listing_lines (e ∷ es)
  unfolding skip_newlines
  first_kept e [] h = rw (has_word e.name_line _ _ h.name_is) refl
  first_kept e (f ∷ es) h = rw (has_word e.name_line _ _ h.name_is) refl

  -- The cells so far with those of some entries; a cell that is there already is not added again.
  abbrev pub with_cells : List Entry → List (Cell num) → List (Cell num)
  with_cells [] cells = cells
  with_cells (e ∷ es) cells = with_cells es (add_cell num (some (cell_of e)) cells)

  run_loop_step :
      (fuel : ℕ) (lines rest more : List Text) (first : Text) (cell : Option (Cell num))
      (cells : List (Cell num))
      → take_block (skip_newlines lines) ≡ (first ∷ more, rest)
      → extract_cell num (first ∷ more) ≡ ok cell
      → run_loop num (suc fuel) lines cells ≡ run_loop num fuel rest (add_cell num cell cells)
  unfolding run_loop one_block
  run_loop_step fuel lines rest more first cell cells cut extracted = rw cut (rw extracted refl)

  run_loop-entries :
      (es : List Entry) (n fuel : ℕ) (cells : List (Cell num))
      → All IsEntry es
      → length es < fuel
      → run_loop num fuel (replicate n newline ++ listing_lines es) cells
        ≡ (ok tt, with_cells es cells)
  unfolding run_loop
  run_loop-entries es n zero cells h enough = absurd (omega arith)
  run_loop-entries [] n (suc fuel) cells h enough =
      rw (skip_newlines-replicate n []) (unfold skip_newlines take_block one_block in refl)
  run_loop-entries (e ∷ es) n (suc fuel) cells h enough =
      let (k, cut) = first_block e es h.0 in
      let lines = replicate n newline ++ listing_lines (e ∷ es) in
      let block : take_block (skip_newlines lines)
          ≡ (block_of e, replicate k newline ++ listing_lines es) =
        rw (skip_newlines-replicate n (listing_lines (e ∷ es))) (rw (first_kept e es h.0) cut) in
      run_loop_step fuel lines (replicate k newline ++ listing_lines es) _ _ (some (cell_of e))
        cells block (extract_cell-entry e h.0)
      ∙ run_loop-entries es k fuel (add_cell num (some (cell_of e)) cells) h.1 (omega arith)

  entries_length : (es : List Entry) → length es ≤ length (listing_lines es)
  entries_length [] = omega arith
  entries_length (e ∷ []) = omega arith
  entries_length (e ∷ f ∷ es) =
      let rest = listing_lines (f ∷ es) in
      let blanks = replicate e.empty_lines newline in
      omega (
        arith,
        entries_length (f ∷ es),
        length-append (block_of e) (newline ∷ (blanks ++ rest)),
        length-append blanks rest,
      )

  -- A listing of entries, each with a line for the name of the cell, for that of the parameter, and for
  -- the address, then possibly one for the value, then any number of lines with data, in this order,
  -- and empty lines between the entries; the words of a line are split at white space of any length,
  -- and Python reads the numbers. From it `run` returns, and its cells are those of the entries, in
  -- order, with the names, the address and the value, if any, of each, where an entry whose cell is
  -- there already adds none; whatever the cells were before.
  pub run-entries :
      (es : List Entry) (before : List (Cell num))
      → All IsEntry es
      → run num true (some (listing_lines es)) before ≡ (ok tt, with_cells es [])
  unfolding run
  run-entries es before h =
      run_loop-entries es 0 (suc (length (listing_lines es))) [] h
        (omega (arith, entries_length es))
