-- ===== src/Tests/OnParser.antt =====
-- The theorems on sigmadsp/helper/parser.py at a concrete listing.
use sigmadsp.Prelude.{◌≡◌, refl, true, none, some, List, [], ◌∷◌, ◌++◌}
use sigmadsp.Prelude.Int.{pos}
use sigmadsp.Prelude.Result.{ok}
use sigmadsp.Parser.{run, number_of}
use sigmadsp.Parser.Texts.{Text, codes, same_text, split_words}
use sigmadsp.Parser.Blocks.{title, row}
use sigmadsp.Parser.Listing.{
  Entry, IsEntry, no_line, with_line, listing_lines, with_cells, run-entries,
}
use sigmadsp.Tests.OnBackend.{integers}

-- Two entries, the second one without a value.
abbrev volume_entry : Entry integers
volume_entry = record {
  name_line = codes "Cell Name         = Volume EXT.Shift" ++ 10 ∷ [];
  parameter_line = codes "Parameter Name    = BitShiftADAU145XAlg5shift_bits" ++ 10 ∷ [];
  address_line = codes "Parameter Address = 32" ++ 10 ∷ [];
  value_line = some (codes "Parameter Value   = 14" ++ 10 ∷ []);
  data_lines =
      (codes "Parameter Data :" ++ 10 ∷ []) ∷ (codes "0x00, 0x00, 0x00, 0x0E," ++ 10 ∷ []) ∷ [];
  empty_lines = 2;
  name_words = codes "Volume" ∷ codes "EXT.Shift" ∷ [];
  parameter_words = codes "BitShiftADAU145XAlg5shift_bits" ∷ [];
  address = pos 32;
  value = some (pos 14);
}

abbrev second_entry : Entry integers
second_entry = record volume_entry {
  address_line = codes "Parameter Address = 61" ++ 10 ∷ [];
  value_line = none;
  empty_lines = 0;
  address = pos 61;
  value = none;
}

abbrev row_words : List Text
row_words = codes "0x00," ∷ codes "0x0E," ∷ []

volume_entry-IsEntry : IsEntry integers volume_entry
unfolding split_words same_text number_of
volume_entry-IsEntry = record {
  name_is = refl;
  parameter_is = refl;
  address_text = codes "32";
  address_is = refl;
  address_reads = refl;
  value_is = with_line _ (codes "14") (pos 14) refl refl;
  data_is = (
    title (codes ":" ∷ []) refl,
    (row (codes "0x00,") (codes "0x00," ∷ row_words) refl refl refl, tt),
  );
}

second_entry-IsEntry : IsEntry integers second_entry
unfolding split_words
second_entry-IsEntry = record {
  name_is = refl;
  parameter_is = refl;
  address_text = codes "61";
  address_is = refl;
  address_reads = refl;
  value_is = no_line;
  data_is = volume_entry-IsEntry.data_is;
}

abbrev listing : List (Entry integers)
listing = volume_entry ∷ volume_entry ∷ second_entry ∷ []

run-entries_example :
    run integers true (some (listing_lines integers listing)) []
    ≡ (ok tt, with_cells integers listing [])
run-entries_example =
    run-entries integers listing []
      (volume_entry-IsEntry, (volume_entry-IsEntry, (second_entry-IsEntry, tt)))
