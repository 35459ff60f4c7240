-- ===== src/Dsp/Config.antt =====
-- The configuration as sigmadsp/dsp/factory.py reads it: what `yaml.safe_load` makes of texts, integers,
-- truth values, mappings and empty values. A mapping keeps its order.
use Prim.Native.String.{String}
use text.Mathlib.Text.{◌==◌}
use sigmadsp.Prelude.{ℕ, ◌+◌, Bool, false, ◌&&◌, List, [], ◌∷◌, if◌then◌else◌, leb, map}
use sigmadsp.Prelude.Int.{ℤ, pos}
use sigmadsp.Prelude.Result.{Result, ok, err, attribute_error, key_error, type_error}
use sigmadsp.Parser.Texts.{Text, codes}

mutual
  pub data Value : Type 0 where
    null : Value
    string : String → Value
    number : ℤ → Value
    boolean : Bool → Value
    mapping : Entries → Value

  pub data Entries : Type 0 where
    nil : Entries
    entry : String → Value → Entries → Entries

unfoldable pub lookup : String → Entries → Result Value
lookup key nil = err key_error
lookup key (entry k v rest) = if k == key then ok v else lookup key rest

-- `value[key]` with a text as the key.
unfoldable pub subscript : Value → String → Result Value
unfolding lookup
subscript (mapping entries) key = lookup key entries
subscript _ key = err type_error

abbrev pub keys : Entries → List String
keys nil = []
keys (entry k _ rest) = k ∷ keys rest

abbrev pub characters : String → List String
characters String.[] = []
characters (String.◌∷◌ c s) = String.◌∷◌ c String.[] ∷ characters s

-- `for key in value`
unfoldable pub iterate : Value → Result (List String)
iterate (mapping entries) = ok (keys entries)
iterate (string s) = ok (characters s)
iterate _ = err type_error

-- `str.lower` on the ASCII letters. The other characters that `lower` changes do not become letters of the
-- names that the factory knows.
abbrev lower_char : ℕ → ℕ
lower_char c = if leb 65 c && leb c 90 then c + 32 else c

abbrev pub lowered : String → Text
lowered s = map lower_char (codes s)

unfoldable pub lower : Value → Result Text
lower (string s) = ok (lowered s)
lower _ = err attribute_error

-- `int(value)`; that of a text is a parameter.
unfoldable pub int : (String → Result ℤ) → Value → Result ℤ
int int_of (number n) = ok n
int int_of (boolean b) = ok (if b then pos 1 else pos 0)
int int_of (string s) = int_of s
int int_of _ = err type_error

-- `value == "..."`
abbrev pub is_string : String → Value → Bool
is_string s (string t) = t == s
is_string s _ = false
