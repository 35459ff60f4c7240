-- ===== src/Header/Generator/Laws.antt =====
-- What the server relies on in a generator of sigmadsp/sigmastudio/header.py: the headers are packed,
-- begin with the operation byte, and have the fields that the server reads.
use sigmadsp.Prelude.{◌≡◌, true, List, [], ◌∷◌, All}
use sigmadsp.Prelude.Result.{ok}
use sigmadsp.Header.{
  Field, FieldName, PacketHeader, OperationKey, read_request_key, read_response_key, write_key,
  operation, safeload, data_length, address, success, contains, name_key,
}
use sigmadsp.Header.Codec.{IsPacked, Fits}
use sigmadsp.Header.Fields.{Distinct}
use sigmadsp.Header.Generator.{PacketHeaderGenerator, header_for}

-- The fields that the code looks up in a header of each kind.
abbrev pub required : OperationKey → List FieldName
required read_request_key = data_length ∷ address ∷ []
required read_response_key = data_length ∷ success ∷ []
required write_key = safeload ∷ data_length ∷ address ∷ []

pub record IsTemplate (k : OperationKey) (h : PacketHeader) : Type 0 where
  pub first : Field
  pub rest : PacketHeader
  pub split : h ≡ first ∷ rest
  pub first_name : first.name ≡ operation
  pub first_size : first.size ≡ 1
  pub packed : IsPacked 0 h
  pub distinct : Distinct h
  pub fits : All Fits h
  pub has : All (λ n. contains (name_key n) h ≡ true) (required k)

pub record IsGenerator (g : PacketHeaderGenerator) : Type 0 where
  pub template : (k : OperationKey) → (h : PacketHeader) × (header_for g k ≡ ok h) × IsTemplate k h
