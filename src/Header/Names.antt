-- ===== src/Header/Names.antt =====
-- `FieldName` of sigmadsp/sigmastudio/header.py, and its equality.
use sigmadsp.Prelude.{ℕ, zero, suc, ◌≡◌, refl, ap, sym, ◌∙◌, Bool, ◌↔◌, ◌==◌, ==_iff, ==_refl}

pub data FieldName : Type 0 where
  operation safeload channel total_length chip_address data_length address success : FieldName
  reserved : FieldName

-- The place of a name in the list of names.
rank : FieldName → ℕ
rank operation = 0
rank safeload = 1
rank channel = 2
rank total_length = 3
rank chip_address = 4
rank data_length = 5
rank address = 6
rank success = 7
rank reserved = 8

-- `==` of two names.
unfoldable pub same_name : FieldName → FieldName → Bool
unfolding rank
same_name a b = rank a == rank b

unrank : ℕ → FieldName
unrank zero = operation
unrank (suc zero) = safeload
unrank (suc (suc zero)) = channel
unrank (suc (suc (suc zero))) = total_length
unrank (suc (suc (suc (suc zero)))) = chip_address
unrank (suc (suc (suc (suc (suc zero))))) = data_length
unrank (suc (suc (suc (suc (suc (suc zero)))))) = address
unrank (suc (suc (suc (suc (suc (suc (suc zero))))))) = success
unrank (suc (suc (suc (suc (suc (suc (suc (suc _)))))))) = reserved

unrank-rank : (a : FieldName) → unrank (rank a) ≡ a
unfolding rank unrank
unrank-rank operation = refl
unrank-rank safeload = refl
unrank-rank channel = refl
unrank-rank total_length = refl
unrank-rank chip_address = refl
unrank-rank data_length = refl
unrank-rank address = refl
unrank-rank success = refl
unrank-rank reserved = refl

pub same_name_iff : (a b : FieldName) → (same_name a b ≡ Bool.true) ↔ (a ≡ b)
unfolding same_name
same_name_iff a b = (
  λ h. sym (unrank-rank a) ∙ ap unrank ((==_iff (rank a) (rank b)).0 h) ∙ unrank-rank b,
  λ e. (==_iff (rank a) (rank b)).1 (ap rank e),
)

pub same_name_refl : (a : FieldName) → same_name a a ≡ Bool.true
unfolding same_name
same_name_refl a = ==_refl (rank a)
