-- ===== src/Ingestion/Country.antt =====
-- packages/ingestion/domain/src/country.ts: the shape of a country's code.
use Prim.Native.Char.{code}
use counted.Base.{ℕ, Bool, ◌&&◌, Option, none, some, String, leb, trim, if◌then◌else◌}
use counted.Ingestion.Batch.{Value, text}

-- `[A-Z]`
abbrev is_letter : ℕ → Bool
is_letter c = leb b'A' c && leb c b'Z'

unfoldable pub is_country_shape : String → Bool
is_country_shape (String.◌∷◌ c (String.◌∷◌ d String.[])) = is_letter (code c) && is_letter (code d)
is_country_shape s = Bool.false

module _ (upper_case : String → String) where
  -- `toUpperCase` is the platform's.
  unfoldable pub admit_country : Value → Option String
  unfolding is_country_shape
  admit_country (text raw) =
      if is_country_shape (upper_case (trim raw)) then some (upper_case (trim raw)) else none
  admit_country raw = none

unfoldable pub is_country_code : Value → Bool
unfolding is_country_shape
is_country_code (text raw) = is_country_shape raw
is_country_code raw = Bool.false
