-- ===== src/Ingestion/Batch.antt =====
-- packages/ingestion/domain/src/batch.ts: a request as it arrived. A field that is `unknown` is a
-- value of JSON, or missing; a finite number is an integer here, below 2 ^ 53 in magnitude.
use Prim.Native.Char.{Char, code}
use counted.Base.{ℕ, suc, ◌<◌, Bool, true, false, List, Option, String, ◌==◌, text_equality}
use counted.Base.Int.{ℤ}
use counted.Kernel.Instant.{Instant}

mutual
  pub data Value : Type 0 where
    undefined null array : Value
    boolean : Bool → Value
    finite : ℤ → Value
    not_finite : Value
    text : String → Value
    object : Fields → Value

  -- `Object.entries`, in their order
  pub data Fields : Type 0 where
    no_fields : Fields
    field : String → Value → Fields → Fields

abbrev pub field_count : Fields → ℕ
field_count no_fields = 0
field_count (field key value rest) = suc (field_count rest)

-- `value === undefined || value === null`
abbrev pub is_absent : Value → Bool
is_absent undefined = true
is_absent null = true
is_absent v = false

-- `record[name]`, of a name that no object inherits
unfoldable pub get : Fields → String → Value
get no_fields name = undefined
get (field key value rest) name = elim (key == name) [ true ↦ value | false ↦ get rest name ]

pub data PropertyValue : Type 0 where
  of_text : String → PropertyValue
  of_number : ℤ → PropertyValue
  of_boolean : Bool → PropertyValue
  of_null : PropertyValue

-- An event is a value, whose fields are read by name.
pub record IngestBatch : Type 0 where
  pub workspace : String
  pub project : String
  pub received_at : Instant
  pub events : List Value
  pub country : Option String
  pub bytes : Option ℕ

-- What the platform does with texts, and the generated tables of the agents' vocabulary.
pub record Platform : Type 0 where
  -- `Date.parse`, with none for NaN
  pub parse_date : String → Option ℤ
  pub lower_case : String → String
  -- the names under which a plain object finds what it inherits
  pub is_inherited : String → Bool
  -- the first code unit of a character, as a text of its own shows it
  pub lead : Char → Char
  pub lead_small : (c : Char) → code (lead c) < 65536
  pub claims_agent_vocabulary : String → Bool
  pub is_agent_event_name : String → Bool
  pub is_context_key : String → Bool
  pub validate_agent_event : String → List (String × PropertyValue) → Option (List String)
