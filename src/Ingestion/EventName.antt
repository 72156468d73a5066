-- ===== src/Ingestion/EventName.antt =====
-- packages/ingestion/domain/src/event-name.ts: what may be called an event.
use Prim.Native.Char.{code}
use counted.Base.{
  ℕ, Bool, not, ◌||◌, List, Option, none, some, String, leb, nat_beq, is_empty, is_space,
  if◌then◌else◌, filter,
}
use counted.Base.Units.{units}
use counted.Ingestion.Errors.{
  EventAdmissionError, malformed, unknown_event_name, name_required, name_too_long, name_not_usable,
  vocabulary_problems,
}
use counted.Ingestion.Batch.{PropertyValue, Platform}

-- `UNUSABLE_IN_A_NAME.test(name)`
unfoldable pub is_unusable : String → Bool
is_unusable String.[] = Bool.false
is_unusable (String.◌∷◌ c s) =
    is_space c || leb (code c) 0x1f || nat_beq (code c) 0x7f || is_unusable s

unfoldable pub check_event_name : String → ℕ → Option EventAdmissionError
check_event_name name index =
    if is_empty name
    then some (malformed index name_required)
    else if not (leb (units name) 128)
    then some (malformed index (name_too_long 128))
    else if is_unusable name
    then some (malformed index name_not_usable)
    else none

-- The properties that are no part of the envelope.
unfoldable pub own_properties :
    Platform → List (String × PropertyValue) → List (String × PropertyValue)
own_properties p properties = filter (λ entry. not (p.is_context_key entry.0)) properties

abbrev pub as_problem : ℕ → Option (List String) → Option EventAdmissionError
as_problem index none = none
as_problem index (some problems) = some (malformed index (vocabulary_problems problems))

unfoldable pub check_agent_vocabulary :
    Platform → String → List (String × PropertyValue) → ℕ → Option EventAdmissionError
unfolding own_properties
check_agent_vocabulary p name properties index =
    if not (p.claims_agent_vocabulary name)
    then none
    else if not (p.is_agent_event_name name)
    then some (unknown_event_name name)
    else as_problem index (p.validate_agent_event name (own_properties p properties))
