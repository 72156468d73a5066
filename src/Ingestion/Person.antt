-- ===== src/Ingestion/Person.antt =====
-- packages/ingestion/domain/src/person.ts: how a person enters the system.
pub mod Laws
use Prim.Native.Char.{Char, code}
use counted.Base.{
  Bool, true, false, not, ◌&&◌, ◌||◌, Option, none, some, String, leb, nat_beq, is_empty, is_space,
  trim, if◌then◌else◌,
}
use counted.Base.Units.{units}
use counted.Kernel.Result.{Result, ok, err, map_ok}
use counted.Ingestion.Errors.{
  EventAdmissionError, person_id_required, person_id_too_long, person_id_looks_like_email,
}
use counted.Ingestion.Batch.{Value, text, is_absent}

-- `[^@\s]`
abbrev pub is_part : Char → Bool
is_part c = not (is_space c) && not (nat_beq (code c) b'@')

-- `[^@\s]*$`
unfoldable pub all_part : String → Bool
all_part String.[] = true
all_part (String.◌∷◌ c s) = is_part c && all_part s

-- `[^@\s]+\.[^@\s]+$`; `started` says that the first run has a character.
unfoldable pub is_domain : Bool → String → Bool
is_domain started String.[] = false
is_domain started (String.◌∷◌ c s) =
    is_part c
    && ((started && nat_beq (code c) b'.' && not (is_empty s) && all_part s) || is_domain true s)

-- The whole of `LOOKS_LIKE_EMAIL`: what stands before an `@` has none, so the first one ends it.
unfoldable pub looks_like_email : Bool → String → Bool
looks_like_email started String.[] = false
looks_like_email started (String.◌∷◌ c s) =
    let rest = looks_like_email true s in
    if nat_beq (code c) b'@' then started && is_domain false s else is_part c && rest

-- The rules on an identifier that is trimmed. The limit is `MAX_PERSON_ID_LENGTH`.
unfoldable pub admit_trimmed : String → Result String EventAdmissionError
admit_trimmed trimmed =
    if is_empty trimmed
    then err person_id_required
    else if not (leb (units trimmed) 128)
    then err (person_id_too_long (units trimmed) 128)
    else if looks_like_email false trimmed
    then err person_id_looks_like_email
    else ok trimmed

unfoldable pub admit_person_id : Value → Result String EventAdmissionError
unfolding admit_trimmed
admit_person_id (text raw) = admit_trimmed (trim raw)
admit_person_id raw = err person_id_required

unfoldable pub admit_optional_person : Value → Result (Option String) EventAdmissionError
unfolding admit_person_id
admit_optional_person raw = if is_absent raw then ok none else map_ok some (admit_person_id raw)
