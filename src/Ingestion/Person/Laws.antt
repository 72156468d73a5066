-- ===== src/Ingestion/Person/Laws.antt =====
-- What an admitted person is.
use counted.Base.{◌≤◌, false, String, some, ◌≡◌, arith, is_empty, trim, trim_idem}
use counted.Base.Units.{units}
use counted.Kernel.Result.{ok}
use counted.Ingestion.Batch.{Value, text}
use counted.Ingestion.Person.{
  admit_trimmed, admit_person_id, admit_optional_person, looks_like_email,
}

pub record IsPerson (person : String) : Type 0 where
  pub present : is_empty person ≡ false
  pub trimmed : trim person ≡ person
  pub bounded : units person ≤ 128
  pub no_email : looks_like_email false person ≡ false

trimmed-IsPerson : (raw person : String) → admit_trimmed (trim raw) ≡ ok person → IsPerson person
unfolding admit_trimmed
trimmed-IsPerson raw person h = ground (arith, trim_idem raw)

pub admit_optional_person-IsPerson :
    (raw : Value) (person : String) → admit_optional_person raw ≡ ok (some person) → IsPerson person
unfolding admit_optional_person admit_person_id
admit_optional_person-IsPerson Value.undefined person h = ground arith
admit_optional_person-IsPerson Value.null person h = ground arith
admit_optional_person-IsPerson Value.array person h = ground arith
admit_optional_person-IsPerson (Value.boolean b) person h = ground arith
admit_optional_person-IsPerson (Value.finite n) person h = ground arith
admit_optional_person-IsPerson Value.not_finite person h = ground arith
admit_optional_person-IsPerson (text raw) person h = ground (arith, trimmed-IsPerson raw person)
admit_optional_person-IsPerson (Value.object entries) person h = ground arith
