-- ===== src/Ingestion/OsName.antt =====
-- packages/ingestion/domain/src/os-name.ts: the spellings of a platform are collapsed.
use Prim.Native.Char.{code}
use counted.Base.{
  Bool, ◌||◌, List, [], ◌∷◌, Option, none, some, String, nat_beq, is_empty, is_space, trim,
  if◌then◌else◌, ◌==◌, text_equality,
}
use counted.Ingestion.Batch.{Platform}

pub data OsName : Type 0 where
  macos windows linux ios ipados android tvos watchos visionos chromeos freebsd other : OsName

-- The text that a name is.
abbrev pub name_of : OsName → String
name_of macos = "macos"
name_of windows = "windows"
name_of linux = "linux"
name_of ios = "ios"
name_of ipados = "ipados"
name_of android = "android"
name_of tvos = "tvos"
name_of watchos = "watchos"
name_of visionos = "visionos"
name_of chromeos = "chromeos"
name_of freebsd = "freebsd"
name_of other = "other"

abbrev pub os_aliases : List (String × OsName)
os_aliases =
    ("macos", macos)
    ∷ ("macosx", macos)
    ∷ ("mac", macos)
    ∷ ("darwin", macos)
    ∷ ("osx", macos)
    ∷ ("windows", windows)
    ∷ ("win", windows)
    ∷ ("win32", windows)
    ∷ ("win64", windows)
    ∷ ("winnt", windows)
    ∷ ("linux", linux)
    ∷ ("gnulinux", linux)
    ∷ ("ubuntu", linux)
    ∷ ("debian", linux)
    ∷ ("fedora", linux)
    ∷ ("arch", linux)
    ∷ ("ios", ios)
    ∷ ("iphoneos", ios)
    ∷ ("iphone", ios)
    ∷ ("ipados", ipados)
    ∷ ("ipad", ipados)
    ∷ ("android", android)
    ∷ ("tvos", tvos)
    ∷ ("appletvos", tvos)
    ∷ ("watchos", watchos)
    ∷ ("visionos", visionos)
    ∷ ("xros", visionos)
    ∷ ("chromeos", chromeos)
    ∷ ("chromiumos", chromeos)
    ∷ ("cros", chromeos)
    ∷ ("freebsd", freebsd)
    ∷ ("openbsd", freebsd)
    ∷ ("netbsd", freebsd)
    ∷ ("other", other)
    ∷ ("unknown", other)
    ∷ []

-- What a look-up in the table, a plain object, yields: a name of it, or a member that it inherits.
pub data OsValue : Type 0 where
  listed : OsName → OsValue
  inherited : OsValue

unfoldable pub alias_in : Platform → List (String × OsName) → String → Option OsValue
alias_in p [] folded = if p.is_inherited folded then some inherited else none
alias_in p ((key, os) ∷ rest) folded = elim (key == folded) [
  | Bool.true ↦ some (listed os)
  | Bool.false ↦ alias_in p rest folded
]

-- `.replace(/[\s._-]/g, "")`
unfoldable pub drop_separators : String → String
drop_separators String.[] = String.[]
drop_separators (String.◌∷◌ c s) =
    let rest = drop_separators s in
    if is_space c || nat_beq (code c) b'.' || nat_beq (code c) b'_' || nat_beq (code c) b'-'
    then rest
    else String.◌∷◌ c rest

unfoldable pub fold : Platform → String → String
unfolding drop_separators
fold p raw = drop_separators (p.lower_case raw)

pub record CanonicalOsName : Type 0 where
  pub os_name : OsValue
  pub os_name_raw : Option String

abbrev pub is_spelled : OsValue → String → Bool
is_spelled (listed os) trimmed = trimmed == name_of os
is_spelled inherited trimmed = Bool.false

-- `?? "other"`
abbrev pub or_other : Option OsValue → OsValue
or_other none = listed other
or_other (some os) = os

abbrev pub named_as : OsValue → String → CanonicalOsName
named_as os trimmed = record {
  os_name = os;
  os_name_raw = if is_spelled os trimmed then none else some trimmed;
}

-- The part below the test for a missing text.
unfoldable pub canonical_text : Platform → String → CanonicalOsName
unfolding fold alias_in
canonical_text p raw =
    if is_empty (trim raw)
    then record { os_name = listed other; os_name_raw = none }
    else named_as (or_other (alias_in p os_aliases (fold p (trim raw)))) (trim raw)

unfoldable pub canonical_os_name : Platform → Option String → CanonicalOsName
unfolding canonical_text
canonical_os_name p none = record { os_name = listed other; os_name_raw = none }
canonical_os_name p (some raw) = canonical_text p raw
