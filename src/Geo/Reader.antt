-- ===== src/Geo/Reader.antt =====
-- `Reader` and `readAxis` of packages/ingestion/adapter-geoip/src/table.ts. A reader is the list of the
-- bytes from its position on, and a read that throws yields none. A number is exact below 2 ^ 53.
pub mod Axis
use counted.Base.{
  ℕ, zero, suc, ◌+◌, ◌*◌, ◌%◌, ◌^◌, List, [], ◌∷◌, Option, none, some, ltb, if◌then◌else◌,
}

-- What a read returns, with the bytes that are left.
abbrev pub Read : Type 0 → Type 0
Read T = Option (T × List ℕ)

infixl 5 ◌>>=◌
abbrev pub ◌>>=◌ : {T U : Type 0} → Read T → (T × List ℕ → Read U) → Read U
none >>= f = none
some r >>= f = f r

abbrev pub u8 : List ℕ → Read ℕ
u8 [] = none
u8 (byte ∷ bytes) = some (byte, bytes)

-- `this.u8() | (this.u8() << 8)`, of two bytes
unfoldable pub u16 : List ℕ → Read ℕ
u16 bytes = u8 bytes >>= λ (low, rest). u8 rest >>= λ (high, more). some (low + high * 256, more)

unfoldable pub u32 : List ℕ → Read ℕ
unfolding u16
u32 bytes =
    u16 bytes >>= λ (low, rest). u16 rest >>= λ (high, more). some (low + high * 65536, more)

-- The text is the list of its codes.
unfoldable pub ascii : ℕ → List ℕ → Read (List ℕ)
ascii zero bytes = some ([], bytes)
ascii (suc length) bytes =
    u8 bytes >>= λ (c, rest). ascii length rest >>= λ (text, more). some (c ∷ text, more)

-- The loop of `varint`: seven bits of each byte, the lowest first, and the eighth says that there is more.
unfoldable pub varint_from : ℕ → ℕ → List ℕ → Read ℕ
varint_from value scale [] = none
varint_from value scale (byte ∷ bytes) =
    let rest = varint_from (value + (byte % 128) * scale) (scale * 128) bytes in
    if ltb byte 128 then some (value + (byte % 128) * scale, bytes) else rest

unfoldable pub varint : List ℕ → Read ℕ
unfolding varint_from
varint bytes = varint_from 0 1 bytes

-- A boundary, and the index of the country from there on.
abbrev pub Boundary : Type 0
Boundary = ℕ × ℕ

-- `readAxis`, into arrays whose cells hold a number below `cell` and a country below 2 ^ 16.
unfoldable pub read_axis : ℕ → ℕ → ℕ → List ℕ → Read (List Boundary)
read_axis cell previous zero bytes = some ([], bytes)
read_axis cell previous (suc count) bytes = varint bytes >>= λ (delta, rest).
    varint rest >>= λ (country, more).
    read_axis cell (previous + delta) count more >>= λ (axis, end).
    some (((previous + delta) % cell, country % 65536) ∷ axis, end)
