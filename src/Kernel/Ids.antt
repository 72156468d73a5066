-- ===== src/Kernel/Ids.antt =====
-- packages/kernel/src/ids.ts: the shape that every identifier has.
use counted.Base.{Bool, ◌&&◌, not, String, leb, is_empty}
use counted.Base.Units.{units, has_space}

-- `isIdShape` of a text; a value that is no text is not an identifier. The limit is `MAX_ID_LENGTH`.
unfoldable pub is_id_shape : String → Bool
is_id_shape s = not (is_empty s) && leb (units s) 128 && not (has_space s)
