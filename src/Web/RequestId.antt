-- ===== src/Web/RequestId.antt =====
-- internal/web/middleware/request_id.go: which request ids a client may choose. The loop reads bytes;
-- a code point from U+0080 on has only bytes that it refuses.
use Prim.Native.Char.{code}
use oryxos_go.Common.{
  ℕ, String, Bool, true, false, ◌&&◌, ◌||◌, ltb, leb, ◌==◌, if◌then◌else◌, ◌+◌, ◌≡◌, refl,
}
use oryxos_go.Go.Effect.{Context, with_correlation}

abbrev between : ℕ → ℕ → ℕ → Bool
between low high n = leb low n && leb n high

-- A character that the loop lets pass.
pub allowed_character : ℕ → Bool
allowed_character n =
    between 0x61 0x7A n
    || between 0x41 0x5A n
    || between 0x30 0x39 n
    || n == 0x2E
    || n == 0x5F
    || n == 0x2D

pub all_allowed : String → Bool
unfolding allowed_character
all_allowed String.[] = true
all_allowed (String.◌∷◌ c s) = allowed_character (code c) && all_allowed s

-- The number of bytes of a code point in UTF-8.
abbrev char_bytes : ℕ → ℕ
char_bytes n = if ltb n 0x80 then 1 else if ltb n 0x800 then 2 else if ltb n 0x10000 then 3 else 4

-- `len(value)`
pub byte_length : String → ℕ
byte_length String.[] = 0
byte_length (String.◌∷◌ c s) = char_bytes (code c) + byte_length s

-- `validRequestID`
unfoldable pub valid_request_id : String → Bool
unfolding all_allowed byte_length
valid_request_id value =
    if byte_length value == 0 || ltb 128 (byte_length value) then false else all_allowed value

module _ {W : Type 0} where
  -- The handler of `RequestID` up to the next one: the id, the context of the request and the world,
  -- where `generate` is `newRequestID`. The id is also the response's header.
  unfoldable pub request_id : (W → String × W) → Context W → String → W → String × Context W × W
  unfolding valid_request_id
  request_id generate ctx header w =
      let (id, w') = if valid_request_id header then (header, w) else generate w in
      (
        id,
        with_correlation ctx (record {
          request_id = id;
          session_id = "";
          profile_name = "";
          channel = "";
          schedule_id = "";
        }),
        w',
      )

accepts : valid_request_id "req-1.A_z" ≡ true
unfolding valid_request_id
accepts = refl

refuses_space : valid_request_id "a b" ≡ false
unfolding valid_request_id
refuses_space = refl
