-- ===== src/Shared/Cursor.antt =====
-- internal/shared/pagination.go: the cursors, over encoding/json and encoding/base64.
use react_go_workflow.Prelude.{ℕ, ◌≡◌, refl, Option, none, some, Text}
use react_go_workflow.Shared.Errors.{ApiError, invalid_cursor}

-- CursorPayload, with the time as a number.
pub record CursorPayload : Type 0 where
  pub id : Text
  pub sort_value : ℕ

-- json.Marshal and json.Unmarshal of a payload, and EncodeToString and DecodeString of base64.StdEncoding.
pub record CursorCodec : Type 0 where
  pub marshal : CursorPayload → Text
  pub unmarshal : Text → Option CursorPayload
  pub encode : Text → Text
  pub decode : Text → Option Text

-- What is written is read.
pub record CursorLaws (codec : CursorCodec) : Type 0 where
  pub unmarshal-marshal : (p : CursorPayload) → codec.unmarshal (codec.marshal p) ≡ some p
  pub decode-encode : (s : Text) → codec.decode (codec.encode s) ≡ some s

pub data DecodedCursor : Type 0 where
  decoded : CursorPayload → DecodedCursor
  refused : ApiError → DecodedCursor

module _ (codec : CursorCodec) where
  -- EncodeCursor
  unfoldable pub encode_cursor : Text → ℕ → Text
  encode_cursor id sort_value =
      codec.encode (codec.marshal (record { id = id; sort_value = sort_value }))

  abbrev unmarshalled : Option CursorPayload → DecodedCursor
  unmarshalled none = refused invalid_cursor
  unmarshalled (some p) = decoded p

  -- DecodeCursor
  unfoldable pub decode_cursor : Text → DecodedCursor
  decode_cursor cursor = elim (codec.decode cursor) [
    | none ↦ refused invalid_cursor
    | some data' ↦ unmarshalled (codec.unmarshal data')
  ]

  -- A cursor that EncodeCursor makes is decoded to what it was made of.
  pub decode_cursor-encode_cursor :
      CursorLaws codec
      → (id : Text) (sort_value : ℕ)
      → decode_cursor (encode_cursor id sort_value)
        ≡ decoded (record { id = id; sort_value = sort_value })
  unfolding encode_cursor decode_cursor
  decode_cursor-encode_cursor laws id sort_value =
      rw
        (
          laws.decode-encode (codec.marshal (record { id = id; sort_value = sort_value })),
          laws.unmarshal-marshal (record { id = id; sort_value = sort_value }),
          decode_cursor,
          encode_cursor,
        )
        refl
