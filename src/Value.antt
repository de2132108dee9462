-- ===== src/Value.antt =====
-- Go's `any` as the engine meets it: what encoding/json decodes, and what the runners build.
-- A `float64` is its 64-bit pattern, and an `int` is what the runners count with.
mod Types
mod Format
pub use Types.{
  Value, null, nil_object, bool, int, float, string, object, array, Items, nil, cons, Fields, end,
  field, Object, of_object,
}
unfoldable pub use Types.{get_field, set_field, index}
unfoldable pub use Format.{decimal, sprint, text_less, type_name}
