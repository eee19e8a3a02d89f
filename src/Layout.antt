-- ===== src/Layout.antt =====
-- How C lays out a structure, for the structures of the repository: the natural alignment of
-- a scalar, `#pragma pack(1)`, and the `aligned` and `alignas` attributes. Offsets and sizes are in
-- bytes, on a machine whose scalars are aligned to their size.
pub mod Network
pub mod Shared
pub mod Packets
pub mod Lines
use chess_rts.Base.{
  ℕ, zero, suc, ◌+◌, ◌-◌, ◌*◌, ◌/◌, Bool, true, false, Option, none, some, if◌then◌else◌,
}
use Prim.Native.Nat.{max}
use Prim.Native.String.{String}
use text.Mathlib.Text.{◌==◌}

-- `aligned` is 1 where the structure has no such attribute.
mutual
  pub data CType : Type 0 where
    scalar : (bytes : ℕ) → CType
    array : (count : ℕ) → CType → CType
    struct : (packed : Bool) (aligned : ℕ) → Fields → CType

  -- A field with its name and its `alignas`.
  pub data Member : Type 0 where
    member : (align : ℕ) (name : String) → CType → Member

  pub data Fields : Type 0 where
    end : Fields
    ◌▹◌ : Member → Fields → Fields

infixr 60 ◌▹◌
abbrev pub var : String → CType → Member
var name t = member 1 name t

abbrev pub alignas : ℕ → String → CType → Member
alignas align name t = member align name t

-- `at` rounded up to a multiple of `align`.
abbrev pub round_up : (at align : ℕ) → ℕ
round_up at align = (at + (align - 1)) / align * align

unfoldable mutual
  pub align_of : CType → ℕ
  align_of (scalar bytes) = bytes
  align_of (array count t) = align_of t
  align_of (struct packed aligned fs) = max aligned (fields_align packed fs)

  pub fields_align : Bool → Fields → ℕ
  fields_align packed end = 1
  fields_align packed (member align name t ▹ fs) =
      max (if packed then align else max align (align_of t)) (fields_align packed fs)

unfoldable mutual
  unfolding align_of

  pub size_of : CType → ℕ
  size_of (scalar bytes) = bytes
  size_of (array count t) = count * size_of t
  size_of (struct packed aligned fs) =
      round_up (fields_end packed fs 0) (align_of (struct packed aligned fs))

  -- Where the fields end that start at `at`.
  pub fields_end : Bool → Fields → ℕ → ℕ
  fields_end packed end at = at
  fields_end packed (member align name t ▹ fs) at =
      fields_end packed fs
        (round_up at (if packed then align else max align (align_of t)) + size_of t)

-- `offsetof`, if there is such a field.
unfoldable pub field_offset : Bool → String → Fields → ℕ → Option ℕ
unfolding align_of size_of
field_offset packed name end at = none
field_offset packed name (member align n t ▹ fs) at =
    let start = round_up at (if packed then align else max align (align_of t)) in
    let rest = field_offset packed name fs (start + size_of t) in
    if n == name then some start else rest

unfoldable pub offset_of : String → CType → Option ℕ
unfolding field_offset
offset_of name (struct packed aligned fs) = field_offset packed name fs 0
offset_of name _ = none

abbrev pub u8 : CType
u8 = scalar 1

abbrev pub u16 : CType
u16 = scalar 2

abbrev pub u32 : CType
u32 = scalar 4

abbrev pub u64 : CType
u64 = scalar 8

abbrev pub i16 : CType
i16 = scalar 2

abbrev pub i32 : CType
i32 = scalar 4

abbrev pub f32 : CType
f32 = scalar 4

-- A pointer or a Vulkan handle on a 64-bit machine.
abbrev pub pointer : CType
pointer = scalar 8
