-- ===== src/Program.antt =====
-- cova/types.go: the linked program that the machine loads, without its debug symbols.
use ccova.Prelude.{ℕ, List}
use ccova.Kind.{ValueKind}
use ccova.Segment.{Bytes}

pub record ScriptFunctionDescriptor : Type 0 where
  pub body_address : ℕ
  pub param_start : ℕ
  pub param_count : ℕ
  pub frame_byte_size : ℕ
  pub return_kind : ValueKind

pub record LinkedProgram : Type 0 where
  pub text : Bytes
  pub entry_point : ℕ
  pub functions : List ScriptFunctionDescriptor
  pub param_kinds : List ValueKind
  pub param_offsets : List ℕ
  pub frame_size : ℕ
  pub frame_byte_size : ℕ
  pub const_byte_size : ℕ
  pub const_data : Bytes
  pub data_byte_size : ℕ
  pub data_data : Bytes
  pub bss_size : ℕ
  pub bss_byte_size : ℕ
