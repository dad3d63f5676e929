-- ===== src/Ssa/Constant.antt =====
-- `Constant` (compiler/src/compiler/ssa/hlssa/mod.rs): the values of the constants' side table. A field
-- element is one of the parameter `F`, a value of a machine integer a number.
use mavros.Prelude.{ℕ}
use mavros.Prelude.Field.{Field}

pub data Constant (F : Field) : Type 0 where
  u_const : (bits value : ℕ) → Constant F
  i_const : (bits value : ℕ) → Constant F
  field_const : F.Elem → Constant F
  fn_ptr : ℕ → Constant F
