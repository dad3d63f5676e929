-- ===== src/Passes/Simplifier/Algebraic.antt =====
-- `Simplifier::try_algebraic` (compiler/src/compiler/passes/simplifier.rs), an arm for each function.
use mavros.Prelude.{ℕ, ◌-◌, false, Option, none, some, [], ◌∷◌, ◌==◌, ltb, if◌then◌else◌}
use mavros.Prelude.Field.{Field}
use mavros.Types.{TypeExpr, u, ◌>>=◌, strip_witness}
use mavros.Types.Access.{get_bit_size}
use mavros.Range.Transfer.{
  BinaryArithOpKind, add_op, mul_op, div_op, sub_op, and_op, or_op, xor_op, shl_op, shr_op, mod_op,
  CastTarget, nop,
}
use mavros.Analysis.ValueDefinitions.{
  FunctionValueDefinitions, ValueDefinition, instruction, get_definition,
}
use mavros.Ssa.Dict.{Dict, get}
use mavros.Ssa.Constant.{Constant}
use mavros.Ssa.Op.{
  OpCode, eq, cmp, binary_arith_op, cast, not_op, bit_range, select, value_of, write_witness,
  mul_const,
}
use mavros.Ssa.BiMap.{BiMap}
use mavros.Passes.Simplifier.{
  Program, Attempt, replace, to_alias, no_rewrite, is_zero, is_one, is_all_ones, const_as_usize,
  materialize_zero, materialize_one, cast_target_eq,
}

module _ {F : Field} {bimap : BiMap (Constant F)} where
  unfoldable pub try_add : (result lhs rhs : ℕ) → Program bimap → Attempt bimap
  unfolding is_zero
  try_add result lhs rhs s =
      if is_zero s lhs
      then to_alias result rhs s
      else if is_zero s rhs
      then to_alias result lhs s
      else no_rewrite s

  unfoldable pub try_sub : Dict TypeExpr → (result lhs rhs : ℕ) → Program bimap → Attempt bimap
  unfolding is_zero materialize_zero
  try_sub types result lhs rhs s =
      if is_zero s rhs
      then to_alias result lhs s
      else if lhs == rhs
      then materialize_zero types result s
      else no_rewrite s

  unfoldable pub try_mul : (result lhs rhs : ℕ) → Program bimap → Attempt bimap
  unfolding is_zero is_one
  try_mul result lhs rhs s =
      if is_zero s lhs
      then to_alias result lhs s
      else if is_zero s rhs
      then to_alias result rhs s
      else if is_one s lhs
      then to_alias result rhs s
      else if is_one s rhs
      then to_alias result lhs s
      else no_rewrite s

  unfoldable pub try_div : (result lhs rhs : ℕ) → Program bimap → Attempt bimap
  unfolding is_one
  try_div result lhs rhs s = if is_one s rhs then to_alias result lhs s else no_rewrite s

  -- The last two tests of the arm of `And`, which may panic.
  unfoldable pub try_all_ones : (result lhs rhs : ℕ) → Program bimap → Attempt bimap
  unfolding is_all_ones
  try_all_ones result lhs rhs s = do
    left ← is_all_ones s lhs
    if left
        then to_alias result rhs s
        else is_all_ones s rhs >>= (λ right. if right then to_alias result lhs s else no_rewrite s)

  unfoldable pub try_and : (result lhs rhs : ℕ) → Program bimap → Attempt bimap
  unfolding is_zero try_all_ones
  try_and result lhs rhs s =
      if is_zero s lhs
      then to_alias result lhs s
      else if is_zero s rhs
      then to_alias result rhs s
      else if lhs == rhs
      then to_alias result lhs s
      else try_all_ones result lhs rhs s

  unfoldable pub try_or : (result lhs rhs : ℕ) → Program bimap → Attempt bimap
  unfolding is_zero
  try_or result lhs rhs s =
      if is_zero s lhs
      then to_alias result rhs s
      else if is_zero s rhs
      then to_alias result lhs s
      else if lhs == rhs
      then to_alias result lhs s
      else no_rewrite s

  unfoldable pub try_xor : Dict TypeExpr → (result lhs rhs : ℕ) → Program bimap → Attempt bimap
  unfolding is_zero materialize_zero
  try_xor types result lhs rhs s =
      if is_zero s lhs
      then to_alias result rhs s
      else if is_zero s rhs
      then to_alias result lhs s
      else if lhs == rhs
      then materialize_zero types result s
      else no_rewrite s

  unfoldable pub try_shl : (result lhs rhs : ℕ) → Program bimap → Attempt bimap
  unfolding is_zero
  try_shl result lhs rhs s = if is_zero s rhs then to_alias result lhs s else no_rewrite s

  -- A shift of an unsigned value by less than its width reads a range of its digits.
  unfoldable pub shift_range : (result lhs offset : ℕ) → TypeExpr → Program bimap → Attempt bimap
  shift_range result lhs offset (u bits) s =
      if ltb offset bits
      then some (some (replace (bit_range result lhs offset (bits - offset) ∷ [])), s)
      else no_rewrite s
  shift_range result lhs offset _ s = no_rewrite s

  unfoldable pub shift_const :
      Dict TypeExpr → (result lhs : ℕ) → Option ℕ → Program bimap → Attempt bimap
  unfolding shift_range strip_witness
  shift_const types result lhs none s = no_rewrite s
  shift_const types result lhs (some offset) s = do
    ty ← get lhs types
    shift_range result lhs offset (strip_witness ty) s

  unfoldable pub try_shr : Dict TypeExpr → (result lhs rhs : ℕ) → Program bimap → Attempt bimap
  unfolding is_zero shift_const const_as_usize
  try_shr types result lhs rhs s =
      if is_zero s rhs
      then to_alias result lhs s
      else shift_const types result lhs (const_as_usize s rhs) s

  unfoldable pub try_binary :
      Dict TypeExpr → BinaryArithOpKind → (result lhs rhs : ℕ) → Program bimap → Attempt bimap
  unfolding try_add try_sub try_mul try_div try_and try_or try_xor try_shl try_shr
  try_binary types add_op result lhs rhs s = try_add result lhs rhs s
  try_binary types sub_op result lhs rhs s = try_sub types result lhs rhs s
  try_binary types mul_op result lhs rhs s = try_mul result lhs rhs s
  try_binary types div_op result lhs rhs s = try_div result lhs rhs s
  try_binary types and_op result lhs rhs s = try_and result lhs rhs s
  try_binary types or_op result lhs rhs s = try_or result lhs rhs s
  try_binary types xor_op result lhs rhs s = try_xor types result lhs rhs s
  try_binary types shl_op result lhs rhs s = try_shl result lhs rhs s
  try_binary types shr_op result lhs rhs s = try_shr types result lhs rhs s
  try_binary types mod_op result lhs rhs s = no_rewrite s

  unfoldable pub try_mul_const : (result const_val var : ℕ) → Program bimap → Attempt bimap
  unfolding is_zero is_one
  try_mul_const result const_val var s =
      if is_zero s const_val
      then to_alias result const_val s
      else if is_one s const_val
      then to_alias result var s
      else no_rewrite s

  -- A cast of a cast to the same target.
  unfoldable pub try_cast_again :
      (result value : ℕ) → CastTarget → Option ValueDefinition → Program bimap → Attempt bimap
  unfolding cast_target_eq
  try_cast_again result value target (some (instruction _ _ (cast _ _ inner_target))) s =
      if cast_target_eq inner_target target then to_alias result value s else no_rewrite s
  try_cast_again result value target _ s = no_rewrite s

  unfoldable pub try_cast :
      (result value : ℕ) → CastTarget → Option ValueDefinition → Program bimap → Attempt bimap
  unfolding try_cast_again
  try_cast result value nop definition s = to_alias result value s
  try_cast result value target definition s = try_cast_again result value target definition s

  unfoldable pub try_not : (result : ℕ) → Option ValueDefinition → Program bimap → Attempt bimap
  try_not result (some (instruction _ _ (not_op _ inner))) s = to_alias result inner s
  try_not result _ s = no_rewrite s

  unfoldable pub try_value_of :
      (result value : ℕ) → Option ValueDefinition → Program bimap → Attempt bimap
  try_value_of result value (some (instruction _ _ (value_of _ _))) s = to_alias result value s
  try_value_of result value (some (instruction _ _ (write_witness _ hint _))) s =
      to_alias result hint s
  try_value_of result value _ s = no_rewrite s

  unfoldable pub try_write_witness :
      (result : ℕ) → Option ValueDefinition → Program bimap → Attempt bimap
  try_write_witness result (some (instruction _ _ (value_of _ inner))) s = to_alias result inner s
  try_write_witness result _ s = no_rewrite s

  -- The whole width, asked of the type only where the offset is 0.
  unfoldable pub try_bit_range :
      Dict TypeExpr → (result value offset width : ℕ) → Program bimap → Attempt bimap
  unfolding get_bit_size
  try_bit_range types result value offset width s =
      if offset == 0
      then get value types
        >>= get_bit_size
        >>= (λ size. if width == size then to_alias result value s else no_rewrite s)
      else no_rewrite s

  unfoldable pub try_algebraic :
      FunctionValueDefinitions → Dict TypeExpr → OpCode → Program bimap → Attempt bimap
  unfolding try_binary try_mul_const try_cast try_not try_bit_range materialize_one try_value_of
      try_write_witness
  try_algebraic defs types (binary_arith_op kind result lhs rhs) s =
      try_binary types kind result lhs rhs s
  try_algebraic defs types (mul_const result const_val var) s = try_mul_const result const_val var s
  try_algebraic defs types (cast result value target) s =
      try_cast result value target (get_definition value defs) s
  try_algebraic defs types (not_op result value) s = try_not result (get_definition value defs) s
  try_algebraic defs types (select result cond if_t if_f) s =
      if if_t == if_f then to_alias result if_t s else no_rewrite s
  try_algebraic defs types (bit_range result value offset width) s =
      try_bit_range types result value offset width s
  try_algebraic defs types (cmp eq result lhs rhs) s =
      if lhs == rhs then materialize_one types result s else no_rewrite s
  try_algebraic defs types (value_of result value) s =
      try_value_of result value (get_definition value defs) s
  try_algebraic defs types (write_witness (some result) value false) s =
      try_write_witness result (get_definition value defs) s
  try_algebraic defs types _ s = no_rewrite s
