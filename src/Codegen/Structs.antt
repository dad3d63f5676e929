-- ===== src/Codegen/Structs.antt =====
-- `StructLayoutInterner` (compiler/src/compiler/codegen/bytecode/layout.rs): the table of the struct
-- shapes of a program. A panic is `none`.
mod Shared
mod Tests
use mavros.Prelude.{
  ℕ, Bool, true, false, ◌&&◌, Option, none, some, List, [], ◌∷◌, ◌++◌, ◌==◌, if◌then◌else◌, length,
}
use mavros.Types.{◌>>=◌}
use mavros.Vm.Layout.{StructDescriptor, new_descriptor}

abbrev pub Fields : Type 0
Fields = List (ℕ × Bool)

-- The equality of keys.
unfoldable pub flag_eq : Bool → Bool → Bool
flag_eq true b = b
flag_eq false true = false
flag_eq false false = true

unfoldable pub fields_eq : Fields → Fields → Bool
unfolding flag_eq
fields_eq [] [] = true
fields_eq ((x, p) ∷ xs) ((y, q) ∷ ys) = x == y && (flag_eq p q && fields_eq xs ys)
fields_eq _ _ = false

pub record StructLayoutInterner : Type 0 where
  pub table : List StructDescriptor
  pub index : List (Fields × ℕ)

abbrev pub new_interner : StructLayoutInterner
new_interner = record { table = []; index = [] }

-- `HashMap::get` on the index.
unfoldable pub index_of : Fields → List (Fields × ℕ) → Option ℕ
unfolding fields_eq
index_of fields [] = none
index_of fields ((key, n) ∷ rest) = if fields_eq fields key then some n else index_of fields rest

-- A key that is not there is put in front.
unfoldable pub intern : Fields → StructLayoutInterner → Option (ℕ × StructLayoutInterner)
unfolding index_of
intern fields s = elim (index_of fields (s.index)) [
  | some n ↦ some (n, s)
  | none ↦ do
    descriptor ← new_descriptor fields
    some (
      length (s.table),
      record { table = s.table ++ descriptor ∷ []; index = (fields, length (s.table)) ∷ s.index },
    )
]
