-- ===== src/Store/Open.antt =====
-- internal/store/store.go: Open and migrate. The database of a path is a file, which the driver
-- reads and writes.
use doevoe.Base.{
  if◌then◌else◌, Text, Bool, true, false, Option, none, some, List, [], ◌∷◌, codes, contains,
}
pub mod Twice

-- The schema, and ALTER TABLE emails ADD COLUMN of a name.
pub data Ddl : Type 0 where
  schema : Ddl
  add_column : Text → Ddl

-- sql.Open of a path, and Exec of a statement on a connection: the error, if any, and the file.
pub record Driver (File : Type 0) : Type 0 where
  pub connect : Text → Option Text
  pub exec : Ddl → File → Option Text × File

-- The error that Open returns, the file, and whether the connection is open.
pub record Opening (File : Type 0) : Type 0 where
  pub error : Option Text
  pub file : File
  pub is_open : Bool

abbrev pub additive : List Ddl
additive = add_column (codes "from_name") ∷ add_column (codes "to_name") ∷ []

-- The error that migrate ignores; its text has more around these words, such as the column.
abbrev pub is_duplicate : Text → Bool
is_duplicate message = contains message (codes "duplicate column name")

abbrev pub is_fatal : Option Text → Bool
is_fatal none = false
is_fatal (some message) = if is_duplicate message then false else true

module _ {File : Type 0} (d : Driver File) where
  unfoldable pub migrate : List Ddl → File → Option Text × File
  migrate [] f = (none, f)
  migrate (stmt ∷ stmts) f =
      let (e, g) = d.exec stmt f in
      let rest = migrate stmts g in if is_fatal e then (e, g) else rest

  -- Both failures of Open close the connection.
  abbrev pub migrated : Option Text × File → Opening File
  migrated (none, f) = record { error = none; file = f; is_open = true }
  migrated (some e, f) = record { error = some e; file = f; is_open = false }

  abbrev pub with_schema : Option Text × File → Opening File
  with_schema (none, f) = migrated (migrate additive f)
  with_schema (some e, f) = record { error = some e; file = f; is_open = false }

  abbrev pub connected : Option Text → File → Opening File
  connected none f = with_schema (d.exec schema f)
  connected (some e) f = record { error = some e; file = f; is_open = false }

  unfoldable pub open_store : Text → File → Opening File
  open_store path f = connected (d.connect path) f
