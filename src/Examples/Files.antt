-- ===== src/Examples/Files.antt =====
-- A database as the columns of its table emails, opened from one made before the columns of names.
use doevoe.Base.{
  ◌≡◌, refl, Text, Bool, true, false, none, some, codes, text_eq, text_eq_refl, ◌||◌, if◌then◌else◌,
  Bool-cases, inl, inr, ◌++◌, contains_between,
}
use doevoe.Store.Open.{Ddl, schema, add_column, Driver, migrate, open_store, is_duplicate}
use doevoe.Store.Open.Twice.{IsSqlite, open_store-twice}

abbrev Columns : Type 0
Columns = Text → Bool

-- The text of the driver's error, with the column that is there already.
abbrev duplicate_of : Text → Text
duplicate_of c =
    codes "SQL logic error: "
    ++ (codes "duplicate column name" ++ (codes ": " ++ c ++ codes " (1)"))

abbrev driver : Driver Columns
driver = record {
  connect = λ path. none;
  exec = λ stmt f. elim stmt [
    | schema ↦ (none, f)
    | add_column c ↦ if f c then (some (duplicate_of c), f) else (none, λ x. text_eq x c || f x)
  ];
}

abbrev has : Text → Columns → Bool
has c f = f c

or_true : (b : Bool) → (b || true) ≡ true
or_true true = refl
or_true false = refl

driver-IsSqlite : IsSqlite driver has
driver-IsSqlite = record {
  kept = kept;
  added = added;
  duplicate = duplicate;
  refused = λ c f there. (
    duplicate_of c,
    rw there refl,
    contains_between (codes "SQL logic error: ") (codes "duplicate column name")
        (codes ": " ++ c ++ codes " (1)"),
  );
}
  where
    kept : (stmt : Ddl) (c : Text) (f : Columns) → f c ≡ true → (driver.exec stmt f).1 c ≡ true
    kept schema c f h = h
    kept (add_column d) c f h = elim (Bool-cases (f d)) [
      | inl there ↦ rw there h
      | inr new ↦ rw new (rw h (or_true (text_eq c d)))
    ]

    added :
        (c : Text) (f : Columns)
        → (driver.exec (add_column c) f).0 ≡ none
        → (driver.exec (add_column c) f).1 c ≡ true
    added c f h = elim (Bool-cases (f c)) [
      | inl there ↦ let e = rw there at h in cc
      | inr new ↦ rw new (rw (text_eq_refl c) refl)
    ]

    duplicate :
        (c m : Text) (f : Columns)
        → (driver.exec (add_column c) f).0 ≡ some m
        → is_duplicate m ≡ true
        → f c ≡ true
    duplicate c m f h d = elim (Bool-cases (f c)) [
      | inl there ↦ there
      | inr new ↦ let e = rw new at h in cc
    ]

-- A database made before the columns of names.
abbrev old_columns : Columns
old_columns c = text_eq c (codes "status")

open_store-twice_example :
    ((open_store driver (codes "doevoe.db") old_columns).file (codes "from_name") ≡ true)
    × ((open_store driver (codes "doevoe.db") old_columns).file (codes "to_name") ≡ true)
    × (open_store driver
          (codes "doevoe.db")
          (open_store driver (codes "doevoe.db") old_columns).file
        ≡ record {
          error = none;
          file = (driver.exec schema (open_store driver (codes "doevoe.db") old_columns).file).1;
          is_open = true;
        })
unfolding open_store migrate
open_store-twice_example =
    open_store-twice driver has driver-IsSqlite (codes "doevoe.db") old_columns refl refl
