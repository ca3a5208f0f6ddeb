-- ===== src/Store/Open/Twice.antt =====
-- Open adds the columns that a database lacks, and does nothing to one that has them.
use doevoe.Base.{
  All, ◌≡◌, ◌≢◌, refl, sym, ap, ◌∙◌, subst, Text, Bool, true, false, Option, none, some, List, [],
  ◌∷◌, codes, Bool-cases, inl, inr,
}
use doevoe.Store.Open.{
  Ddl, schema, add_column, Driver, additive, is_duplicate, is_fatal, migrate, migrated, with_schema,
  connected, open_store,
}

-- What SQLite documents of these statements, of a test whether the table emails has a column.
pub record IsSqlite {File : Type 0} (d : Driver File) (has : Text → File → Bool) : Type 0 where
  pub kept : (stmt : Ddl) (c : Text) (f : File) → has c f ≡ true → has c (d.exec stmt f).1 ≡ true
  pub added :
      (c : Text) (f : File)
      → (d.exec (add_column c) f).0 ≡ none
      → has c (d.exec (add_column c) f).1 ≡ true
  pub duplicate :
      (c m : Text) (f : File)
      → (d.exec (add_column c) f).0 ≡ some m
      → is_duplicate m ≡ true
      → has c f ≡ true
  pub refused :
      (c : Text) (f : File)
      → has c f ≡ true
      → (m : Text) × (d.exec (add_column c) f ≡ (some m, f)) × (is_duplicate m ≡ true)

module _ {File : Type 0} (d : Driver File) (has : Text → File → Bool)
    (sqlite : IsSqlite d has) where
  abbrev Present : File → Ddl → Type 0
  Present f schema = Unit
  Present f (add_column c) = has c f ≡ true

  kept-Present : (stmt s : Ddl) (f : File) → Present f s → Present (d.exec stmt f).1 s
  kept-Present stmt schema f p = tt
  kept-Present stmt (add_column c) f p = sqlite.kept stmt c f p

  -- A column is there after its ALTER, unless that failed for another reason.
  exec-Present :
      (stmt : Ddl) (f : File) → is_fatal (d.exec stmt f).0 ≡ false → Present (d.exec stmt f).1 stmt
  exec-Present schema f passed = tt
  exec-Present (add_column c) f passed = of_error (d.exec (add_column c) f).0 refl passed
    where
      of_error :
          (o : Option Text)
          → (d.exec (add_column c) f).0 ≡ o
          → is_fatal o ≡ false
          → has c (d.exec (add_column c) f).1 ≡ true
      of_error none fine h = sqlite.added c f fine
      of_error (some m) failed h = elim (Bool-cases (is_duplicate m)) [
        | inl dup ↦ sqlite.kept (add_column c) c f (sqlite.duplicate c m f failed dup)
        | inr other ↦ absurd (cc (h, other))
      ]

  migrate-kept :
      (stmts : List Ddl) (s : Ddl) (f : File) → Present f s → Present (migrate d stmts f).1 s
  unfolding migrate
  migrate-kept [] s f p = p
  migrate-kept (stmt ∷ stmts) s f p = elim (Bool-cases (is_fatal (d.exec stmt f).0)) [
    | inl fatal ↦ rw fatal (kept-Present stmt s f p)
    | inr passed ↦ rw passed (migrate-kept stmts s (d.exec stmt f).1 (kept-Present stmt s f p))
  ]

  migrate-passed :
      (stmt : Ddl) (stmts : List Ddl) (f : File)
      → is_fatal (d.exec stmt f).0 ≡ false
      → migrate d (stmt ∷ stmts) f ≡ migrate d stmts (d.exec stmt f).1
  unfolding migrate
  migrate-passed stmt stmts f passed = rw passed refl

  not_none : (o : Option Text) → is_fatal o ≡ true → o ≢ none
  not_none none h e = cc
  not_none (some m) h e = cc

  migrate-Present :
      (stmts : List Ddl) (f : File)
      → (migrate d stmts f).0 ≡ none
      → All (Present (migrate d stmts f).1) stmts
  unfolding migrate
  migrate-Present [] f fine = tt
  migrate-Present (stmt ∷ stmts) f fine = elim (Bool-cases (is_fatal (d.exec stmt f).0)) [
    | inl fatal ↦ absurd (not_none (d.exec stmt f).0 fatal (rw fatal at fine))
    | inr passed ↦
        subst (λ (r : Option Text × File). Present r.1 stmt × All (Present r.1) stmts)
          (sym (migrate-passed stmt stmts f passed))
          (
            migrate-kept stmts stmt (d.exec stmt f).1 (exec-Present stmt f passed),
            migrate-Present stmts (d.exec stmt f).1 (rw passed at fine),
          )
  ]

  -- A migration of a file that has the columns leaves it as it is.
  migrate-again :
      (stmts : List Ddl) (f : File)
      → All (λ s. (c : Text) × (s ≡ add_column c) × (has c f ≡ true)) stmts
      → migrate d stmts f ≡ (none, f)
  unfolding migrate
  migrate-again [] f h = refl
  migrate-again (stmt ∷ stmts) f ((c, is_alter, there), h) =
      let (m, failed, dup) = sqlite.refused c f there in
      rw (is_alter, failed, dup) (migrate-again stmts f h)

  of_migrated :
      (r : Option Text × File) → (migrated d r).error ≡ none → r ≡ (none, (migrated d r).file)
  of_migrated (none, f) h = refl
  of_migrated (some e, f) h = cc

  of_schema :
      (r : Option Text × File)
      → (with_schema d r).error ≡ none
      → (g : File) × (migrate d additive g ≡ (none, (with_schema d r).file))
  of_schema (none, g) h = (g, of_migrated (migrate d additive g) h)
  of_schema (some e, f) h = cc

  -- Without an error, Open has connected, and migrated a file to the one that it leaves.
  of_connected :
      (o : Option Text) (f : File)
      → (connected d o f).error ≡ none
      → (o ≡ none) × (g : File) × (migrate d additive g ≡ (none, (connected d o f).file))
  of_connected none f h = let (g, m) = of_schema (d.exec schema f) h in (refl, g, m)
  of_connected (some e) f h = cc

  of_schema_again :
      (r : Option Text × File)
      → r.0 ≡ none
      → migrate d additive r.1 ≡ (none, r.1)
      → with_schema d r ≡ record { error = none; file = r.1; is_open = true }
  of_schema_again (none, f) h m = ap (migrated d) m
  of_schema_again (some e, f) h m = cc

  -- If SQLite adds a column when its ALTER gives no error, refuses it with the error of a duplicate
  -- exactly if the column is there, and removes no column, then after an Open without an error the
  -- emails have both columns of names, and, if the schema runs again without an error, a second
  -- Open of the same path opens the store with the file exactly as the schema leaves it.
  pub open_store-twice :
      (path : Text) (f : File)
      → (open_store d path f).error ≡ none
      → (d.exec schema (open_store d path f).file).0 ≡ none
      → (has (codes "from_name") (open_store d path f).file ≡ true)
        × (has (codes "to_name") (open_store d path f).file ≡ true)
        × (open_store d path (open_store d path f).file ≡ record {
          error = none;
          file = (d.exec schema (open_store d path f).file).1;
          is_open = true;
        })
  unfolding open_store
  open_store-twice path f fine again =
      let (connects, g, m) = of_connected (d.connect path) f fine in
      let t = (connected d (d.connect path) f).file in
      let (from_name, (to_name, u)) =
        subst (λ (r : Option Text × File). All (Present r.1) additive) m
          (migrate-Present additive g (ap (λ (r : Option Text × File). r.0) m)) in
      (
        from_name,
        to_name,
        ap (λ o. connected d o t) connects
            ∙ of_schema_again (d.exec schema t) again (
                migrate-again additive (d.exec schema t).1 (
                  (codes "from_name", refl, sqlite.kept schema (codes "from_name") t from_name),
                  ((codes "to_name", refl, sqlite.kept schema (codes "to_name") t to_name), tt),
                )),
      )
