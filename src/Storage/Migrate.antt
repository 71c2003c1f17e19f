-- ===== src/Storage/Migrate.antt =====
-- crates/mirrorlane-storage/src/sqlite_common.rs: the schema migrations. A step and the version that it
-- stamps are one transaction: `exec` runs a step against a database and either fails, which leaves
-- the database as it was, or commits.
pub mod Resumes
use mirrorlane.Base.{ℕ, suc, Bool, true, false, Option, none, some, List, [], ◌∷◌, if◌then◌else◌}
use mirrorlane.Base.Number.{ltb}

-- A database and its `user_version`
pub record Schema (Db : Type 0) : Type 0 where
  pub db : Db
  pub user_version : ℕ

-- `rusqlite::Result<()>`
pub data MigrateResult : Type 0 where
  migrated sql_error : MigrateResult

module _ {Step Db : Type 0} (exec : Step → Db → Option Db) where
  -- The loop over `steps`, from the step of index `i`; `current` was read before it.
  unfoldable pub migrate_from : ℕ → ℕ → List Step → Schema Db → MigrateResult × Schema Db
  migrate_from current i [] s = (migrated, s)
  migrate_from current i (step ∷ steps) s =
      if ltb i current then migrate_from current (suc i) steps s else elim (exec step s.db) [
        | none ↦ (sql_error, s)
        | some db ↦ migrate_from current (suc i) steps (record { db = db; user_version = suc i })
      ]

  unfoldable pub migrate : List Step → Schema Db → MigrateResult × Schema Db
  unfolding migrate_from
  migrate steps s = migrate_from s.user_version 0 steps s
