-- ===== src/Storage/Migrate/Resumes.antt =====
-- What the migrations of crates/mirrorlane-storage/src/sqlite_common.rs leave, with and without an error.
use mirrorlane.Base.{
  ℕ, suc, ◌+◌, ◌≤◌, ◌≡◌, refl, inl, inr, true, Option, List, [], ◌∷◌, arith, Option-cases,
  Bool-cases,
}
use mirrorlane.Base.Lists.{length}
use mirrorlane.Base.Number.{ltb, max_ℕ}
use mirrorlane.Storage.Migrate.{Schema, migrated, migrate_from, migrate}

module _ {Step Db : Type 0} (exec : Step → Db → Option Db) where
  -- A database at or past the last step is left alone.
  migrate_from-done :
      (current i : ℕ) (steps : List Step) (s : Schema Db)
      → i + length steps ≤ current
      → migrate_from exec current i steps s ≡ (migrated, s)
  unfolding migrate_from
  migrate_from-done current i [] s h = refl
  migrate_from-done current i (step ∷ steps) s h =
      let before : ltb i current ≡ true = ground arith in
      rw (before, migrate_from) (migrate_from-done current (suc i) steps s (omega arith))

module _ {Step Db : Type 0} (exec : Step → Db → Option Db) where
  -- How a run of the loop ends: with every version stamped, or at the step that failed.
  migrate_from-ends :
      (current i n : ℕ) (steps : List Step) (s : Schema Db)
      → i + length steps ≡ n
      → s.user_version ≡ max_ℕ current i
      → ((migrate_from exec current i steps s).0 ≡ migrated
          → ((migrate_from exec current i steps s).1.user_version ≡ max_ℕ current n))
  unfolding migrate_from
  migrate_from-ends current i n [] s e v h = ground arith
  migrate_from-ends current i n (step ∷ steps) s e v h = elim (Bool-cases (ltb i current)) [
    | inl b ↦
        rw (b, migrate_from)
          (migrate_from-ends current (suc i) n steps s (omega arith) (ground arith)
            (rw (b, migrate_from) at h))
    | inr b ↦ elim (Option-cases (exec step s.db)) [
      | inl q ↦ absurd (ground (arith, b, q))
      | inr (db, q) ↦
          rw (b, q, migrate_from)
            (migrate_from-ends current (suc i) n steps (record { db = db; user_version = suc i })
              (omega arith) (ground arith) (rw (b, q, migrate_from) at h))
    ]
  ]

  -- A migration that reports success leaves the version at the number of steps, or where it was past
  -- them; opening the database again, whatever its steps would now do, runs none of them.
  pub migrate-again :
      (steps : List Step) (s : Schema Db)
      → (migrate exec steps s).0 ≡ migrated
      → ((migrate exec steps s).1.user_version ≡ max_ℕ s.user_version (length steps))
        × ((retry : Step → Db → Option Db)
            → migrate retry steps (migrate exec steps s).1 ≡ (migrated, (migrate exec steps s).1))
  unfolding migrate
  migrate-again steps s h =
      let stamped =
        migrate_from-ends s.user_version 0 (length steps) steps s (omega arith) (ground arith) h in
      (
        stamped,
        λ retry.
            migrate_from-done retry (migrate exec steps s).1.user_version 0 steps
              (migrate exec steps s).1 (rw stamped (ground arith)),
      )
