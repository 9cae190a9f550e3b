-- ===== src/Store/Migrations.antt =====
-- internal/store/store.go: the schema migrations. The versions that are done are rows of
-- `schema_migrations`; `log` is every migration that was executed, in order,
-- number 0, which creates that table, among them.
use slo_sentinel.Prelude.{
  ℕ, zero, suc, ◌≡◌, refl, Bool, true, false, ◌||◌, not, List, [], ◌∷◌, ◌++◌, arith, ◌==◌,
  if◌then◌else◌, Result, ok, err,
}

pub record Database : Type 0 where
  pub versions : List ℕ
  pub log : List ℕ

abbrev pub mem : ℕ → List ℕ → Bool
mem n [] = false
mem n (m ∷ ms) = n == m || mem n ms

pub data MigrateError : Type 0 where
  not_created : MigrateError
  not_asked statement_failed not_recorded : ℕ → MigrateError

-- What the database does in one run: whether it creates the table of versions and, for each
-- migration, whether it answers if that is done, executes it, and takes the row that says so.
pub record Replies : Type 0 where
  pub creates : Bool
  pub answers : ℕ → Bool
  pub executes : ℕ → Bool
  pub records : ℕ → Bool

abbrev pub with_row : ℕ → Database → Database
with_row i db = record { versions = i ∷ db.versions; log = db.log ++ i ∷ [] }

-- The loop of `migrate` with `todo` migrations from number `i` on. A failure keeps what was done
-- before it, also a migration that was executed and not recorded.
unfoldable pub migrate_from : Replies → ℕ → ℕ → Database → Result MigrateError (Unit {0}) × Database
migrate_from r i zero db = (ok tt, db)
migrate_from r i (suc todo) db =
    let skip = migrate_from r (suc i) todo db in
    let done = migrate_from r (suc i) todo (with_row i db) in
    if not (r.answers i)
    then (err (not_asked i), db)
    else if mem i db.versions
    then skip
    else if not (r.executes i)
    then (err (statement_failed i), db)
    else if not (r.records i)
    then (err (not_recorded i), record db { log = db.log ++ i ∷ [] })
    else done

abbrev pub created : Database → Database
created db = record db { log = db.log ++ 0 ∷ [] }

-- `migrate`, for a list of `count` migrations after number 0, which is executed at every run.
unfoldable pub migrate : Replies → ℕ → Database → Result MigrateError (Unit {0}) × Database
migrate r count db =
    let rest = migrate_from r 1 count (created db) in
    if not r.creates then (err not_created, db) else rest

-- Every migration from `i` on is done.
abbrev pub AllDone : ℕ → ℕ → List ℕ → Type 0
AllDone i zero vs = Unit {0}
AllDone i (suc todo) vs = (mem i vs ≡ true) × AllDone (suc i) todo vs

migrate_from_keeps :
    (r : Replies) (i todo n : ℕ) (db : Database)
    → mem n db.versions ≡ true
    → mem n (migrate_from r i todo db).1.versions ≡ true
unfolding migrate_from
migrate_from_keeps r i zero n db h = h
migrate_from_keeps r i (suc todo) n db h = ground (
  arith,
  migrate_from_keeps r (suc i) todo n db,
  migrate_from_keeps r (suc i) todo n (with_row i db),
)

migrate_from-AllDone :
    (r : Replies) (i todo : ℕ) (db : Database)
    → (migrate_from r i todo db).0 ≡ ok tt
    → AllDone i todo (migrate_from r i todo db).1.versions
unfolding migrate_from
migrate_from-AllDone r i zero db h = tt
migrate_from-AllDone r i (suc todo) db h =
    let here : mem i (i ∷ db.versions) ≡ true = ground arith in
    ground (
      arith,
      migrate_from-AllDone r (suc i) todo db,
      migrate_from-AllDone r (suc i) todo (with_row i db),
      migrate_from_keeps r (suc i) todo i db,
      migrate_from_keeps r (suc i) todo i (with_row i db),
    )

-- The database answers for every migration from `i` on.
abbrev pub AllAnswered : (ℕ → Bool) → ℕ → ℕ → Type 0
AllAnswered answers i zero = Unit {0}
AllAnswered answers i (suc todo) = (answers i ≡ true) × AllAnswered answers (suc i) todo

AllDone-migrate_from :
    (r : Replies) (i todo : ℕ) (db : Database)
    → AllAnswered r.answers i todo
    → AllDone i todo db.versions
    → migrate_from r i todo db ≡ (ok tt, db)
unfolding migrate_from
AllDone-migrate_from r i zero db w a = refl
AllDone-migrate_from r i (suc todo) db w a =
    rw (w.0, a.0) (AllDone-migrate_from r (suc i) todo db w.1 a.1)

-- Once `migrate` has succeeded, every migration is done, and a later run in which the database
-- creates the table of versions and answers what is done succeeds too, changes no version, and
-- executes nothing but that creation, whatever else the database would then refuse.
pub migrate_idem :
    (r later : Replies) (count : ℕ) (db : Database)
    → (migrate r count db).0 ≡ ok tt
    → later.creates ≡ true
    → AllAnswered later.answers 1 count
    → AllDone 1 count (migrate r count db).1.versions
      × (migrate later count (migrate r count db).1 ≡ (ok tt, created (migrate r count db).1))
unfolding migrate migrate_from
migrate_idem r later count db h c w =
    let goes : r.creates ≡ true = ground arith in
    let done : (migrate_from r 1 count (created db)).0 ≡ ok tt = ground (arith, goes) in
    let all = migrate_from-AllDone r 1 count (created db) done in
    rw (goes, c)
      (
        all,
        AllDone-migrate_from later 1 count (created (migrate_from r 1 count (created db)).1) w all,
      )
