-- ===== src/Database/Session.antt =====
-- A transaction of app/db/session.py: it reads and writes the database, and may raise. What it wrote
-- before it raised is there until the session is rolled back.
use syn_koala.Prelude.{
  Bool, true, false, Option, none, some, Result, ok, err, ok-injective, ◌≡◌, refl, sym, subst, ap,
}

-- What the services raise (app/core/errors.py), a payload's missing key or wrong value, a value without a
-- hash, a row that others refer to, and what the simulation raises.
pub data ServiceError : Type 0 where
  not_found lifecycle_error payload_error value_error type_error integrity_error simulation_error
        no_handler :
      ServiceError

abbrev pub Tx : Type 0 → Type 0 → Type 0
Tx D A = D → D × Result ServiceError A

module _ {D A B : Type 0} where
  abbrev pub resume : D × Result ServiceError A → (A → Tx D B) → D × Result ServiceError B
  resume (db, ok a) after = after a db
  resume (db, err e) after = (db, err e)

  -- After what returned, the rest runs in the database that it left.
  pub resume-ok :
      (r : D × Result ServiceError A) (after : A → Tx D B) (a : A)
      → r.1 ≡ ok a
      → resume r after ≡ after a r.0
  resume-ok (db, ok b) after a h = ap (λ x. after x db) (ok-injective b a h)
  resume-ok (db, err e) after a h = cc

  infixl 5 ◌>>=◌ ◌>>◌
  abbrev pub ◌>>=◌ : Tx D A → (A → Tx D B) → Tx D B
  (m >>= after) db = resume (m db) after

  abbrev pub ◌>>◌ : Tx D A → Tx D B → Tx D B
  (m >> after) db = resume (m db) (λ _. after)

module _ {D A : Type 0} where
  abbrev pub return : A → Tx D A
  return a db = (db, ok a)

  abbrev pub raise : ServiceError → Tx D A
  raise e db = (db, err e)

  -- A look-up, or the error that the service raises where it finds nothing.
  abbrev pub found_or : ServiceError → Option A → Tx D A
  found_or e none db = (db, err e)
  found_or e (some a) db = (db, ok a)

  abbrev pub read : (D → A) → Tx D A
  read query db = (db, ok (query db))

  -- The end of a request's session: it commits where the use case returned, and rolls back where it
  -- raised.
  abbrev pub close : D → D × Result ServiceError A → D × Result ServiceError A
  close before (db, ok a) = (db, ok a)
  close before (db, err e) = (before, err e)

  unfoldable pub request : Tx D A → Tx D A
  request m db = close db (m db)

module _ {D : Type 0} where
  abbrev pub write : (D → D) → Tx D (Unit {0})
  write change db = (change db, ok tt)

  -- `if not test: raise e`
  abbrev pub require : ServiceError → Bool → Tx D (Unit {0})
  require e true db = (db, ok tt)
  require e false db = (db, err e)

-- What every call keeps, a transaction keeps.
pub resume-keeps :
    {D A B : Type 0} (P : D → Type 0) (r : D × Result ServiceError A) (after : A → Tx D B)
    → P r.0
    → ((x : A) (db : D) → P db → P (after x db).0)
    → P (resume r after).0
resume-keeps P (db, ok x) after h keeps = keeps x db h
resume-keeps P (db, err e) after h keeps = h

-- A step that keeps `P`, and a rest that leads from `P` to `Q`, where `P` is enough for `Q`.
pub resume-leads :
    {D A B : Type 0} (P Q : D → Type 0) (r : D × Result ServiceError A) (after : A → Tx D B)
    → ((db : D) → P db → Q db)
    → P r.0
    → ((x : A) (db : D) → P db → Q (after x db).0)
    → Q (resume r after).0
resume-leads P Q (db, ok x) after stop h leads = leads x db h
resume-leads P Q (db, err e) after stop h leads = stop db h

-- A step that leaves the database as it is: what follows, follows in the same database.
pub resume-passes :
    {D A B : Type 0} (Q : D × Result ServiceError B → Type 0) (db : D)
    (r : D × Result ServiceError A) (after : A → Tx D B)
    → r.0 ≡ db
    → ((e : ServiceError) → Q (db, err e))
    → ((x : A) → r.1 ≡ ok x → Q (after x db))
    → Q (resume r after)
resume-passes Q db (mid, ok x) after same stop goes =
    subst (λ d. Q (after x d)) (sym same) (goes x refl)
resume-passes Q db (mid, err e) after same stop goes = subst (λ d. Q (d, err e)) (sym same) (stop e)

-- A look-up and a guard leave the database as it is.
pub found_or-same :
    {D A : Type 0} (e : ServiceError) (found : Option A) (db : D) → (found_or e found db).0 ≡ db
found_or-same e none db = refl
found_or-same e (some a) db = refl

pub require-same :
    {D : Type 0} (e : ServiceError) (test : Bool) (db : D) → (require e test db).0 ≡ db
require-same e true db = refl
require-same e false db = refl

pub require-ok :
    {D : Type 0} (e : ServiceError) (test : Bool) (db : D) (u : Unit {0})
    → (require e test db).1 ≡ ok u
    → test ≡ true
require-ok e true db u h = refl
require-ok e false db u h = cc

pub found_or-keeps :
    {D A : Type 0} (P : D → Type 0) (e : ServiceError) (found : Option A) (db : D)
    → P db
    → P (found_or e found db).0
found_or-keeps P e none db h = h
found_or-keeps P e (some a) db h = h
