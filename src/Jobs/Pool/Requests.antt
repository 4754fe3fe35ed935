-- ===== src/Jobs/Pool/Requests.antt =====
-- The claim of a job, and the requests that enqueue and cancel jobs, keep a pool sound.
use mathlib.Core.Option.{some-injective}
use syn_koala.Prelude.{
  ℕ, ◌≡◌, ◌≢◌, refl, ap, sym, subst, ◌∙◌, arith, String, Bool, true, false, ◌&&◌, Option, none,
  some, List, [], ◌∷◌, str_eq, find_first, All, All-append, find_first-All, ==_iff,
}
use syn_koala.Database.{Database, Job, job_running, job_cancelled, is_job_pending}
use syn_koala.Database.Rows.{amend-All, find_first-amend, find_first-passes}
use syn_koala.Jobs.{Fields, has_uuid, new_job, enqueue, cancel_pending, set_job, claim_at}
use syn_koala.Jobs.Queue.{
  Ascending, IsKept, at_id, Ascending-append, Ascending-amend, found_by_id, amend_one-All,
  found_after_amend, found_after_append,
}
use syn_koala.Jobs.Pool.{Enqueues, IsHeld, IsSound}
use syn_koala.Jobs.Pool.Entries.{All-map2, ne→beq, pending_room}

module _ {F : Type 0} where
  pub claimed :
      (db : Database F) (held : List ℕ) (o : Option Job) (id : ℕ)
      → find_first (λ j. is_job_pending j.status) db.jobs ≡ o
      → (claim_at o db).1 ≡ some id
      → IsSound (record { db = db; held = held })
      → IsSound (record { db = (claim_at o db).0; held = id ∷ held })
  unfolding claim_at set_job
  claimed db held none id e h sound = cc
  claimed db held (some j) id e h sound =
      subst (λ k. IsSound (record { db = (claim_at (some j) db).0; held = k ∷ held }))
        (some-injective j.id id h)
        (record {
          ascending =
              Ascending-amend (at_id j.id) running_row 0 db.next_id db.jobs (λ r. refl)
                sound.ascending;
          kept =
              amend_one-All IsKept j.id 0 db.next_id running_row db.jobs j sound.ascending own
                (pending_room j.status j.attempts pending
                  (find_first-All IsKept (λ r. is_job_pending r.status) db.jobs j sound.kept e))
                sound.kept;
          held = (
            (
              running_row j,
              find_first-amend (at_id j.id) running_row db.jobs j (λ r t. t) own,
              refl,
            ),
            All-map2 (IsHeld db) (λ k. j.id ≢ k) _ held still sound.held fresh,
          );
          distinct = (fresh, sound.distinct);
        })
    where
      running_row : Job → Job
      running_row r = record r { status = job_running; locked_at = some db.now }

      own : find_first (at_id j.id) db.jobs ≡ some j
      own = found_by_id (λ r. is_job_pending r.status) 0 db.next_id db.jobs j sound.ascending e

      pending : is_job_pending j.status ≡ true
      pending = find_first-passes (λ r. is_job_pending r.status) db.jobs j e

      not_held : (k : ℕ) → IsHeld db k → j.id ≢ k
      not_held k (r, found, status) same =
          let both : j ≡ r =
            some-injective j r (sym own ∙ (ap (λ n. find_first (at_id n) db.jobs) same ∙ found)) in
          let a : is_job_pending r.status ≡ true =
            subst (λ x. is_job_pending x.status ≡ true) both pending in
          let b : is_job_pending r.status ≡ false = ap is_job_pending status in cc

      fresh : All (λ k. j.id ≢ k) held
      fresh =
          All-map2 (IsHeld db) (IsHeld db) (λ k. j.id ≢ k) held (λ k x y. not_held k x) sound.held
            sound.held

      still : (k : ℕ) → IsHeld db k → j.id ≢ k → IsHeld (set_job j.id running_row db) k
      still k (r, found, status) other = (
        r,
        found_after_amend k (at_id j.id) running_row db.jobs r (λ x. refl) found
            (ne→beq j.id r.id (λ same.
              other (same ∙ (==_iff r.id k).0 (find_first-passes (at_id k) db.jobs r found)))),
        status,
      )

  pub enqueued :
      (db db' : Database F) (held : List ℕ)
      → Enqueues db db'
      → IsSound (record { db = db; held = held })
      → IsSound (record { db = db'; held = held })
  enqueued db db' held (new, jobs, ascending, kept) sound = record {
    ascending =
        subst (Ascending 0 db'.next_id) (sym jobs)
          (Ascending-append 0 db.next_id db'.next_id db.jobs new sound.ascending ascending);
    kept = subst (All IsKept) (sym jobs) (All-append IsKept db.jobs new sound.kept kept);
    held =
        All-map2 (IsHeld db) (IsHeld db) (IsHeld db') held (λ k x y. still k x) sound.held
          sound.held;
    distinct = sound.distinct;
  }
    where
      still : (k : ℕ) → IsHeld db k → IsHeld db' k
      still k (r, found, status) = (
        r,
        subst (λ js. find_first (at_id k) js ≡ some r) (sym jobs)
            (found_after_append (at_id k) db.jobs new r found),
        status,
      )

  pub enqueue-Enqueues :
      (job_type : String) (payload : Fields) (db : Database F)
      → Enqueues db (enqueue job_type payload db)
  unfolding enqueue new_job
  enqueue-Enqueues job_type payload db = (
    new_job db.next_id job_type payload ∷ [],
    refl,
    (omega arith, omega arith),
    (omega arith, tt),
  )

  pub withdrawn :
      (db : Database F) (held : List ℕ) (job_type payload_key : String) (value : ℕ)
      → IsSound (record { db = db; held = held })
      → IsSound (record { db = cancel_pending job_type payload_key value db; held = held })
  unfolding cancel_pending
  withdrawn db held job_type payload_key value sound = record {
    ascending =
        Ascending-amend selected cancelled_row 0 db.next_id db.jobs (λ r. refl) sound.ascending;
    kept =
        amend-All IsKept selected cancelled_row db.jobs
          (λ r e k. pending_room r.status r.attempts (last_of _ _ _ e) k) sound.kept;
    held =
        All-map2 (IsHeld db) (IsHeld db) (IsHeld (cancel_pending job_type payload_key value db))
          held (λ k x y. still k x) sound.held sound.held;
    distinct = sound.distinct;
  }
    where
      selected : Job → Bool
      selected j =
          str_eq j.job_type job_type
          && (has_uuid payload_key value j.payload && is_job_pending j.status)

      cancelled_row : Job → Job
      cancelled_row j = record j { status = job_cancelled }

      last_of : (a b c : Bool) → (a && (b && c)) ≡ true → c ≡ true
      last_of true true c h = h
      last_of true false c h = cc
      last_of false b c h = cc

      shut : (a b : Bool) → (a && (b && false)) ≡ false
      shut true true = refl
      shut true false = refl
      shut false b = refl

      still : (k : ℕ) → IsHeld db k → IsHeld (cancel_pending job_type payload_key value db) k
      still k (r, found, status) = (
        r,
        found_after_amend k selected cancelled_row db.jobs r (λ x. refl) found
            (ap (λ b. str_eq r.job_type job_type && (has_uuid payload_key value r.payload && b))
                (ap is_job_pending status)
              ∙ shut _ _),
        status,
      )
