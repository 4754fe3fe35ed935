-- ===== src/Jobs/Pool/Entries.antt =====
-- Lists of held jobs, and the attempts that a status leaves.
use syn_koala.Prelude.{
  ℕ, ◌+◌, ◌<◌, ◌≡◌, ◌≢◌, sym, subst, arith, true, false, List, [], ◌∷◌, ◌==◌, ltb, Bool-cases, inl,
  inr, All, ltb→lt,
}
use syn_koala.Database.{
  Job, JobStatus, job_pending, job_running, job_done, job_failed, job_cancelled, is_job_pending,
}
use syn_koala.Jobs.{max_attempts, status_after}
use syn_koala.Jobs.Queue.{Kept, IsKept}
use syn_koala.Jobs.Pool.{Takes, here, later, Distinct}

pub Takes-All :
    (P : ℕ → Type 0) {id : ℕ} {held rest : List ℕ}
    → Takes id held rest
    → All P held
    → P id × All P rest
Takes-All P (here id rest) all = all
Takes-All P (later other t) all = let ih = Takes-All P t all.1 in (ih.0, (all.0, ih.1))

-- Without one of its entries a list of distinct entries is that, and does not have the entry.
pub Takes-Distinct :
    {id : ℕ} {held rest : List ℕ}
    → Takes id held rest
    → Distinct held
    → All (λ other. id ≢ other) rest × Distinct rest
Takes-Distinct (here id rest) d = d
Takes-Distinct (later other t) d =
    let ih = Takes-Distinct t d.1 in
    let fresh = Takes-All (λ id. other ≢ id) t d.0 in
    (((λ e. fresh.0 (sym e)), ih.0), (fresh.1, ih.1))

pub All-map2 :
    {A : Type 0} (P Q R : A → Type 0) (xs : List A)
    → ((x : A) → P x → Q x → R x)
    → All P xs
    → All Q xs
    → All R xs
All-map2 P Q R [] f p q = tt
All-map2 P Q R (x ∷ xs) f p q = (f x p.0 q.0, All-map2 P Q R xs f p.1 q.1)

pub ne→beq : (m n : ℕ) → m ≢ n → (n == m) ≡ false
ne→beq m n h = grind arith

pub pending_room : (s : JobStatus) (n : ℕ) → is_job_pending s ≡ true → Kept s n → n < max_attempts
pending_room job_pending n e k = k
pending_room job_running n e k = cc
pending_room job_done n e k = cc
pending_room job_failed n e k = cc
pending_room job_cancelled n e k = cc

pub running_room : (j : Job) → j.status ≡ job_running → IsKept j → j.attempts < max_attempts
running_room j e k = subst (λ s. Kept s j.attempts) e k

-- After one more attempt the job is PENDING again, or its attempts are used up and it is FAILED.
pub status_after-Kept : (n : ℕ) → n < max_attempts → Kept (status_after (n + 1)) (n + 1)
status_after-Kept n h = elim (Bool-cases (ltb (n + 1) max_attempts)) [
  | inl e ↦ rw e (ltb→lt _ _ e)
  | inr e ↦ rw e (used_up n h e)
]
  where
    used_up : (n : ℕ) → n < max_attempts → ltb (n + 1) max_attempts ≡ false → n + 1 ≡ max_attempts
    used_up n h e = ground arith
