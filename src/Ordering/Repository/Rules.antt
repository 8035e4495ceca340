-- ===== src/Ordering/Repository/Rules.antt =====
-- How the calls of the repositories end, as rules for the blocks that call them.
use fast_kit.Kit.{
  ℕ, ◌+◌, ◌≡◌, refl, ap, ◌∙◌, inl, inr, Bool, true, not, Option, none, some, List, [], ◌∷◌,
  if◌then◌else◌, is_some, Bool-cases, num_eq→eq, option_map, find, update_where, find-holds, pure,
  or_raise, ◌>>=◌, ◌>>◌, Exactly, Ensures-then, Ensures, returns,
}
use fast_kit.Events.Database.{statement, db_error, query, Environment, World, Tables}
use fast_kit.Events.Database.Rules.{statement_lem, query_lem}
use fast_kit.Ordering.Jobs.{Job}
use fast_kit.Ordering.Models.{map_job_to_model, JobModel, Shop, map_job_to_domain}
use fast_kit.Ordering.Repository.{get_job, update_job, write_job, job_with_id, has_key}

-- The session after one more statement, with these tables.
abbrev pub ran : Tables Shop → World Shop → World Shop
ran t w = record w { db = t; statements = w.statements + 1 }

-- The session after an update of a job: the two queries around the write.
abbrev pub updated : Job → World Shop → World Shop
updated job w = let t = write_job job w.db in ran t (ran t (ran w.db w))

pub find-update_where :
    (p : JobModel → Bool) (f : JobModel → JobModel)
    → ((m : JobModel) → p (f m) ≡ p m)
    → (ms : List JobModel) → find p (update_where p f ms) ≡ option_map f (find p ms)
find-update_where p f keeps [] = refl
find-update_where p f keeps (m ∷ ms) = elim (Bool-cases (p m)) [
  | inl hit ↦ rw hit (rw (keeps m ∙ hit))
  | inr miss ↦ rw miss (rw miss (find-update_where p f keeps ms))
]

has_key→eq : (key : Option ℕ) (id : ℕ) → has_key key (some id) ≡ true → key ≡ some id
has_key→eq none id e = cc e
has_key→eq (some n) id e = ap some (num_eq→eq n id e)

-- A row that is found by a key has the key.
pub job_with_id-key :
    (id : ℕ) (ms : List JobModel) (m : JobModel) → job_with_id id ms ≡ some m → m.id ≡ some id
job_with_id-key id ms m e = has_key→eq m.id id (find-holds (λ r. has_key r.id (some id)) ms m e)

module _ (env : Environment) (R : World Shop → Type 0) where
  pub get_job_lem :
      (id : ℕ) (w : World Shop)
      → R (ran w.db w)
      → Ensures
          (Exactly (option_map map_job_to_domain (job_with_id id w.db.business.jobs)) (ran w.db w))
          R
          (get_job env id w)
  unfolding get_job
  get_job_lem id w r =
      let found = job_with_id id w.db.business.jobs in
      let m = option_map map_job_to_domain found in
      Ensures-then (Exactly m (ran w.db w)) R
        (query env (λ (t : Tables Shop). job_with_id id t.business.jobs))
        (λ o. pure (option_map map_job_to_domain o)) w found (ran w.db w)
        (query_lem env (Exactly found (ran w.db w)) R
          (λ (t : Tables Shop). job_with_id id t.business.jobs) w (refl, refl) r)
        (returns (refl, refl))

  -- The update of a job whose row is in the table.
  pub update_job_lem :
      (job : Job) (row : JobModel) (w : World Shop)
      → find (λ r. has_key r.id job.id) w.db.business.jobs ≡ some row
      → R (ran w.db w)
      → R (ran w.db (ran w.db w))
      → R (updated job w)
      → Ensures
          (Exactly
            (map_job_to_domain
              (record (map_job_to_model job (some row)) { updated_at = some w.db.now }))
            (updated job w))
          R
          (update_job env job w)
  unfolding update_job
  update_job_lem job row w found r1 r2 r3 =
      let p = λ (r : JobModel). has_key r.id job.id in
      let f =
        λ (r : JobModel). record (map_job_to_model job (some r)) { updated_at = some w.db.now } in
      let saved = map_job_to_domain (f row) in
      let last = updated job w in
      let load = λ (t : Tables Shop). find p t.business.jobs in
      let finish = λ (o : Option JobModel). or_raise (option_map map_job_to_domain o) db_error in
      let Q = Exactly saved last in
      Ensures-then Q R (query env load)
        (λ model.
          if not (is_some model)
          then pure job
          else statement env (write_job job) >> (query env load >>= finish))
        w (some row) (ran w.db w)
        (query_lem env (Exactly (some row) (ran w.db w)) R load w (found, refl) r1)
        (Ensures-then Q R (statement env (write_job job)) (λ _. query env load >>= finish)
          (ran w.db w) tt (ran (write_job job w.db) (ran w.db w))
          (statement_lem env (Exactly tt (ran (write_job job w.db) (ran w.db w)) tt) R
            (write_job job) (ran w.db w) (refl, refl) r2)
          (Ensures-then Q R (query env load) finish (ran (write_job job w.db) (ran w.db w))
            (some (f row)) last
            (query_lem env (Exactly (some (f row)) last) R load
              (ran (write_job job w.db) (ran w.db w))
              (find-update_where p f (λ m. refl) w.db.business.jobs ∙ ap (option_map f) found, refl)
              r3)
            (returns (refl, refl))))
