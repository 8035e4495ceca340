-- ===== src/Ordering/Repository/Inserts.antt =====
-- How the inserts of the repositories end.
use fast_kit.Kit.{
  ℕ, ◌≡◌, refl, sym, ap, ◌∙◌, subst, inl, inr, Bool, true, false, not, ◌||◌, Option, none, some,
  List, [], ◌∷◌, ◌++◌, map, ◌==◌, is_some, or_else, Bool-cases, num_eq_refl, option_map, any, find,
  pure, raise, or_raise, ◌>>=◌, ◌>>◌, Ensures-bind, Ensures-if, Exactly, Ensures-then, Ensures,
  returns, raises,
}
use fast_kit.Events.Database.{Environment, World, Tables, db_error, query, statement}
use fast_kit.Events.Database.Rules.{statement_lem, query_lem}
use fast_kit.Ordering.Jobs.{Order, Job}
use fast_kit.Ordering.Models.{
  map_order_to_domain, map_order_to_model, OrderModel, JobModel, Shop, map_job_to_domain,
  map_job_to_model,
}
use fast_kit.Ordering.Repository.{
  order_with_id, order_row, loaded, insert_order, order_is_refused, flush_jobs_of, flush_order,
  create_order, create_job, flush_job, job_is_refused, job_with_id, has_key, insert_job, job_row,
}
use fast_kit.Ordering.Repository.Rules.{ran}

find-append_new :
    {A : Type 0} (p : A → Bool) (xs : List A) (x : A)
    → any p xs ≡ false
    → p x ≡ true
    → find p (xs ++ x ∷ []) ≡ some x
find-append_new p [] x h e = rw e
find-append_new p (y ∷ ys) x h e = elim (Bool-cases (p y)) [
  | inl hit ↦ absurd (cc (rw hit at h))
  | inr miss ↦ rw miss (find-append_new p ys x (rw miss at h) e)
]

find-map :
    {A : Type 0} (p : A → Bool) (f : A → A)
    → ((a : A) → p (f a) ≡ p a)
    → (xs : List A) → find p (map f xs) ≡ option_map f (find p xs)
find-map p f keeps [] = refl
find-map p f keeps (x ∷ xs) = elim (Bool-cases (p x)) [
  | inl hit ↦ rw hit (rw (keeps x ∙ hit))
  | inr miss ↦ rw miss (rw (keeps x ∙ miss) (find-map p f keeps xs))
]

first_false : (a b : Bool) → a || b ≡ false → a ≡ false
first_false true b e = e
first_false false b e = refl

module _ (env : Environment) (R : World Shop → Type 0) where
  flush_job_lem :
      (m : JobModel) (w : World Shop)
      → R w
      → R (ran w.db w)
      → let key = or_else m.id w.db.next_id in
        Ensures
          (λ k w'.
            (k ≡ key)
            × (w' ≡ ran (insert_job key m w.db) w)
            × (any (λ r. has_key r.id (some key)) w.db.business.jobs ≡ false))
          R
          (flush_job env m w)
  unfolding flush_job job_is_refused
  flush_job_lem m w r0 r1 =
      let key = or_else m.id w.db.next_id in
      let refused = job_is_refused key m w.db.business in
      let taken = any (λ r. has_key r.id (some key)) w.db.business.jobs in
      let w1 = ran (insert_job key m w.db) w in
      let Q : ℕ → World Shop → Type 0 = λ k w'. (k ≡ key) × (w' ≡ w1) × (taken ≡ false) in
      Ensures-if Q R refused (raise db_error) (statement env (insert_job key m) >> pure key) w
        (λ _. raises r0)
        (λ free.
          Ensures-then Q R (statement env (insert_job key m)) (λ _. pure key) w tt w1
            (statement_lem env (Exactly tt w1 tt) R (insert_job key m) w (refl, refl) r1)
            (returns (
              refl,
              refl,
              first_false taken
                  (any (λ r. r.job_id == m.job_id) w.db.business.jobs
                    || not (any (λ r. has_key r.id m.order_id) w.db.business.orders))
                  free,
            )))

  -- A new job is returned as its row was written.
  pub create_job_lem :
      (job : Job) (w : World Shop)
      → R w
      → R (ran w.db w)
      → let m = map_job_to_model job none in
        let key = or_else job.id w.db.next_id in
        let w1 = ran (insert_job key m w.db) w in
        R (ran w1.db w1)
        → Ensures
            (Exactly (map_job_to_domain (job_row key m w.db)) (ran w1.db w1))
            R
            (create_job env job w)
  unfolding create_job
  create_job_lem job w r0 r1 r2 =
      let m = map_job_to_model job none in
      let key = or_else job.id w.db.next_id in
      let w1 = ran (insert_job key m w.db) w in
      let saved = map_job_to_domain (job_row key m w.db) in
      let Q = Exactly saved (ran w1.db w1) in
      let p = λ (r : JobModel). has_key r.id (some key) in
      let load : ℕ → Tables Shop → Option JobModel = λ k t. job_with_id k t.business.jobs in
      let finish = λ (o : Option JobModel). or_raise (option_map map_job_to_domain o) db_error in
      Ensures-bind (λ k w'. (k ≡ key) × (w' ≡ w1) × (any p w.db.business.jobs ≡ false)) Q R
        (flush_job env m) (λ k. query env (load k) >>= finish) w (flush_job_lem m w r0 r1)
        (λ k w' h.
          subst (λ k. Ensures Q R ((query env (load k) >>= finish) w')) (sym h.0)
            (subst (λ u. Ensures Q R ((query env (load key) >>= finish) u)) (sym h.1)
              (Ensures-then Q R (query env (load key)) finish w1 (some (job_row key m w.db))
                (ran w1.db w1)
                (query_lem env (Exactly (some (job_row key m w.db)) (ran w1.db w1)) R (load key) w1
                  (
                    find-append_new p w.db.business.jobs (job_row key m w.db) h.2 (num_eq_refl key),
                    refl,
                  )
                  r2)
                (returns (refl, refl)))))

  flush_order_lem :
      (m : OrderModel) (w : World Shop)
      → R w
      → R (ran w.db w)
      → let key = or_else m.id w.db.next_id in
        Ensures
          (λ k w'.
            (k ≡ key)
            × (w' ≡ ran (insert_order key m w.db) w)
            × (any (λ r. has_key r.id (some key)) w.db.business.orders ≡ false))
          R
          (flush_order env m w)
  unfolding flush_order order_is_refused
  flush_order_lem m w r0 r1 =
      let key = or_else m.id w.db.next_id in
      let refused = order_is_refused key m w.db.business in
      let taken = any (λ r. has_key r.id (some key)) w.db.business.orders in
      let w1 = ran (insert_order key m w.db) w in
      let Q : ℕ → World Shop → Type 0 = λ k w'. (k ≡ key) × (w' ≡ w1) × (taken ≡ false) in
      Ensures-if Q R refused (raise db_error) (statement env (insert_order key m) >> pure key) w
        (λ _. raises r0)
        (λ free.
          Ensures-then Q R (statement env (insert_order key m)) (λ _. pure key) w tt w1
            (statement_lem env (Exactly tt w1 tt) R (insert_order key m) w (refl, refl) r1)
            (returns (
              refl,
              refl,
              first_false taken
                  (any (λ r. r.order_number == m.order_number) w.db.business.orders
                    || not (is_some m.user_id))
                  free,
            )))

  -- A new order without jobs is returned as its row was written.
  pub create_order_lem :
      (order : Order) (w : World Shop)
      → R w
      → R (ran w.db w)
      → let m = map_order_to_model (record order { jobs = [] }) in
        let key = or_else order.id w.db.next_id in
        let w1 = ran (insert_order key m w.db) w in
        R (ran w1.db w1)
        → Ensures
            (Exactly
              (map_order_to_domain (loaded w1.db.business (order_row key m w.db)))
              (ran w1.db w1))
            R
            (create_order env (record order { jobs = [] }) w)
  unfolding create_order flush_jobs_of
  create_order_lem order w r0 r1 r2 =
      let m = map_order_to_model (record order { jobs = [] }) in
      let key = or_else order.id w.db.next_id in
      let w1 = ran (insert_order key m w.db) w in
      let row = loaded w1.db.business (order_row key m w.db) in
      let Q = Exactly (map_order_to_domain row) (ran w1.db w1) in
      let p = λ (r : OrderModel). has_key r.id (some key) in
      let load : ℕ → Tables Shop → Option OrderModel = λ k t. order_with_id k t.business in
      let finish =
        λ (o : Option OrderModel). or_raise (option_map map_order_to_domain o) db_error in
      Ensures-bind (λ k w'. (k ≡ key) × (w' ≡ w1) × (any p w.db.business.orders ≡ false)) Q R
        (flush_order env m) (λ k. flush_jobs_of env k [] >> (query env (load k) >>= finish)) w
        (flush_order_lem m w r0 r1)
        (λ k w' h.
          subst (λ k. Ensures Q R ((query env (load k) >>= finish) w')) (sym h.0)
            (subst (λ u. Ensures Q R ((query env (load key) >>= finish) u)) (sym h.1)
              (Ensures-then Q R (query env (load key)) finish w1 (some row) (ran w1.db w1)
                (query_lem env (Exactly (some row) (ran w1.db w1)) R (load key) w1
                  (
                    find-map p (loaded w1.db.business) (λ r. refl) w1.db.business.orders
                        ∙ ap (option_map (loaded w1.db.business)) (
                            find-append_new p w.db.business.orders (order_row key m w.db) h.2
                              (num_eq_refl key)),
                    refl,
                  )
                  r2)
                (returns (refl, refl)))))
