-- ===== src/Ordering/Repository.antt =====
-- app/modules/ordering/infrastructure/persistence/repository.py, over a session on the tables of
-- the module. A key that the database draws is a fresh number. The lengths of the text columns are
-- among the reasons for which a statement may fail in the environment.
pub mod Rules
pub mod Inserts
use fast_kit.Kit.{
  ℕ, ◌+◌, Bool, false, not, ◌||◌, Option, none, some, List, [], ◌∷◌, ◌++◌, map, ◌==◌, if◌then◌else◌,
  num_eq, is_some, or_else, option_map, length, take, drop, where_, any, find, update_where, Method,
  pure, raise, or_raise, ◌>>◌, ◌>>=◌,
}
use fast_kit.Events.Database.{db_error, Environment, World, Failure, statement, query, Tables}
use fast_kit.Ordering.Jobs.{Job, Order}
use fast_kit.Ordering.Models.{
  map_order_to_model, map_order_to_domain, map_job_to_model, JobModel, OrderModel, Shop,
  map_job_to_domain,
}

abbrev pub has_key : Option ℕ → Option ℕ → Bool
has_key (some a) (some b) = num_eq a b
has_key _ _ = false

-- What the constraints of the tables forbid of a row with this key: a key or a unique text that is
-- taken, a missing value, and a job without its order.
unfoldable pub job_is_refused : ℕ → JobModel → Shop → Bool
job_is_refused key m shop =
    any (λ r. has_key r.id (some key)) shop.jobs
    || (any (λ r. r.job_id == m.job_id) shop.jobs
        || not (any (λ r. has_key r.id m.order_id) shop.orders))

unfoldable pub order_is_refused : ℕ → OrderModel → Shop → Bool
order_is_refused key m shop =
    any (λ r. has_key r.id (some key)) shop.orders
    || (any (λ r. r.order_number == m.order_number) shop.orders || not (is_some m.user_id))

abbrev pub job_with_id : ℕ → List JobModel → Option JobModel
job_with_id id jobs = find (λ r. has_key r.id (some id)) jobs

-- An order as it is loaded, with the jobs of its relationship.
abbrev pub loaded : Shop → OrderModel → OrderModel
loaded shop m = record m { jobs = where_ (λ r. has_key r.order_id m.id) shop.jobs }

abbrev pub order_with_id : ℕ → Shop → Option OrderModel
order_with_id id shop = find (λ r. has_key r.id (some id)) (map (loaded shop) shop.orders)

-- The write of `update`: the row of the job's key, with the job's status and flag.
abbrev pub write_job : Job → Tables Shop → Tables Shop
write_job job t = record t {
  business = record t.business {
    jobs =
        update_where (λ r. has_key r.id job.id)
          (λ r. record (map_job_to_model job (some r)) { updated_at = some t.now }) t.business.jobs;
  };
}

-- A row as it is inserted under its key.
abbrev pub job_row : ℕ → JobModel → Tables Shop → JobModel
job_row key m t = record m { id = some key; created_at = some t.now; updated_at = some t.now }

abbrev pub insert_job : ℕ → JobModel → Tables Shop → Tables Shop
insert_job key m t = record t {
  business = record t.business { jobs = t.business.jobs ++ job_row key m t ∷ [] };
  next_id = t.next_id + 1;
}

abbrev pub order_row : ℕ → OrderModel → Tables Shop → OrderModel
order_row key m t = record m {
  id = some key;
  jobs = [];
  created_at = some t.now;
  updated_at = some t.now;
}

abbrev pub insert_order : ℕ → OrderModel → Tables Shop → Tables Shop
insert_order key m t = record t {
  business = record t.business { orders = t.business.orders ++ order_row key m t ∷ [] };
  next_id = t.next_id + 1;
}

module _ (env : Environment) where
  -- `session.add(model)` and the flush of it, with the key of the new row.
  unfoldable pub flush_job : JobModel → Method (World Shop) Failure ℕ
  unfolding job_is_refused statement
  flush_job m w =
      let key = or_else m.id w.db.next_id in
      (if job_is_refused key m w.db.business
          then raise db_error
          else statement env (insert_job key m) >> pure key)
        w

  unfoldable pub flush_order : OrderModel → Method (World Shop) Failure ℕ
  unfolding order_is_refused statement
  flush_order m w =
      let key = or_else m.id w.db.next_id in
      (if order_is_refused key m w.db.business
          then raise db_error
          else statement env (insert_order key m) >> pure key)
        w

  -- The jobs of a new order are flushed with it, under its key.
  unfoldable pub flush_jobs_of : ℕ → List JobModel → Method (World Shop) Failure (Unit {0})
  unfolding flush_job
  flush_jobs_of key [] = pure tt
  flush_jobs_of key (m ∷ ms) = flush_job (record m { order_id = some key }) >> flush_jobs_of key ms

  -- `SQLAlchemyOrderRepository`
  unfoldable pub get_order : ℕ → Method (World Shop) Failure (Option Order)
  unfolding query
  get_order order_id = do
    model ← query env (λ t. order_with_id order_id t.business)
    pure (option_map map_order_to_domain model)

  unfoldable pub list_orders : ℕ → ℕ → Method (World Shop) Failure (List Order × ℕ)
  unfolding query
  list_orders offset limit = do
    total ← query env (λ t. length t.business.orders)
    models ← query env (λ t. take limit (drop offset (map (loaded t.business) t.business.orders)))
    pure (map map_order_to_domain models, total)

  unfoldable pub create_order : Order → Method (World Shop) Failure Order
  unfolding query flush_order flush_jobs_of
  create_order order = do
    let model : OrderModel = map_order_to_model order
    key ← flush_order model
    flush_jobs_of key model.jobs
    saved ← query env (λ t. order_with_id key t.business)
    or_raise (option_map map_order_to_domain saved) db_error

  -- `SQLAlchemyJobRepository`
  unfoldable pub get_job : ℕ → Method (World Shop) Failure (Option Job)
  unfolding query
  get_job job_id = do
    model ← query env (λ t. job_with_id job_id t.business.jobs)
    pure (option_map map_job_to_domain model)

  unfoldable pub create_job : Job → Method (World Shop) Failure Job
  unfolding query flush_job
  create_job job = do
    key ← flush_job (map_job_to_model job none)
    saved ← query env (λ t. job_with_id key t.business.jobs)
    or_raise (option_map map_job_to_domain saved) db_error

  unfoldable pub update_job : Job → Method (World Shop) Failure Job
  unfolding query statement
  update_job job = do
    model ← query env (λ t. find (λ r. has_key r.id job.id) t.business.jobs)
    if not (is_some model) then pure job else do
      statement env (write_job job)
      saved ← query env (λ t. find (λ r. has_key r.id job.id) t.business.jobs)
      or_raise (option_map map_job_to_domain saved) db_error
