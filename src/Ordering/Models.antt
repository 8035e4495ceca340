-- ===== src/Ordering/Models.antt =====
-- app/modules/ordering/infrastructure/persistence: the models, as instances before and after they
-- are flushed, and the mapper in mapper.py between them and the entities.
use fast_kit.Kit.{ℕ, String, Bool, Option, none, some, List, map}
use fast_kit.Ordering.Jobs.{Job, Order}

pub record JobModel : Type 0 where
  pub id : Option ℕ
  pub order_id : Option ℕ
  pub job_id : String
  pub job_status : String
  pub file_editable : Bool
  pub created_at : Option ℕ
  pub updated_at : Option ℕ

-- `jobs` is the relationship, loaded with the order.
pub record OrderModel : Type 0 where
  pub id : Option ℕ
  pub order_number : String
  pub user_id : Option ℕ
  pub status : String
  pub jobs : List JobModel
  pub created_at : Option ℕ
  pub updated_at : Option ℕ

-- The two tables. An order's row holds no jobs; they are found by their `order_id`.
pub record Shop : Type 0 where
  pub orders : List OrderModel
  pub jobs : List JobModel

abbrev pub map_job_to_domain : JobModel → Job
map_job_to_domain model = record {
  id = model.id;
  job_id = model.job_id;
  job_status = model.job_status;
  file_editable = model.file_editable;
  order_id = model.order_id;
  created_at = model.created_at;
  updated_at = model.updated_at;
}

-- `map_job_to_model(entity)`, and `map_job_to_model(entity, existing)`
abbrev pub map_job_to_model : Job → Option JobModel → JobModel
map_job_to_model entity (some existing) = record existing {
  job_status = entity.job_status;
  file_editable = entity.file_editable;
}
map_job_to_model entity none = record {
  id = entity.id;
  order_id = entity.order_id;
  job_id = entity.job_id;
  job_status = entity.job_status;
  file_editable = entity.file_editable;
  created_at = none;
  updated_at = none;
}

abbrev pub map_order_to_domain : OrderModel → Order
map_order_to_domain model = record {
  id = model.id;
  order_number = model.order_number;
  user_id = model.user_id;
  status = model.status;
  jobs = map map_job_to_domain model.jobs;
  created_at = model.created_at;
  updated_at = model.updated_at;
}

abbrev pub map_order_to_model : Order → OrderModel
map_order_to_model entity = record {
  id = entity.id;
  order_number = entity.order_number;
  user_id = entity.user_id;
  status = entity.status;
  jobs = map (λ j. map_job_to_model j none) entity.jobs;
  created_at = none;
  updated_at = none;
}
