-- ===== src/Ordering/Jobs.antt =====
-- app/modules/ordering/domain/entities.py: jobs, orders, and the change of a job's status.
-- A timestamp is a number of seconds.
pub mod History
use fast_kit.Kit.{
  ℕ, String, Bool, true, Option, none, List, [], Method, gets, lift, modify, ◌>>=◌, ◌>>◌,
}
use fast_kit.Ordering.StateMachine.{pending, InvalidTransition, assert_transition, is_file_editable}

pub record Job : Type 0 where
  pub id : Option ℕ
  pub job_id : String
  pub job_status : String
  pub file_editable : Bool
  pub order_id : Option ℕ
  pub created_at : Option ℕ
  pub updated_at : Option ℕ

-- `Job()`: the defaults of the fields
abbrev pub blank_job : Job
blank_job = record {
  id = none;
  job_id = "";
  job_status = pending;
  file_editable = true;
  order_id = none;
  created_at = none;
  updated_at = none;
}

pub record Order : Type 0 where
  pub id : Option ℕ
  pub order_number : String
  pub user_id : Option ℕ
  pub status : String
  pub jobs : List Job
  pub created_at : Option ℕ
  pub updated_at : Option ℕ

abbrev pub blank_order : Order
blank_order = record {
  id = none;
  order_number = "";
  user_id = none;
  status = "PENDING";
  jobs = [];
  created_at = none;
  updated_at = none;
}

unfoldable pub transition_to : String → Method Job InvalidTransition (Unit {0})
unfolding assert_transition is_file_editable
transition_to new_status = do
  lift (assert_transition (← gets (λ self. self.job_status)) new_status)
  modify (λ self. record self { job_status = new_status })
  modify (λ self. record self { file_editable = is_file_editable new_status })
