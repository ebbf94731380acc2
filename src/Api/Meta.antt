-- ===== src/Api/Meta.antt =====
-- What the resources use of k8s.io/apimachinery: the metadata, a quantity and a condition, each
-- with the fields that the program reads or writes. A quantity is seen through its `Value()`.
use nats_operator_experiment.Common.{ℕ, Str}
use nats_operator_experiment.Common.Int.{ℤ}

pub record ObjectMeta : Type 0 where
  pub name : Str
  pub namespace : Str
  pub generation : ℕ

pub record Quantity : Type 0 where
  pub value : ℤ

pub record Condition : Type 0 where
  pub type : Str
  pub status : Str
  pub reason : Str
  pub message : Str
  pub observed_generation : ℕ
