-- ===== src/Model.antt =====
-- internal/model: the example resource, as the API and the database's client exchange it. A time is
-- the number of nanoseconds since some origin.
use go_skeleton.Base.{ℕ}
use go_skeleton.Base.Text.{Bytes}

abbrev pub Time : Type 0
Time = ℕ

pub record Example : Type 0 where
  pub id : ℕ
  pub name : Bytes
  pub created_at : Time
  pub updated_at : Time

-- `model.Example{Name: name}`: the other fields have Go's zero values.
abbrev pub named : Bytes → Example
named name = record { id = 0; name = name; created_at = 0; updated_at = 0 }
