-- ===== src/Params.antt =====
-- params/params.go: the filter that a reader of logs is given.
use coriolis_logger.Common.{String, ℤ}
use coriolis_logger.Clock.{Time}

pub record QueryParams : Type 0 where
  pub hostname : String
  pub start_date : Time
  pub end_date : Time
  pub app_name : String
  pub severity : ℤ
