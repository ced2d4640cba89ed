-- ===== src/Float.antt =====
-- `f64` as a parameter: the literals and operations that the scoring code uses. `Decimal` is a concrete number type with these operations.
pub mod Decimal
use strata_p2p.Common.{Bool}
use strata_p2p.Time.{Duration}

pub record Float (S : Type 0) : Type 0 where
  pub zero : S
  pub one : S
  pub nine_tenths : S
  pub minus_hundred : S
  pub add : S → S → S
  pub sub : S → S → S
  pub mul : S → S → S
  pub min : S → S → S
  pub lt : S → S → Bool
  pub as_secs_f64 : Duration → S
