-- ===== src/Float/Decimal.antt =====
-- Decimals as numbers of tenths, a difference of two naturals: an instance of `Float`.
use strata_p2p.Common.{ℕ, ◌+◌, ◌*◌, ◌/◌, Bool, ltb, if◌then◌else◌}
use strata_p2p.Time.{nanos_per_sec}
use strata_p2p.Float.{Float}

pub record Decimal : Type 0 where
  pub plus : ℕ
  pub minus : ℕ

abbrev pub tenths : ℕ → ℕ → Decimal
tenths p m = record { plus = p; minus = m }

abbrev pub decimal_lt : Decimal → Decimal → Bool
decimal_lt x y = ltb (x.plus + y.minus) (y.plus + x.minus)

abbrev pub decimal : Float Decimal
decimal = record {
  zero = tenths 0 0;
  one = tenths 10 0;
  nine_tenths = tenths 9 0;
  minus_hundred = tenths 0 1000;
  add = λ x y. tenths (x.plus + y.plus) (x.minus + y.minus);
  sub = λ x y. tenths (x.plus + y.minus) (x.minus + y.plus);
  mul = λ x y.
      tenths ((x.plus * y.plus + x.minus * y.minus) / 10)
        ((x.plus * y.minus + x.minus * y.plus) / 10);
  min = λ x y. if decimal_lt y x then y else x;
  lt = decimal_lt;
  as_secs_f64 = λ d. tenths (d * 10 / nanos_per_sec) 0;
}
