-- ===== src/Timers/Rank.antt =====
-- `trec::operator<` is an order while the insertion counters in the set lie within half their range.
use tamer.Prelude.{ℕ, ◌+◌, ◌*◌, ◌^◌, ◌<◌, ◌≡◌, arith, ltb, sub32}
use tamer.Timers.{Trec, before}

-- Time first, then the place in the order of insertion since `base`.
unfoldable pub rank : ℕ → Trec → ℕ
rank base t = (t.sec * 1000000 + t.usec) * 2 ^ 32 + sub32 t.order base

-- `base` stands for an order at or before the oldest in the set.
pub record InWindow (base : ℕ) (t : Trec) : Type 0 where
  pub usec_small : t.usec < 1000000
  pub order_small : t.order < 2 ^ 32
  pub order_near : sub32 t.order base < 2 ^ 31

-- If the orders of two timers lie in one half of the counter's range behind `base`, then `operator<`
-- is the order of one number, which counts seconds first, then microseconds, then the pushes.
pub before-rank :
    (base : ℕ) (x y : Trec)
    → base < 2 ^ 32
    → InWindow base x
    → InWindow base y
    → before x y ≡ ltb (rank base x) (rank base y)
unfolding before rank
before-rank base x y b vx vy = ground arith
