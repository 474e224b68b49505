-- ===== src/MemPoolDemo.antt =====
-- src/memory_pool_demo.cpp: main takes slots of a pool of five and gives two back. `base` and
-- `stride` are where the pool's store lies. The pointers that main prints are its result.
mod Tests
use lowlatency_cpp.Base.{ℕ, List, [], ◌∷◌, Outcome, done, ◌>>=◌}
use lowlatency_cpp.MemPool

-- The prices are whole numbers, which a `double` holds exactly.
pub record Order : Type 0 where
  pub id : ℕ
  pub price : ℕ

-- The pointers that main holds at its end, and the objects that the pool's destructor destroys.
pub record Result : Type 0 where
  pub a : ℕ
  pub b : ℕ
  pub c : ℕ
  pub d : ℕ
  pub e : ℕ
  pub f : ℕ
  pub destroyed : List Order

pub main : ℕ → ℕ → Outcome Result
unfolding MemPool.create MemPool.allocate MemPool.deallocate MemPool.destroy
main base stride = do
  p0 ← MemPool.create 5 base stride
  (a, p1) ← MemPool.allocate p0 (record { id = 1; price = 100 })
  (b, p2) ← MemPool.allocate p1 (record { id = 2; price = 200 })
  (c, p3) ← MemPool.allocate p2 (record { id = 3; price = 300 })
  (_, p4) ← MemPool.deallocate p3 b
  (d, p5) ← MemPool.allocate p4 (record { id = 4; price = 400 })
  (e, p6) ← MemPool.allocate p5 (record { id = 5; price = 500 })
  (_, p7) ← MemPool.deallocate p6 a
  (f, p8) ← MemPool.allocate p7 (record { id = 6; price = 600 })
  objects ← MemPool.destroy p8
  done (record { a = a; b = b; c = c; d = d; e = e; f = f; destroyed = objects })
