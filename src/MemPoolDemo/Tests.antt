-- ===== src/MemPoolDemo/Tests.antt =====
-- The memory pool demonstration with its store at a concrete address.
use lowlatency_cpp.Base.{◌≡◌, refl, [], ◌∷◌, done}
use lowlatency_cpp.MemPoolDemo.{main}

-- The slot of `b` goes to `d`, the next to be allocated, and that of `a` to `f`.
reuses :
    main 4096 24
    ≡ done (record {
      a = 4096;
      b = 4120;
      c = 4144;
      d = 4120;
      e = 4168;
      f = 4096;
      destroyed =
          record { id = 6; price = 600 }
          ∷ record { id = 4; price = 400 }
          ∷ record { id = 3; price = 300 }
          ∷ record { id = 5; price = 500 }
          ∷ [];
    })
unfolding main
reuses = refl
