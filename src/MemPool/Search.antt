-- ===== src/MemPool/Search.antt =====
-- `updateNextFreeIndex` of include/mem_pool.hpp: a search that goes once round the store.
use native.Mathlib.Nat.{add-zero, mod-add-mod, mod-eq_of_lt, mod-eq-sub-mod, mod-lt, mod_self}
use lowlatency_cpp.Base.{
  mod-add-ne, ℕ, zero, suc, ◌+◌, ◌-◌, ◌%◌, ◌^◌, ◌≤◌, ◌<◌, ◌≡◌, ◌≢◌, sym, inl, inr, true, false,
  some, List, length, get_elem?, get_elem?-exists, get_elem?-lt, Bool-cases, ap, ◌∙◌, done, arith,
}
use native.Mathlib.Decide.{dec_lt, ℕ_discrete}
use lowlatency_cpp.MemPool.{ObjectBlock, MemPool, next_index, search_free, update_next_free_index}
use lowlatency_cpp.MemPool.Valid.{FreeAt}

-- The slot that is `d` steps round the store from `start`.
abbrev pub around : ℕ → ℕ → ℕ → ℕ
around n start d = (start + d) % n

next_index-around :
    (n start d : ℕ) → 0 < n → n < 2 ^ 64 → next_index n (around n start d) ≡ around n start (suc d)
next_index-around n start d pos small = grind (
  arith,
  mod-lt (start + d) pos,
  mod-add-mod (start + d) n 1,
  mod_self n,
  mod-eq_of_lt {n = around n start d + 1} {m = n},
  shift,
)
  where
    shift : start + suc d ≡ (start + d) + 1
    shift = omega arith

-- Every slot is between 1 and `n` steps away.
distance :
    (n start j : ℕ) → start < n → j < n → (d : ℕ) × (0 < d) × (d ≤ n) × (around n start d ≡ j)
distance n start j hs hj = elim (dec_lt start j) [
  | yes p ↦
      let e : start + (j - start) ≡ j = omega arith in
      (j - start, omega arith, omega arith, rw e (mod-eq_of_lt hj))
  | no p ↦
      let e : start + (n + j - start) ≡ n + j = omega arith in
      let back : n + j - n ≡ j = omega arith in
      (
        n + j - start,
        omega arith,
        omega arith,
        rw e (mod-eq-sub-mod (omega arith) ∙ rw back (mod-eq_of_lt hj)),
      )
]

module _ {ℓ} {T : Type ℓ} where
  -- `k` is the first distance past `c` at which a slot is free.
  pub record Nearest (bs : List (ObjectBlock T)) (start c k : ℕ) : Type ℓ where
    pub after : c < k
    pub free : FreeAt bs (around (length bs) start k)
    pub first : (e : ℕ) → c < e → e < k → ¬ FreeAt bs (around (length bs) start e)

  not-FreeAt :
      (bs : List (ObjectBlock T)) (i : ℕ) (b : ObjectBlock T)
      → get_elem? bs i ≡ some b
      → b.is_free ≡ false
      → ¬ FreeAt bs i
  not-FreeAt bs i b e used (x, at, free) = ground arith

  search_free-found :
      (bs : List (ObjectBlock T)) (start r i : ℕ) (b : ObjectBlock T)
      → get_elem? bs (next_index (length bs) i) ≡ some b
      → b.is_free ≡ true
      → search_free bs start (suc r) i ≡ done (next_index (length bs) i)
  unfolding search_free
  search_free-found bs start r i b e f = ground arith

  search_free-more :
      (bs : List (ObjectBlock T)) (start r i : ℕ) (b : ObjectBlock T)
      → get_elem? bs (next_index (length bs) i) ≡ some b
      → b.is_free ≡ false
      → next_index (length bs) i ≢ start
      → search_free bs start (suc r) i ≡ search_free bs start r (next_index (length bs) i)
  unfolding search_free
  search_free-more bs start r i b e f ne = ground arith

  -- The search finds the nearest free slot, at most `d` steps away.
  pub Finds : List (ObjectBlock T) → ℕ → ℕ → ℕ → ℕ → Type ℓ
  Finds bs start d rounds c =
      (k : ℕ) × (k ≤ d)
      × Nearest bs start c k
      × (search_free bs start rounds (around (length bs) start c)
          ≡ done (around (length bs) start k))

  module _ (bs : List (ObjectBlock T)) (start d rounds c : ℕ) (b : ObjectBlock T) where
    Finds-here :
        0 < length bs
        → length bs < 2 ^ 64
        → c < d
        → get_elem? bs (around (length bs) start (suc c)) ≡ some b
        → b.is_free ≡ true
        → Finds bs start d (suc rounds) c
    unfolding Finds
    Finds-here pos small hc e vacant = (
      suc c,
      hc,
      record {
        after = omega arith;
        free = (b, e, vacant);
        first = λ k lo hi. absurd (omega arith);
      },
      search_free-found bs start rounds _ b (rw step e) vacant ∙ ap done step,
    )
      where
        step :
            next_index (length bs) (around (length bs) start c) ≡ around (length bs) start (suc c)
        step = next_index-around (length bs) start c pos small

    Finds-later :
        start < length bs
        → length bs < 2 ^ 64
        → suc c < length bs
        → get_elem? bs (around (length bs) start (suc c)) ≡ some b
        → b.is_free ≡ false
        → Finds bs start d rounds (suc c)
        → Finds bs start d (suc rounds) c
    unfolding Finds
    Finds-later hs small hc e used (k, le, near, run) = (
      k,
      le,
      record {
        after = omega (arith, near.after);
        free = near.free;
        first = λ j lo hi. elim (ℕ_discrete j (suc c)) [
          | yes same ↦ rw same (not-FreeAt bs _ b e used)
          | no other ↦ near.first j (omega arith) hi
        ];
      },
      search_free-more bs start rounds _ b (rw step e) used
            (rw step (mod-add-ne (length bs) start (suc c) hs (omega arith) hc))
          ∙ ap (search_free bs start rounds) step
          ∙ run,
    )
      where
        step :
            next_index (length bs) (around (length bs) start c) ≡ around (length bs) start (suc c)
        step = next_index-around (length bs) start c (omega arith) small

  search_free-Finds :
      (bs : List (ObjectBlock T)) (start d rounds c : ℕ)
      → start < length bs
      → length bs < 2 ^ 64
      → c + rounds ≡ length bs
      → c < d
      → d ≤ length bs
      → FreeAt bs (around (length bs) start d)
      → Finds bs start d rounds c
  search_free-Finds bs start d zero c hs small hr hc hd free = absurd (omega arith)
  search_free-Finds bs start d (suc rounds) c hs small hr hc hd free =
      let (b, e) =
        get_elem?-exists bs (around (length bs) start (suc c))
          (mod-lt (start + suc c) (omega arith)) in
      elim (Bool-cases b.is_free) [
        | inl vacant ↦ Finds-here bs start d rounds c b (omega arith) small hc e vacant
        | inr used ↦ elim (ℕ_discrete d (suc c)) [
          | yes last ↦ absurd (not-FreeAt bs _ b e used (rw (← last) free))
          | no more ↦ Finds-later bs start d rounds c b hs small (omega arith) e used (
              search_free-Finds bs start d rounds (suc c) hs small (omega arith) (omega arith) hd
                free)
        ]
      ]

  update_next_free_index-done :
      (p : MemPool T) (j : ℕ)
      → search_free p.store p.next_free_index (length p.store) p.next_free_index ≡ done j
      → update_next_free_index p ≡ done (record p { next_free_index = j })
  unfolding update_next_free_index
  update_next_free_index-done p j e = ground (arith, e)

  -- While any slot is free, `updateNextFreeIndex` returns, and moves the index to the free slot that
  -- comes first when the store is walked round from behind the old index; nothing else changes.
  pub update_next_free_index-Nearest :
      (p : MemPool T) (j : ℕ)
      → length p.store < 2 ^ 64
      → p.next_free_index < length p.store
      → FreeAt p.store j
      → (k : ℕ) × (k ≤ length p.store)
        × Nearest p.store p.next_free_index 0 k
        × (update_next_free_index p
            ≡ done (record p { next_free_index = around (length p.store) p.next_free_index k }))
  unfolding Finds
  update_next_free_index-Nearest p j small hi free =
      let (d, pos, le, e) =
        distance (length p.store) p.next_free_index j hi (get_elem?-lt p.store j free.0 free.1) in
      let (k, hk, near, run) =
        search_free-Finds p.store p.next_free_index d (length p.store) 0 hi small (omega arith) pos
          le (rw e free) in
      (
        k,
        omega arith,
        near,
        update_next_free_index-done p _
            (sym (ap (search_free p.store p.next_free_index (length p.store)) here) ∙ run),
      )
    where
      here : around (length p.store) p.next_free_index 0 ≡ p.next_free_index
      here = rw add-zero (mod-eq_of_lt hi)
