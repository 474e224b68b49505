-- ===== src/MemPool/Valid.antt =====
-- The invariant of a pool, and what a write to one slot does to it.
use lowlatency_cpp.Base.{
  ℕ, zero, suc, ◌+◌, ◌^◌, ◌≤◌, ◌<◌, ◌≡◌, ◌≢◌, refl, true, false, none, some, List, [], ◌∷◌, length,
  get_elem?, set, replicate, arith, inl, inr, Bool-cases, sym, get_elem?-set_self, get_elem?-set_ne,
  get_elem?-lt, length-set, length-replicate, done,
}
use native.Mathlib.Decide.{ℕ_discrete}
use lowlatency_cpp.MemPool.{ObjectBlock, MemPool, empty_block, fresh_pool, create}

-- An object is alive in a slot exactly when the slot is not marked free.
abbrev pub Coherent {ℓ} : {T : Type ℓ} → ObjectBlock T → Type ℓ
Coherent b = (b.is_free ≡ true → b.storage ≡ none) × (b.is_free ≡ false → b.storage ≢ none)

module _ {ℓ} {T : Type ℓ} where
  abbrev pub free_weight : ObjectBlock T → ℕ
  free_weight b = elim (b.is_free) [ true ↦ 1 | false ↦ 0 ]

  abbrev pub count_free : List (ObjectBlock T) → ℕ
  count_free [] = 0
  count_free (b ∷ bs) = free_weight b + count_free bs

  abbrev pub FreeAt : List (ObjectBlock T) → ℕ → Type ℓ
  FreeAt bs i = (b : ObjectBlock T) × (get_elem? bs i ≡ some b) × (b.is_free ≡ true)

  pub record IsValid (p : MemPool T) : Type ℓ where
    pub nonempty : 0 < length p.store
    pub sized : length p.store < 2 ^ 64
    pub next_in : p.next_free_index < length p.store
    pub counted : p.num_free ≡ count_free p.store
    pub ready : 0 < p.num_free → FreeAt p.store p.next_free_index
    pub lifetimes : (i : ℕ) (b : ObjectBlock T) → get_elem? p.store i ≡ some b → Coherent b
    pub base_set : 0 < p.base
    pub stride_set : 0 < p.stride

  pub count_free-le : (bs : List (ObjectBlock T)) → count_free bs ≤ length bs
  count_free-le [] = omega arith
  count_free-le (b ∷ bs) = ground (arith, count_free-le bs)

  pub count_free-set :
      (bs : List (ObjectBlock T)) (i : ℕ) (b c : ObjectBlock T)
      → get_elem? bs i ≡ some b
      → count_free (set bs i c) + free_weight b ≡ count_free bs + free_weight c
  count_free-set [] i b c h = cc
  count_free-set (x ∷ bs) zero b c h = ground arith
  count_free-set (x ∷ bs) (suc i) b c h = omega (arith, count_free-set bs i b c h)

  pub FreeAt-of_count :
      (bs : List (ObjectBlock T)) → 0 < count_free bs → (k : ℕ) × (k < length bs) × FreeAt bs k
  FreeAt-of_count [] h = absurd (omega arith)
  FreeAt-of_count (x ∷ bs) h = elim (Bool-cases x.is_free) [
    | inl free ↦ (0, omega arith, (x, refl, free))
    | inr used ↦ let (k, lt, at) = FreeAt-of_count bs (ground arith) in (suc k, omega arith, at)
  ]

  pub set-Coherent :
      (bs : List (ObjectBlock T)) (i : ℕ) (c : ObjectBlock T)
      → Coherent c
      → ((j : ℕ) (b : ObjectBlock T) → get_elem? bs j ≡ some b → Coherent b)
      → (j : ℕ) (b : ObjectBlock T) → get_elem? (set bs i c) j ≡ some b
      → Coherent b
  set-Coherent bs i c hc h j b e = elim (ℕ_discrete i j) [
    | yes same ↦
        ground (arith, get_elem?-set_self bs i c, length-set bs i c, get_elem?-lt (set bs i c) j b)
    | no other ↦ h j b (rw (← get_elem?-set_ne bs i j c other) e)
  ]

  count_free-replicate :
      (n : ℕ) (b : ObjectBlock T) → b.is_free ≡ true → count_free (replicate n b) ≡ n
  count_free-replicate zero b h = refl
  count_free-replicate (suc n) b h = ground (arith, count_free-replicate n b h)

  pub get_elem?-replicate :
      (n i : ℕ) (a b : ObjectBlock T) → get_elem? (replicate n a) i ≡ some b → b ≡ a
  get_elem?-replicate zero i a b h = cc
  get_elem?-replicate (suc n) zero a b h = cc
  get_elem?-replicate (suc n) (suc i) a b h = get_elem?-replicate n i a b h

  head-replicate : (n : ℕ) (a : ObjectBlock T) → 0 < n → get_elem? (replicate n a) 0 ≡ some a
  head-replicate zero a h = absurd (omega arith)
  head-replicate (suc n) a h = refl

  pub fresh_pool-IsValid :
      (n base stride : ℕ)
      → 0 < n
      → n < 2 ^ 64
      → 0 < base
      → 0 < stride
      → IsValid (fresh_pool n base stride)
  fresh_pool-IsValid n base stride pos small hb hs = record {
    nonempty = omega (arith, length-replicate n (empty_block {T = T}));
    sized = omega (arith, length-replicate n (empty_block {T = T}));
    next_in = omega (arith, length-replicate n (empty_block {T = T}));
    counted = sym (count_free-replicate n empty_block refl);
    ready = λ h. (empty_block, head-replicate n empty_block pos, refl);
    lifetimes = λ i b e. rw (get_elem?-replicate n i empty_block b e) (λ _. refl, λ h. cc);
    base_set = hb;
    stride_set = hs;
  }

  -- The constructor makes a valid pool of as many free slots as asked.
  pub create-IsValid :
      (n base stride : ℕ) {p : MemPool T}
      → n < 2 ^ 64
      → 0 < base
      → 0 < stride
      → create n base stride ≡ done p
      → IsValid p × (p.num_free ≡ n) × (length p.store ≡ n)
  unfolding create
  create-IsValid n base stride small hb hs e =
      ground (arith, fresh_pool-IsValid n base stride, length-replicate n (empty_block {T = T}))
