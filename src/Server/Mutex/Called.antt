-- ===== src/Server/Mutex/Called.antt =====
-- A call keeps the order of the tasks.
use x402b.Prelude.{
  ℕ, suc, ◌<◌, ◌≤◌, String, Option, none, some, ◌≡◌, ◌≢◌, refl, ap, sym, ◌∙◌, ◌⊎◌, inl, inr, ◌==◌,
  nat_eq, string_eq, option_eq, eq_iff, Bool-cases, get, get-put, arith, if◌then◌else◌,
}
use x402b.Server.Mutex.{waiting, Mutex, run_exclusive}
use x402b.Server.Mutex.Order.{Over, Before, Ordered, update_self, update_other}

pub newest : (n j : ℕ) → j < suc n → (j ≡ n) ⊎ (j < n)
newest n j h = omega arith

module _ (s : Mutex) (key : String) (o : Ordered s) where
  abbrev called : Mutex
  called = run_exclusive key s

  old_key : (i : ℕ) → i < s.count → called.keys i ≡ s.keys i
  unfolding run_exclusive
  old_key i h = update_other s.count i key s.keys h

  new_key : called.keys s.count ≡ key
  unfolding run_exclusive
  new_key = update_self s.count key s.keys

  old_prev : (i : ℕ) → i < s.count → called.prevs i ≡ s.prevs i
  unfolding run_exclusive
  old_prev i h = update_other s.count i _ s.prevs h

  new_prev : called.prevs s.count ≡ get s.chains key
  unfolding run_exclusive
  new_prev = update_self s.count _ s.prevs

  old_phase : (i : ℕ) → i < s.count → called.phases i ≡ s.phases i
  unfolding run_exclusive
  old_phase i h = update_other s.count i _ s.phases h

  chain_of :
      (k : String) → get called.chains k ≡ (if key == k then some s.count else get s.chains k)
  unfolding run_exclusive
  chain_of k = get-put s.chains key k s.count

  -- The tasks before the new one, and before an old one.
  called_linked : (j p : ℕ) → j < suc s.count → called.prevs j ≡ some p → Before called p j
  called_linked j p h q = elim (newest s.count j h) [
    | inl e ↦
        let (bound, same) = o.tails key p (sym new_prev ∙ ap called.prevs (sym e) ∙ q) in
        (rw e bound, old_key p bound ∙ same ∙ sym new_key ∙ ap called.keys (sym e))
    | inr lower ↦
        let (below, same) = o.linked j p lower (sym (old_prev j lower) ∙ q) in
        (below, old_key p (omega arith) ∙ same ∙ sym (old_key j lower))
  ]

  old-Before : (i j : ℕ) → j < s.count → Before called i j → Before s i j
  old-Before i j h (below, same) = (below, sym (old_key i (omega arith)) ∙ same ∙ old_key j h)

  -- Before the new task, with its key.
  newer : (i j : ℕ) → j ≡ s.count → Before called i j → (i < s.count) × (s.keys i ≡ key)
  newer i j e (below, same) =
      let lower : i < s.count = rw (← e) below in
      (lower, sym (old_key i lower) ∙ same ∙ ap called.keys e ∙ new_key)

  old-Over : (i : ℕ) → i < s.count → Over s i → Over called i
  old-Over i h over = rw (old_phase i h) over

  called_covers :
      (i j : ℕ)
      → j < suc s.count
      → Before called i j
      → Over called i ⊎ ((p : ℕ) × (called.prevs j ≡ some p) × (i ≤ p))
  called_covers i j h before = elim (newest s.count j h) [
    | inl e ↦
        let (lower, same) = newer i j e before in
        chained lower same (ap called.prevs e ∙ new_prev) (get s.chains key) refl
    | inr lower ↦ elim (o.covers i j lower (old-Before i j lower before)) [
      | inl over ↦ inl (old-Over i (omega (arith, before.0)) over)
      | inr (p, q, least) ↦ inr (p, old_prev j lower ∙ q, least)
    ]
  ]
    where
      chained :
          i < s.count
          → s.keys i ≡ key
          → called.prevs j ≡ get s.chains key
          → (tail : Option ℕ) → get s.chains key ≡ tail
          → Over called i ⊎ ((p : ℕ) × (called.prevs j ≡ some p) × (i ≤ p))
      chained lower same q none r = inl (old-Over i lower (o.free key i r lower same))
      chained lower same q (some t) r = inr (t, q ∙ r, o.last key t i r lower same)

  called_in_turn :
      (i j : ℕ) → j < suc s.count → Before called i j → (called.phases j ≡ waiting) ⊎ Over called i
  unfolding run_exclusive
  called_in_turn i j h before = elim (newest s.count j h) [
    | inl e ↦ inl (rw e (update_self s.count waiting s.phases))
    | inr lower ↦ elim (o.in_turn i j lower (old-Before i j lower before)) [
      | inl w ↦ inl (old_phase j lower ∙ w)
      | inr over ↦ inr (old-Over i (omega (arith, before.0)) over)
    ]
  ]

  -- The tail of a key is the new task, or an old one of another key.
  called_tail :
      (k : String) (t : ℕ)
      → get called.chains k ≡ some t
      → ((t ≡ s.count) × (key ≡ k)) ⊎ ((key ≢ k) × (get s.chains k ≡ some t))
  called_tail k t h = elim (Bool-cases (key == k)) [
    | inl e ↦
        inl (let same : some s.count ≡ some t = rw (chain_of k, e) at h in cc, (eq_iff key k).0 e)
    | inr e ↦ inr (λ same. cc (sym e ∙ (eq_iff key k).1 same), rw (chain_of k, e) at h)
  ]

  pub Ordered-run_exclusive : Ordered called
  unfolding run_exclusive
  Ordered-run_exclusive = record {
    linked = called_linked;
    covers = called_covers;
    in_turn = called_in_turn;
    tails = λ k t h. elim (called_tail k t h) [
      | inl (new, same) ↦ (omega (arith, new), ap called.keys new ∙ new_key ∙ same)
      | inr (other, found) ↦
          let (bound, same) = o.tails k t found in (omega (arith, bound), old_key t bound ∙ same)
    ];
    last = λ k t i h bound same. elim (called_tail k t h) [
      | inl (new, _) ↦ omega (arith, new, bound)
      | inr (other, found) ↦ elim (newest s.count i bound) [
        | inl e ↦ absurd (other (sym new_key ∙ ap called.keys (sym e) ∙ same))
        | inr lower ↦ o.last k t i found lower (sym (old_key i lower) ∙ same)
      ]
    ];
    free = λ k i h bound same. elim (Bool-cases (key == k)) [
      | inl e ↦ absurd (clash (rw (chain_of k, e) at h))
      | inr e ↦ elim (newest s.count i bound) [
        | inl new ↦ cc (sym e ∙ (eq_iff key k).1 (sym new_key ∙ ap called.keys (sym new) ∙ same))
        | inr lower ↦
            old-Over i lower
              (o.free k i (rw (chain_of k, e) at h) lower (sym (old_key i lower) ∙ same))
      ]
    ];
  }
    where
      clash : ◌≡◌ {A = Option ℕ} (some s.count) none → ⊥
      clash h = cc
