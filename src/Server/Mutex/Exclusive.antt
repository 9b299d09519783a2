-- ===== src/Server/Mutex/Exclusive.antt =====
-- What the mutex promises.
use x402b.Prelude.{
  ℕ, suc, ◌<◌, ◌≤◌, String, Option, none, some, true, ◌≡◌, ◌≢◌, refl, ap, sym, ◌∙◌, ◌⊎◌, inl, inr,
  ◌==◌, nat_eq, string_eq, option_eq, eq_iff, Bool-cases, get, remove, get-put, get-remove, arith,
}
use x402b.Server.Mutex.{
  Phase, waiting, running, ended, cleaned, Mutex, run_exclusive, move, is_tail, clean_up, is_over,
  is_settled, Step, Reachable,
}
use x402b.Server.Mutex.Reached.{Reachable-Ordered}
use x402b.Server.Mutex.Order.{Ordered, update_other}

-- The tasks of a key run in the order of their calls: one that has started has every earlier task of
-- its key over, whether that resolved or rejected, so that no two of them run at once.
pub Reachable-in_turn :
    (s : Mutex) (i j : ℕ)
    → Reachable s
    → i < j
    → j < s.count
    → s.keys i ≡ s.keys j
    → s.phases j ≢ waiting
    → is_over (s.phases i) ≡ true
Reachable-in_turn s i j reached below bound same started =
    elim ((Reachable-Ordered s reached).in_turn i j bound (below, same)) [
      | inl w ↦ absurd (started w)
      | inr over ↦ over
    ]

-- The task is running, or may start.
abbrev pub Ready : Mutex → ℕ → Type 0
Ready s n = (s.phases n ≡ running) ⊎ ((s.phases n ≡ waiting) × (is_settled s (s.prevs n) ≡ true))

phase_cases : (p : Phase) → (p ≡ waiting) ⊎ ((p ≡ running) ⊎ (is_over p ≡ true))
phase_cases waiting = inl refl
phase_cases running = inr (inl refl)
phase_cases ended = inr (inr refl)
phase_cases cleaned = inr (inr refl)

abbrev Progresses : Mutex → ℕ → Type 0
Progresses s n = (i : ℕ) × (i ≤ n) × (s.keys i ≡ s.keys n) × Ready s i

module _ (s : Mutex) (o : Ordered s) where
  chained_progress :
      (n : ℕ)
      → ((p : ℕ) → p < n → p < s.count → s.phases p ≡ waiting → Progresses s p)
      → n < s.count
      → s.phases n ≡ waiting
      → (prev : Option ℕ) → s.prevs n ≡ prev
      → Progresses s n
  chained_progress n below bound w none q = (n, omega arith, refl, inr (w, ap (is_settled s) q))
  chained_progress n below bound w (some p) q =
      let (lower, same) = o.linked n p bound q in
      elim (phase_cases (s.phases p)) [
        | inl v ↦
            let (i, least, key, ready) = below p lower (omega (arith, lower, bound)) v in
            (i, omega (arith, least, lower), key ∙ same, ready)
        | inr (inl runs) ↦ (p, omega (arith, lower), same, inl runs)
        | inr (inr over) ↦ (n, omega arith, refl, inr (w, ap (is_settled s) q ∙ over))
      ]

  up_to : (m n : ℕ) → n < m → n < s.count → s.phases n ≡ waiting → Progresses s n
  up_to ℕ.zero n h bound w = absurd (omega (arith, h))
  up_to (suc m) n h bound w =
      chained_progress n (λ p lower. up_to m p (omega (arith, lower, h))) bound w (s.prevs n) refl

-- A task waits for none but a running task of its key, or one that may start: no key is stuck,
-- however its tasks end.
pub Reachable-progress :
    (s : Mutex) (n : ℕ)
    → Reachable s
    → n < s.count
    → s.phases n ≡ waiting
    → (i : ℕ) × (i ≤ n) × (s.keys i ≡ s.keys n) × Ready s i
Reachable-progress s n reached bound w =
    up_to s (Reachable-Ordered s reached) (suc n) n (omega arith) bound w

abbrev Live : Mutex → Type 0
Live s = (k : String) (t : ℕ) → get s.chains k ≡ some t → s.phases t ≢ cleaned

Live-move : (s : Mutex) (n : ℕ) (phase : Phase) → phase ≢ cleaned → Live s → Live (move n phase s)
Live-move s n phase other live k t h = elim (Bool-cases (n == t)) [
  | inl e ↦ λ c. other (rw e at c)
  | inr e ↦ λ c. live k t h (rw e at c)
]

Live-run_exclusive : (s : Mutex) (key : String) → Ordered s → Live s → Live (run_exclusive key s)
unfolding run_exclusive
Live-run_exclusive s key o live k t h = elim (Bool-cases (key == k)) [
  | inl e ↦
      let new : some s.count ≡ some t = rw (get-put s.chains key k s.count, e) at h in
      let same : s.count ≡ t = cc in λ c. cc (rw (same, (nat_eq.beq_iff t t).1 refl) at c)
  | inr e ↦
      let old : get s.chains k ≡ some t = rw (get-put s.chains key k s.count, e) at h in
      λ c. live k t old (sym (update_other s.count t waiting s.phases (o.tails k t old).0) ∙ c)
]

-- After `clean_up n` a tail is an old one other than `n`.
surviving :
    (s : Mutex) (n : ℕ) (k : String) (t : ℕ)
    → Ordered s
    → get (clean_up n s).chains k ≡ some t
    → (get s.chains k ≡ some t) × (n ≢ t)
unfolding clean_up
surviving s n k t o h = elim (Bool-cases (is_tail n (get s.chains (s.keys n)))) [
  | inl e ↦ removed (rw e at h)
  | inr e ↦
      let found : get s.chains k ≡ some t = rw e at h in
      (
        found,
        λ same.
            let key : s.keys n ≡ k = ap s.keys same ∙ (o.tails k t found).1 in
            cc (
              sym e
              ∙ (option_eq.beq_iff (get s.chains (s.keys n)) (some n)).1
                  (ap (get s.chains) key ∙ found ∙ ap (λ x. some x) (sym same))),
      )
]
  where
    removed : get (remove s.chains (s.keys n)) k ≡ some t → (get s.chains k ≡ some t) × (n ≢ t)
    removed r = elim (Bool-cases (s.keys n == k)) [
      | inl f ↦ cc (rw (get-remove s.chains (s.keys n) k, f) at r)
      | inr f ↦
          let found : get s.chains k ≡ some t = rw (get-remove s.chains (s.keys n) k, f) at r in
          (
            found,
            λ same. cc (sym f ∙ (eq_iff (s.keys n) k).1 (ap s.keys same ∙ (o.tails k t found).1)),
          )
    ]

Live-clean_up : (s : Mutex) (n : ℕ) → Ordered s → Live s → Live (clean_up n s)
unfolding clean_up
Live-clean_up s n o live k t h =
    let (found, other) = surviving s n k t o h in
    elim (Bool-cases (n == t)) [
      | inl e ↦ absurd (other ((nat_eq.beq_iff n t).0 e))
      | inr e ↦ λ c. live k t found (rw e at c)
    ]

step-Live : (s t : Mutex) → Ordered s → Live s → Step s t → Live t
step-Live s t o live (Step.call key) = Live-run_exclusive s key o live
step-Live s t o live (Step.start n bound w settled) = Live-move s n running (λ c. cc) live
step-Live s t o live (Step.end_task n bound runs) = Live-move s n ended (λ c. cc) live
step-Live s t o live (Step.clean n bound over) = Live-clean_up s n o live

Reachable-Live : (s : Mutex) → Reachable s → Live s
Reachable-Live s Reachable.created = λ k t h. cc
Reachable-Live s (Reachable.stepped {s = r} reached step) =
    step-Live r s (Reachable-Ordered r reached) (Reachable-Live r reached) step

-- A key is remembered for no longer than its last task: its entry is of a task of that key that has
-- not been cleaned up, and that no task of the key was called after.
Reachable-chains :
    (s : Mutex) (k : String) (t : ℕ)
    → Reachable s
    → get s.chains k ≡ some t
    → (t < s.count)
      × (s.keys t ≡ k)
      × (s.phases t ≢ cleaned)
      × ((i : ℕ) → i < s.count → s.keys i ≡ k → i ≤ t)
Reachable-chains s k t reached h =
    let o = Reachable-Ordered s reached in
    let (bound, same) = o.tails k t h in
    (bound, same, Reachable-Live s reached k t h, λ i i_bound key. o.last k t i h i_bound key)
