-- ===== src/Server/Mutex/Reached.antt =====
-- The order of the tasks in every state that is reached.
use x402b.Prelude.{
  ℕ, ◌<◌, Option, some, true, ◌≡◌, ◌≢◌, refl, sym, ◌∙◌, inl, inr, nat_eq, string_eq, option_eq,
  Bool-cases, get, arith,
}
use x402b.Server.Mutex.{
  waiting, running, ended, cleaned, Mutex, create_keyed_mutex, move, is_tail, clean_up, Step,
  Reachable,
}
use x402b.Server.Mutex.Order.{
  Over, Before, Ordered, update_self, kept, settled_turn, not_waiting_over, Ordered-move,
  Ordered-remove,
}
use x402b.Server.Mutex.Called.{newest, Ordered-run_exclusive}

Ordered-created : Ordered create_keyed_mutex
Ordered-created = record {
  linked = λ j p h q. absurd (omega (arith, h));
  covers = λ i j h before. absurd (omega (arith, h));
  in_turn = λ i j h before. absurd (omega (arith, h));
  tails = λ k t h. cc;
  last = λ k t i h bound same. cc;
  free = λ k i h bound same. absurd (omega (arith, bound));
}

running_turn :
    (s : Mutex) (n : ℕ)
    → Ordered s
    → n < s.count
    → s.phases n ≢ waiting
    → (i : ℕ) → Before s i n
    → Over s i
running_turn s n o bound started i before = elim (o.in_turn i n bound before) [
  | inl w ↦ absurd (started w)
  | inr over ↦ over
]

is_tail-eq : (n : ℕ) (tail : Option ℕ) → is_tail n tail ≡ true → tail ≡ some n
is_tail-eq n tail h = (option_eq.beq_iff tail (some n)).0 h

Ordered-clean_up :
    (s : Mutex) (n : ℕ) → Ordered s → n < s.count → s.phases n ≡ ended → Ordered (clean_up n s)
unfolding clean_up
Ordered-clean_up s n o bound over = elim (Bool-cases (is_tail n (get s.chains (s.keys n)))) [
  | inl e ↦ rw e (Ordered-remove (move n cleaned s) (s.keys n) moved (all_over (is_tail-eq n _ e)))
  | inr e ↦ rw e moved
]
  where
    turn : (i : ℕ) → Before s i n → Over s i
    turn = running_turn s n o bound (λ w. cc (sym over ∙ w))

    moved : Ordered (move n cleaned s)
    moved = Ordered-move s n cleaned o (λ h. refl) turn

    all_over :
        get s.chains (s.keys n) ≡ some n
        → (i : ℕ) → i < s.count
        → s.keys i ≡ s.keys n
        → Over (move n cleaned s) i
    all_over tail i h same = elim (newest n i (omega (arith, o.last (s.keys n) n i tail h same))) [
      | inl e ↦ rw (e, update_self n cleaned s.phases) refl
      | inr lower ↦ kept s.phases n i cleaned (λ x. refl) (turn i (lower, same))
    ]

pub step-Ordered : (s t : Mutex) → Ordered s → Step s t → Ordered t
step-Ordered s t o (Step.call key) = Ordered-run_exclusive s key o
step-Ordered s t o (Step.start n bound w settled) =
    Ordered-move s n running o (λ h. absurd (not_waiting_over (s.phases n) w h))
      (settled_turn s o n bound settled)
step-Ordered s t o (Step.end_task n bound runs) =
    Ordered-move s n ended o (λ h. refl) (running_turn s n o bound (λ w. cc (sym runs ∙ w)))
step-Ordered s t o (Step.clean n bound over) = Ordered-clean_up s n o bound over

pub Reachable-Ordered : (s : Mutex) → Reachable s → Ordered s
Reachable-Ordered s Reachable.created = Ordered-created
Reachable-Ordered s (Reachable.stepped {s = r} reached step) =
    step-Ordered r s (Reachable-Ordered r reached) step
