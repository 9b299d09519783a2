-- ===== src/Server/Mutex/Order.antt =====
-- The order of a key's tasks.
use x402b.Prelude.{
  ℕ, ◌<◌, ◌≤◌, String, none, some, true, ◌≡◌, refl, sym, ◌∙◌, ◌⊎◌, inl, inr, ◌==◌, nat_eq,
  string_eq, option_eq, eq_iff, Bool-cases, get, remove, get-remove, arith,
}
use x402b.Server.Mutex.{
  Phase, waiting, running, ended, cleaned, Mutex, update, move, is_over, is_settled,
}

module _ (s : Mutex) where
  abbrev pub Over : ℕ → Type 0
  Over i = is_over (s.phases i) ≡ true

  -- An earlier task of the same key.
  abbrev pub Before : ℕ → ℕ → Type 0
  Before i j = (i < j) × (s.keys i ≡ s.keys j)

  -- A task is chained to an earlier one of its key, behind every one that is not over; it does not
  -- start before those are over; and a key's tail is its last task, where there is one.
  pub record Ordered : Type 0 where
    pub linked : (j p : ℕ) → j < s.count → s.prevs j ≡ some p → Before p j
    pub covers :
        (i j : ℕ) → j < s.count → Before i j → Over i ⊎ ((p : ℕ) × (s.prevs j ≡ some p) × (i ≤ p))
    pub in_turn : (i j : ℕ) → j < s.count → Before i j → (s.phases j ≡ waiting) ⊎ Over i
    pub tails : (k : String) (t : ℕ) → get s.chains k ≡ some t → (t < s.count) × (s.keys t ≡ k)
    pub last : (k : String) (t i : ℕ) → get s.chains k ≡ some t → i < s.count → s.keys i ≡ k → i ≤ t
    pub free : (k : String) (i : ℕ) → get s.chains k ≡ none → i < s.count → s.keys i ≡ k → Over i

pub update_self : {A : Type 0} (n : ℕ) (a : A) (f : ℕ → A) → update n a f n ≡ a
update_self n a f = rw ((nat_eq.beq_iff n n).1 refl) refl

pub update_other : {A : Type 0} (n m : ℕ) (a : A) (f : ℕ → A) → m < n → update n a f m ≡ f m
update_other n m a f h = elim (Bool-cases (n == m)) [
  | inl e ↦ let same : n ≡ m = (nat_eq.beq_iff n m).0 e in absurd (omega (arith, same, h))
  | inr e ↦ rw e refl
]

pub not_waiting_over : (p : Phase) → p ≡ waiting → is_over p ≡ true → ⊥
not_waiting_over waiting h k = cc
not_waiting_over running h k = cc
not_waiting_over ended h k = cc
not_waiting_over cleaned h k = cc

module _ (s : Mutex) (o : Ordered s) where
  -- A task whose predecessor's promise has settled has every earlier task of its key over.
  pub settled_turn :
      (n : ℕ) → n < s.count → is_settled s (s.prevs n) ≡ true → (i : ℕ) → Before s i n → Over s i
  settled_turn n bound settled i before = elim (o.covers i n bound before) [
    | inl over ↦ over
    | inr (p, q, least) ↦
        let over : Over s p = rw q at settled in
        let (lower, same) = o.linked n p bound q in
        elim (split_at i p least) [
          | inl e ↦ rw (← e) at over
          | inr below ↦
              elim (o.in_turn i p (omega (arith, lower, bound)) (below, before.1 ∙ sym same)) [
                | inl w ↦ absurd (not_waiting_over _ w over)
                | inr done ↦ done
              ]
        ]
  ]
    where
      split_at : (i p : ℕ) → i ≤ p → (i ≡ p) ⊎ (i < p)
      split_at i p h = omega arith

pub kept :
    (f : ℕ → Phase) (n i : ℕ) (phase : Phase)
    → (is_over (f n) ≡ true → is_over phase ≡ true)
    → is_over (f i) ≡ true
    → is_over (update n phase f i) ≡ true
kept f n i phase keeps over = elim (Bool-cases (n == i)) [
  | inl e ↦ let same : n ≡ i = (nat_eq.beq_iff n i).0 e in rw e (keeps (rw (← same) at over))
  | inr e ↦ rw e over
]

-- A task whose turn it is may move on, unless it goes back.
pub Ordered-move :
    (s : Mutex) (n : ℕ) (phase : Phase)
    → Ordered s
    → (is_over (s.phases n) ≡ true → is_over phase ≡ true)
    → ((i : ℕ) → Before s i n → Over s i)
    → Ordered (move n phase s)
Ordered-move s n phase o keeps turn = record {
  linked = o.linked;
  covers = λ i j bound before. elim (o.covers i j bound before) [
    | inl over ↦ inl (kept s.phases n i phase keeps over)
    | inr chained ↦ inr chained
  ];
  in_turn = λ i j bound before. elim (Bool-cases (n == j)) [
    | inl e ↦
        let same : n ≡ j = (nat_eq.beq_iff n j).0 e in
        inr (kept s.phases n i phase keeps (turn i (rw same before)))
    | inr e ↦ elim (o.in_turn i j bound before) [
      | inl w ↦ inl (rw e w)
      | inr over ↦ inr (kept s.phases n i phase keeps over)
    ]
  ];
  tails = o.tails;
  last = o.last;
  free =
      λ k i none_left bound same. kept s.phases n i phase keeps (o.free k i none_left bound same);
}

-- A key whose tasks are all over may be forgotten.
pub Ordered-remove :
    (s : Mutex) (key : String)
    → Ordered s
    → ((i : ℕ) → i < s.count → s.keys i ≡ key → Over s i)
    → Ordered (record s { chains = remove s.chains key })
Ordered-remove s key o all_over = record {
  linked = o.linked;
  covers = o.covers;
  in_turn = o.in_turn;
  tails = λ k t h. o.tails k t (found k t h);
  last = λ k t i h. o.last k t i (found k t h);
  free = λ k i h bound same. elim (Bool-cases (key == k)) [
    | inl e ↦ all_over i bound (same ∙ sym ((eq_iff key k).0 e))
    | inr e ↦ o.free k i (rw (get-remove s.chains key k, e) at h) bound same
  ];
}
  where
    found : (k : String) (t : ℕ) → get (remove s.chains key) k ≡ some t → get s.chains k ≡ some t
    found k t h = elim (Bool-cases (key == k)) [
      | inl e ↦ cc (rw (get-remove s.chains key k, e) at h)
      | inr e ↦ rw (get-remove s.chains key k, e) at h
    ]
