-- ===== src/Server/Mutex.antt =====
-- concurrency.ts: the mutex per key. A call's task is known by its number, which also stands for the
-- promise `tracked` of its end; that promise settles whether the task resolves or rejects. What the
-- runtime does between two calls are steps: a task starts after its predecessor's promise, ends, and
-- is cleaned up after.
pub mod Order
pub mod Called
pub mod Reached
pub mod Exclusive
mod Tests
use x402b.Prelude.{
  ℕ, suc, ◌<◌, String, Option, none, some, Bool, true, ◌≡◌, ◌==◌, nat_eq, option_eq, Dict, get, put,
  remove, [], if◌then◌else◌,
}

pub data Phase : Type 0 where
  waiting running ended cleaned : Phase

-- Tasks have the numbers below `count`, each with its key, the promise that it was chained to, which
-- is none for `Promise.resolve()`, and its phase.
pub record Mutex : Type 0 where
  pub chains : Dict ℕ
  pub keys : ℕ → String
  pub prevs : ℕ → Option ℕ
  pub phases : ℕ → Phase
  pub count : ℕ

abbrev pub create_keyed_mutex : Mutex
create_keyed_mutex = record {
  chains = [];
  keys = λ n. "";
  prevs = λ n. none;
  phases = λ n. Phase.cleaned;
  count = 0;
}

abbrev pub update : {A : Type 0} → ℕ → A → (ℕ → A) → ℕ → A
update n a f m = if n == m then a else f m

-- `runExclusive(key, fn)`, up to the first suspension.
unfoldable pub run_exclusive : String → Mutex → Mutex
unfolding put
run_exclusive key s = record {
  chains = put s.chains key s.count;
  keys = update s.count key s.keys;
  prevs = update s.count (get s.chains key) s.prevs;
  phases = update s.count Phase.waiting s.phases;
  count = suc s.count;
}

abbrev pub move : ℕ → Phase → Mutex → Mutex
move n phase s = record s { phases = update n phase s.phases }

-- The test on the tail by identity.
abbrev pub is_tail : ℕ → Option ℕ → Bool
is_tail n tail = tail == some n

-- `tracked.then(() => …)`
unfoldable pub clean_up : ℕ → Mutex → Mutex
unfolding remove
clean_up n s = record (move n Phase.cleaned s) {
  chains = if is_tail n (get s.chains (s.keys n)) then remove s.chains (s.keys n) else s.chains;
}

abbrev pub is_over : Phase → Bool
is_over Phase.ended = true
is_over Phase.cleaned = true
is_over _ = Bool.false

-- Whether the promise that a task was chained to has settled.
abbrev pub is_settled : Mutex → Option ℕ → Bool
is_settled s none = true
is_settled s (some p) = is_over (s.phases p)

-- What can happen next.
pub data Step (s : Mutex) : Mutex → Type 0 where
  call : (key : String) → Step s (run_exclusive key s)
  start :
      (n : ℕ)
      → n < s.count
      → s.phases n ≡ Phase.waiting
      → is_settled s (s.prevs n) ≡ true
      → Step s (move n Phase.running s)
  end_task : (n : ℕ) → n < s.count → s.phases n ≡ Phase.running → Step s (move n Phase.ended s)
  clean : (n : ℕ) → n < s.count → s.phases n ≡ Phase.ended → Step s (clean_up n s)

pub data Reachable : Mutex → Type 0 where
  created : Reachable create_keyed_mutex
  stepped : {s t : Mutex} → Reachable s → Step s t → Reachable t
