-- ===== src/Orchestrator/Shape.antt =====
-- What the small steps of the orchestrator leave alone.
use my_symphony.Base.{[], ◌∷◌, true, refl, ◌∙◌, All, ◌||◌, length, ◌&&◌, arith, not, some, ◌≡◌, ℤ}
use my_symphony.Orchestrator.Timers.{schedule_tick}
use my_symphony.Orchestrator.Snapshots.{notify}
use my_symphony.Go.Utf8.{text_eq_refl, text_eq_iff, text_eq, Text}
use my_symphony.Orchestrator.Env.{Env}
use my_symphony.Go.Maps.{get-delete, length-put, get-put, put, delete, get, has, Map}
use my_symphony.Orchestrator.State.{RunningEntry, Effect, effect, set_running, Orchestrator}

pub schedule_tick-state : (d : ℤ) (o : Orchestrator) → (schedule_tick d o).state ≡ o.state
unfolding schedule_tick
schedule_tick-state d o = ground arith

pub notify-state : (env : Env) (o : Orchestrator) → (notify env o).state ≡ o.state
unfolding notify
notify-state env o = ground arith

-- The keys of a map after a write and a deletion.
pub has-put {ℓ} :
    {V : Type ℓ} (k j : Text) (v : V) (m : Map V) → has j (put k v m) ≡ (text_eq k j || has j m)
has-put k j v m = rw (get-put k j v m) (ground arith)

pub has-delete {ℓ} :
    {V : Type ℓ} (k j : Text) (m : Map V) → has j (delete k m) ≡ (not (text_eq k j) && has j m)
has-delete k j m = rw (get-delete k j m) (ground arith)

-- A write at a key that is there keeps the keys and the size.
pub has-put_old {ℓ} :
    {V : Type ℓ} (k j : Text) (v w : V) (m : Map V) → get k m ≡ some w → has j (put k v m) ≡ has j m
has-put_old k j v w m e = ground (arith, has-put k j v m, text_eq_iff k j)

pub length-put_old {ℓ} :
    {V : Type ℓ} (k : Text) (v w : V) (m : Map V) → get k m ≡ some w → length (put k v m) ≡ length m
length-put_old k v w m e = ground (arith, length-put k v m)

-- The steps of reconciliation and of a worker's updates write running entries, and add and remove
-- none.
pub record SameKeys (o p : Orchestrator) : Type 0 where
  pub claimed : p.claimed ≡ o.claimed
  pub retries : p.retry_attempts ≡ o.retry_attempts
  pub keys : (id : Text) → has id p.running ≡ has id o.running
  pub size : length p.running ≡ length o.running
  pub config : p.cfg ≡ o.cfg
  pub limit : p.max_concurrent_agents ≡ o.max_concurrent_agents

pub SameKeys-refl : (o : Orchestrator) → SameKeys o o
SameKeys-refl o = record {
  claimed = refl;
  retries = refl;
  keys = λ _. refl;
  size = refl;
  config = refl;
  limit = refl;
}

pub SameKeys-trans : (o p q : Orchestrator) → SameKeys o p → SameKeys p q → SameKeys o q
SameKeys-trans o p q h k = record {
  claimed = k.claimed ∙ h.claimed;
  retries = k.retries ∙ h.retries;
  keys = λ id. k.keys id ∙ h.keys id;
  size = k.size ∙ h.size;
  config = k.config ∙ h.config;
  limit = k.limit ∙ h.limit;
}

-- A write of an entry that is there.
pub SameKeys-put :
    (id : Text) (e e' : RunningEntry) (o : Orchestrator)
    → get id o.running ≡ some e
    → SameKeys o (set_running (put id e' o.running) o)
unfolding set_running
SameKeys-put id e e' o h = record {
  claimed = refl;
  retries = refl;
  keys = λ j. has-put_old id j e' e o.running h;
  size = length-put_old id e' e o.running h;
  config = refl;
  limit = refl;
}

pub SameKeys-effect : (x : Effect) (o p : Orchestrator) → SameKeys o p → SameKeys o (effect x p)
unfolding effect
SameKeys-effect x o p h = record {
  claimed = h.claimed;
  retries = h.retries;
  keys = h.keys;
  size = h.size;
  config = h.config;
  limit = h.limit;
}

All-has_weaken {ℓ} :
    {V : Type ℓ} (k : Text) (v : V) (m n : Map V)
    → All (λ p. has p.0 m ≡ true) n
    → All (λ p. has p.0 ((k, v) ∷ m) ≡ true) n
unfolding get
All-has_weaken k v m [] h = tt
All-has_weaken k v m ((j, w) ∷ n) h = (ground arith, All-has_weaken k v m n h.1)

-- Every key that a map lists is in it.
pub All-has {ℓ} : {V : Type ℓ} (m : Map V) → All (λ p. has p.0 m ≡ true) m
unfolding get
All-has [] = tt
All-has ((k, v) ∷ m) = (ground (arith, text_eq_refl k), All-has_weaken k v m m (All-has m))
