-- ===== src/Orchestrator/Queue/Delivery.antt =====
-- Every event that the channel of internal/orchestrator accepts is handled, once and in order.
use my_symphony.Orchestrator.Queue.{receive, offer, post, has_room, event_capacity, System}
use my_symphony.Base.{
  ◌∙◌, subst, ◌⊎◌, ◌≤◌, ◌≡◌, ◌∷◌, ◌<◌, ◌++◌, true, sym, some, refl, map, length-append, length, inr,
  inl, if◌then◌else◌, false, arith, append_assoc, ap, [], List, Bool,
}
use my_symphony.Orchestrator.State.{Orchestrator}
use my_symphony.Orchestrator.Env.{Event, Env}
use my_symphony.Orchestrator.Loop.{handle, run}

-- The system as it may be reached from a state of the loop: what was handled, with its answers, and
-- what the channel accepted.
pub data Reach (p : Orchestrator) : List (Env × Event) → List Event → System → Type 0 where
  begun : Reach p [] [] (record { pending = []; orchestrator = p; cancelled = false })
  posted :
      (h : List (Env × Event)) (a : List Event) (s : System) (picks : Bool) (e : Event)
      (q : List Event) (sent : Bool)
      → Reach p h a s
      → post s.cancelled picks e s.pending ≡ some (q, sent)
      → Reach p h (if sent then a ++ (e ∷ []) else a) (record s { pending = q })
  offered :
      (h : List (Env × Event)) (a : List Event) (s : System) (picks : Bool) (e : Event)
      (q : List Event) (sent : Bool)
      → Reach p h a s
      → offer s.cancelled picks e s.pending ≡ (q, sent)
      → Reach p h (if sent then a ++ (e ∷ []) else a) (record s { pending = q })
  received :
      (h : List (Env × Event)) (a : List Event) (s : System) (env : Env) (e : Event)
      (rest : List Event)
      → Reach p h a s
      → s.pending ≡ e ∷ rest
      → Reach p (h ++ ((env, e) ∷ [])) a (receive env s)
  stops :
      (h : List (Env × Event)) (a : List Event) (s : System)
      → Reach p h a s
      → Reach p h a (record s { cancelled = true })

abbrev pub events_of : List (Env × Event) → List Event
events_of h = map (λ x. x.1) h

-- What holds of a reachable system.
pub record Delivers (p : Orchestrator) (h : List (Env × Event)) (a : List Event) (s : System)
    : Type 0 where
  pub runs_handled : s.orchestrator ≡ run h p
  pub keeps_order : a ≡ events_of h ++ s.pending
  pub bounded : length s.pending ≤ event_capacity

run-snoc :
    (h : List (Env × Event)) (env : Env) (e : Event) (p : Orchestrator)
    → run (h ++ ((env, e) ∷ [])) p ≡ handle env e (run h p)
unfolding run
run-snoc [] env e p = refl
run-snoc ((x, d) ∷ h) env e p = run-snoc h env e (handle x d p)

events_of-snoc :
    (h : List (Env × Event)) (env : Env) (e : Event)
    → events_of (h ++ ((env, e) ∷ [])) ≡ events_of h ++ (e ∷ [])
events_of-snoc [] env e = refl
events_of-snoc (x ∷ h) env e = ap (λ es. x.1 ∷ es) (events_of-snoc h env e)

-- A send that succeeds, and one that does not.
sends-Delivers :
    (p : Orchestrator) (h : List (Env × Event)) (a : List Event) (s : System) (e : Event)
    (q : List Event) (sent : Bool)
    → Delivers p h a s
    → ((sent ≡ false) × (q ≡ s.pending))
      ⊎ ((sent ≡ true) × (q ≡ s.pending ++ (e ∷ [])) × (length s.pending < event_capacity))
    → Delivers p h (if sent then a ++ (e ∷ []) else a) (record s { pending = q })
sends-Delivers p h a s e q sent d (inl (unsent, same)) = record {
  runs_handled = d.runs_handled;
  keeps_order = rw (unsent, same) d.keeps_order;
  bounded = rw same d.bounded;
}
sends-Delivers p h a s e q sent d (inr (yes_sent, longer, room)) = record {
  runs_handled = d.runs_handled;
  keeps_order =
      rw (yes_sent, longer, d.keeps_order) (sym (append_assoc (events_of h) s.pending (e ∷ [])));
  bounded = rw longer (omega (arith, length-append s.pending (e ∷ [])));
}

post-cases :
    (cancelled picks : Bool) (e : Event) (q r : List Event) (sent : Bool)
    → post cancelled picks e q ≡ some (r, sent)
    → ((sent ≡ false) × (r ≡ q))
      ⊎ ((sent ≡ true) × (r ≡ q ++ (e ∷ [])) × (length q < event_capacity))
unfolding post has_room
post-cases cancelled picks e q r sent h = ground arith

offer-cases :
    (cancelled picks : Bool) (e : Event) (q r : List Event) (sent : Bool)
    → offer cancelled picks e q ≡ (r, sent)
    → ((sent ≡ false) × (r ≡ q))
      ⊎ ((sent ≡ true) × (r ≡ q ++ (e ∷ [])) × (length q < event_capacity))
unfolding offer has_room
offer-cases cancelled picks e q r sent h = ground arith

pub receive-event :
    (env : Env) (s : System) (e : Event) (rest : List Event)
    → s.pending ≡ e ∷ rest
    → receive env s ≡ record s { pending = rest; orchestrator = handle env e s.orchestrator }
unfolding receive
receive-event env s e rest eq = rw (eq, receive) refl

receives-Delivers :
    (p : Orchestrator) (h : List (Env × Event)) (a : List Event) (s : System) (env : Env)
    (e : Event) (rest : List Event)
    → s.pending ≡ e ∷ rest
    → Delivers p h a s
    → Delivers p
        (h ++ ((env, e) ∷ []))
        a
        (record s { pending = rest; orchestrator = handle env e s.orchestrator })
receives-Delivers p h a s env e rest eq d = record {
  runs_handled = ap (handle env e) d.runs_handled ∙ sym (run-snoc h env e p);
  keeps_order =
      d.keeps_order
      ∙ ap (λ q. events_of h ++ q) eq
      ∙ append_assoc (events_of h) (e ∷ []) rest
      ∙ ap (λ es. es ++ rest) (sym (events_of-snoc h env e));
  bounded =
      let size : length s.pending ≡ length (e ∷ rest) = ap length eq in
      omega (arith, d.bounded, size);
}

-- In whatever way goroutines send, observers ask, the loop receives and the root context ends, the
-- state of the orchestrator is that of a run over the events handled, these are what the channel
-- accepted, in the order of its acceptance and each once, less what still waits in it, and no more
-- than 256 events wait.
pub Reach-Delivers :
    {p : Orchestrator} {h : List (Env × Event)} {a : List Event} {s : System}
    → Reach p h a s
    → Delivers p h a s
unfolding run
Reach-Delivers begun = record { runs_handled = refl; keeps_order = refl; bounded = omega arith }
Reach-Delivers {p = p} (posted h a s picks e q sent r eq) =
    sends-Delivers p h a s e q sent (Reach-Delivers r)
      (post-cases s.cancelled picks e s.pending q sent eq)
Reach-Delivers {p = p} (offered h a s picks e q sent r eq) =
    sends-Delivers p h a s e q sent (Reach-Delivers r)
      (offer-cases s.cancelled picks e s.pending q sent eq)
Reach-Delivers {p = p} (received h a s env e rest r eq) =
    subst (Delivers p (h ++ ((env, e) ∷ [])) a) (sym (receive-event env s e rest eq))
      (receives-Delivers p h a s env e rest eq (Reach-Delivers r))
Reach-Delivers (stops h a s r) =
    let d = Reach-Delivers r in
    record { runs_handled = d.runs_handled; keeps_order = d.keeps_order; bounded = d.bounded }
