-- ===== src/Orchestrator/Reconcile/Marks.antt =====
-- What reconciliation decides about a running issue, and that a decision to stop stands.
use my_symphony.Orchestrator.Reconcile.{terminate_running, refresh_one, refresh_all}
use my_symphony.Base.{
  ◌≡◌, ◌∷◌, ◌∙◌, ◌||◌, ◌++◌, true, some, refl, not, inr, inl, if_elim, false, arith, [],
  Option-cases, List, Bool-cases, Bool, All,
}
use my_symphony.Go.Maps.{put, get, get-put}
use my_symphony.Domain.{Issue}
use my_symphony.Orchestrator.Reconcile.Keys.{refresh_one-SameKeys}
use my_symphony.Go.Utf8.{text_eq_refl, text_eq_iff, text_eq, Text}
use my_symphony.Orchestrator.Eligible.{is_terminal_state, is_active_state}
use my_symphony.Orchestrator.State.{RunningEntry, Orchestrator}

-- Two texts that a test tells apart, the other way round.
text_eq_sym : (s t : Text) → text_eq s t ≡ false → text_eq t s ≡ false
text_eq_sym s t h = ground (arith, text_eq_iff s t, text_eq_iff t s)

put-other :
    (k id : Text) (e x : RunningEntry) (o : Orchestrator)
    → text_eq k id ≡ false
    → get id o.running ≡ some e
    → get id (put k x o.running) ≡ some e
put-other k id e x o h g = rw get-put (rw h g)

terminate_running-other :
    (k id : Text) (cleanup release : Bool) (e : RunningEntry) (o : Orchestrator)
    → text_eq k id ≡ false
    → get id o.running ≡ some e
    → get id (terminate_running k cleanup release o).running ≡ some e
unfolding terminate_running
terminate_running-other k id cleanup release e o h g = elim (Option-cases (get k o.running)) [
  | inl q ↦ rw (q, terminate_running) g
  | inr (x, q) ↦
      rw (q, terminate_running)
        (if_elim (λ (p : Orchestrator). get id p.running ≡ some e) x.terminating (λ _. g)
          (λ _. put-other k id e _ o h g))
]

-- A refreshed issue changes no other entry.
refresh_one-other :
    (issue : Issue) (id : Text) (e : RunningEntry) (o : Orchestrator)
    → text_eq issue.id id ≡ false
    → get id o.running ≡ some e
    → get id (refresh_one issue o).running ≡ some e
unfolding refresh_one
refresh_one-other issue id e o h g = elim (Option-cases (get issue.id o.running)) [
  | inl q ↦ rw (q, refresh_one) g
  | inr (x, q) ↦
      rw (q, refresh_one)
        (if_elim (λ (p : Orchestrator). get id p.running ≡ some e) x.terminating (λ _. g)
          λ _.
            if_elim (λ (p : Orchestrator). get id p.running ≡ some e)
              (is_terminal_state o.cfg issue.state)
              (λ _. terminate_running-other issue.id id true true e o h g)
              λ _.
                if_elim (λ (p : Orchestrator). get id p.running ≡ some e)
                  (is_active_state o.cfg issue.state) (λ _. put-other issue.id id e _ o h g)
                  (λ _. terminate_running-other issue.id id false true e o h g))
]

refresh_one_self :
    (issue : Issue) (e : RunningEntry) (o : Orchestrator)
    → e.terminating ≡ true
    → get issue.id o.running ≡ some e
    → get issue.id (refresh_one issue o).running ≡ some e
unfolding refresh_one
refresh_one_self issue e o t q = ground arith

-- An entry that is marked is left as it is.
refresh_one-marked :
    (issue : Issue) (id : Text) (e : RunningEntry) (o : Orchestrator)
    → e.terminating ≡ true
    → get id o.running ≡ some e
    → get id (refresh_one issue o).running ≡ some e
refresh_one-marked issue id e o t g = elim (Bool-cases (text_eq issue.id id)) [
  | inr h ↦ refresh_one-other issue id e o h g
  | inl h ↦
      let same : issue.id ≡ id = (text_eq_iff issue.id id).0 h in
      rw (← same) (refresh_one_self issue e o t (rw same g))
]

refresh_all-marked :
    (issues : List Issue) (id : Text) (e : RunningEntry) (o : Orchestrator)
    → e.terminating ≡ true
    → get id o.running ≡ some e
    → get id (refresh_all issues o).running ≡ some e
unfolding refresh_all
refresh_all-marked [] id e o t g = g
refresh_all-marked (issue ∷ rest) id e o t g =
    refresh_all-marked rest id e (refresh_one issue o) t (refresh_one-marked issue id e o t g)

-- The decision about an issue that the tracker no longer lists as active.
pub marked : Bool → RunningEntry → RunningEntry
marked terminal e = record e {
  terminating = true;
  cleanup_on_exit = terminal;
  release_on_exit = true;
}

refresh_one-drops :
    (issue : Issue) (e : RunningEntry) (o : Orchestrator) (terminal : Bool)
    → is_terminal_state o.cfg issue.state ≡ terminal
    → (terminal || not (is_active_state o.cfg issue.state)) ≡ true
    → e.terminating ≡ false
    → get issue.id o.running ≡ some e
    → get issue.id (refresh_one issue o).running ≡ some (marked terminal e)
unfolding refresh_one terminate_running marked
refresh_one-drops issue e o true d h t g =
    ground (arith, get-put issue.id issue.id (marked true e) o.running, text_eq_refl issue.id)
refresh_one-drops issue e o false d h t g =
    ground (arith, get-put issue.id issue.id (marked false e) o.running, text_eq_refl issue.id)

refresh_all-other :
    (issues : List Issue) (id : Text) (e : RunningEntry) (o : Orchestrator)
    → All (λ x. text_eq x.id id ≡ false) issues
    → get id o.running ≡ some e
    → (get id (refresh_all issues o).running ≡ some e) × ((refresh_all issues o).cfg ≡ o.cfg)
unfolding refresh_all
refresh_all-other [] id e o h g = (g, refl)
refresh_all-other (issue ∷ rest) id e o h g =
    let later =
      refresh_all-other rest id e (refresh_one issue o) h.1
        (refresh_one-other issue id e o h.0 g) in
    (later.0, later.1 ∙ (refresh_one-SameKeys issue o).config)

refresh_all-append :
    (xs ys : List Issue) (o : Orchestrator)
    → refresh_all (xs ++ ys) o ≡ refresh_all ys (refresh_all xs o)
unfolding refresh_all
refresh_all-append [] ys o = refl
refresh_all-append (x ∷ xs) ys o = refresh_all-append xs ys (refresh_one x o)

-- When the tracker answers that a running issue is terminal, or no longer active, its entry is
-- marked to end with its claim released, and its workspace is cleaned exactly in the terminal case;
-- what the answer says of other issues, or says again of this one later, does not change that.
pub refresh_all-drops :
    (earlier later : List Issue) (issue : Issue) (e : RunningEntry) (o : Orchestrator)
    (terminal : Bool)
    → All (λ x. text_eq x.id issue.id ≡ false) earlier
    → get issue.id o.running ≡ some e
    → e.terminating ≡ false
    → is_terminal_state o.cfg issue.state ≡ terminal
    → (terminal || not (is_active_state o.cfg issue.state)) ≡ true
    → get issue.id (refresh_all (earlier ++ issue ∷ later) o).running ≡ some (marked terminal e)
unfolding marked
refresh_all-drops earlier later issue e o terminal fresh g t d h =
    let (still, cfg) = refresh_all-other earlier issue.id e o fresh g in
    let p = refresh_all earlier o in
    let dropped = refresh_one-drops issue e p terminal (rw cfg d) (rw cfg h) t still in
    rw refresh_all-append (
      unfold refresh_all in
      refresh_all-marked later issue.id (marked terminal e) (refresh_one issue p) refl dropped)
