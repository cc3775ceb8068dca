-- ===== src/Claude/Usage.antt =====
-- The usage that a turn of internal/agent/claude charges.
use my_symphony.Orchestrator.Env.{AgentEvent, Usage}
use my_symphony.Claude.Parse.{StreamEvent, Handled, Outcome, going_on, completed, result_error}
use my_symphony.Claude.Describe.{extract_usage}
use my_symphony.Claude.Turns.{
  response_error, event_line, TurnError, Choice, Round, continues, returns,
}
use my_symphony.Go.Utf8.{ascii, text_eq}
use my_symphony.Base.{ok, err, Result, true, ◌≡◌, ◌∷◌, ◌++◌, ℕ, some, none, [], Option, List}

abbrev pub of_option : Option Usage → List Usage
of_option none = []
of_option (some u) = u ∷ []

-- The usage that the events charge, in their order.
abbrev pub charged : List AgentEvent → List Usage
charged [] = []
charged (e ∷ es) = of_option e.usage ++ charged es

abbrev outcome_usage : StreamEvent → Outcome → List Usage
outcome_usage evt going_on = []
outcome_usage evt (completed u) = of_option u
outcome_usage evt result_error = of_option (extract_usage evt.usage)

-- What an event leads to charges what its outcome says.
abbrev Charges : StreamEvent → Handled → Type 0
Charges evt h = charged h.emitted ≡ outcome_usage evt h.outcome

-- An outcome that ends a turn is that of a result event, and has the usage of that event.
abbrev IsTerminal : StreamEvent → Outcome → Type 0
IsTerminal evt going_on = Unit {0}
IsTerminal evt (completed u) =
    (text_eq evt.type (ascii "result") ≡ true) × (u ≡ extract_usage evt.usage)
IsTerminal evt result_error = text_eq evt.type (ascii "result") ≡ true

-- A result event that a turn reads.
pub data ReadsResult (evt : StreamEvent) : List (ℕ × Choice) → Type 0 where
  first_line :
      (now : ℕ) (rest : List (ℕ × Choice))
      → text_eq evt.type (ascii "result") ≡ true
      → ReadsResult evt ((now, event_line evt) ∷ rest)
  later_line :
      (c : ℕ × Choice) (rest : List (ℕ × Choice))
      → ReadsResult evt rest
      → ReadsResult evt (c ∷ rest)

-- The usage that a turn charges beside its result: that of the result event that ends it, in a success
-- or in an error response, and none where it ends in another way or goes on.
pub data Ended (choices : List (ℕ × Choice))
    : List Usage → Option (Result TurnError (Option Usage)) → Type 0 where
  succeeds :
      (evt : StreamEvent)
      → ReadsResult evt choices
      → Ended choices (of_option (extract_usage evt.usage)) (some (ok (extract_usage evt.usage)))
  reports_error :
      (evt : StreamEvent)
      → ReadsResult evt choices
      → Ended choices (of_option (extract_usage evt.usage)) (some (err response_error))
  breaks_off : (e : TurnError) → Ended choices [] (some (err e))
  waits : Ended choices [] none

-- What a round charges, where it takes the first of some choices.
abbrev Fits : List (ℕ × Choice) → List Usage → Round → Type 0
Fits choices us (continues s) = us ≡ []
Fits choices us (returns result) = Ended choices us (some result)
