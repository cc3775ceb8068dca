-- ===== src/Claude/Command.antt =====
-- internal/agent/claude/client.go: the settings, the session and the shell command of a turn.
use my_symphony.Go.Utf8.{Text, ascii, text_eq, is_blank}
use my_symphony.Base.{◌∷◌, ◌==◌, ◌++◌, ◌&&◌, ℤ, ℕ, not, if◌then◌else◌, [], Bool}

pub record CliConfig : Type 0 where
  pub command : Text
  pub model : Text
  pub reasoning_effort : Text
  pub resume_across_turns : Bool
  pub turn_timeout_ms : ℤ
  pub read_timeout_ms : ℤ

pub record Session : Type 0 where
  pub workspace : Text
  pub identifier : Text
  pub title : Text
  pub session_id : Text
  pub turn : ℕ

abbrev pub pending_session_id : Text
pending_session_id = ascii "pending"

-- StartSession.
unfoldable pub start_session : Text → Text → Text → Session
start_session workspace identifier title = record {
  workspace = workspace;
  identifier = identifier;
  title = title;
  session_id = pending_session_id;
  turn = 0;
}

-- strings.ReplaceAll of the single quote by "'\''".
unfoldable pub escape_quotes : Text → Text
escape_quotes [] = []
escape_quotes (b ∷ s) =
    let rest = escape_quotes s in
    if b == b'\'' then b'\'' ∷ b'\\' ∷ b'\'' ∷ b'\'' ∷ rest else b ∷ rest

-- shellSingleQuote.
unfoldable pub shell_single_quote : Text → Text
shell_single_quote s = b'\'' ∷ (escape_quotes s ++ (b'\'' ∷ []))

-- buildCommand.
unfoldable pub build_command : CliConfig → Text → Text
build_command cfg session_id =
    let with_model =
      if is_blank cfg.model
      then cfg.command
      else cfg.command ++ (ascii " --model " ++ shell_single_quote cfg.model) in
    let with_effort =
      if is_blank cfg.reasoning_effort
      then with_model
      else with_model ++ (ascii " --effort " ++ shell_single_quote cfg.reasoning_effort) in
    if cfg.resume_across_turns
      && not (is_blank session_id)
      && not (text_eq session_id pending_session_id)
    then with_effort ++ (ascii " --resume " ++ session_id)
    else with_effort
