-- ===== src/SyslogWorker/Messages.antt =====
-- The loop of `doWork`: which messages come to the writer.
use coriolis_logger.Common.{◌≡◌, refl, inl, inr, List, [], ◌∷◌, ◌++◌, map, All, err, wrapped}
use coriolis_logger.Logging.{LogParts, LogMessage, invalid_message, syslog_to_log_message}
use coriolis_logger.Logging.Fields.{Reads, IsWellTyped, IsComplete}
use coriolis_logger.Logging.Conversion.{syslog_to_log_message_iff, syslog_to_log_message_outcome}
use coriolis_logger.Logging.Aggregate.{Writer}
use coriolis_logger.SyslogWorker.{Server, Worker, Arrival, parts, work}

-- The messages that stand for parsed ones, in order; a parsed message that lacks a field of its format
-- stands for none.
pub data Messages : List LogParts → List LogMessage → Type 0 where
  no_messages : Messages [] []
  read :
      {msg : LogParts} {m : LogMessage} {rest : List LogParts} {messages : List LogMessage}
      → Reads msg m
      → Messages rest messages
      → Messages (msg ∷ rest) (m ∷ messages)
  refused :
      {msg : LogParts} {rest : List LogParts} {messages : List LogMessage}
      → ¬ IsComplete msg
      → Messages rest messages
      → Messages (msg ∷ rest) messages

pub Messages-exist :
    (received : List LogParts)
    → All IsWellTyped received
    → (messages : List LogMessage) × Messages received messages
Messages-exist [] h = ([], no_messages)
Messages-exist (msg ∷ received) (typed, h) =
    let (messages, known) = Messages-exist received h in
    elim (syslog_to_log_message_outcome msg typed) [
      | inl (complete, (m, e)) ↦ (m ∷ messages, read ((syslog_to_log_message_iff msg m).0 e) known)
      | inr (incomplete, e) ↦ (messages, refused incomplete known)
    ]

rejected :
    (msg : LogParts)
    → IsWellTyped msg
    → ¬ IsComplete msg
    → syslog_to_log_message msg ≡ err (wrapped "getting RFC version" invalid_message)
rejected msg typed incomplete = elim (syslog_to_log_message_outcome msg typed) [
  | inl (complete, read_as) ↦ absurd (incomplete complete)
  | inr (same, e) ↦ e
]

module _ {W : Type 0} (writer : Writer W) where
  -- The world after each message was written to it.
  abbrev pub written : List LogMessage → W → W
  written [] world = world
  written (m ∷ messages) world = written messages (writer m world).0

  -- The loop writes the messages that the parsed ones stand for.
  pub work-written :
      (server : Server) (received : List LogParts) (messages : List LogMessage)
      (later : List Arrival) (w : Worker W)
      → All IsWellTyped received
      → Messages received messages
      → work server writer (map parts received ++ later) w
        ≡ work server writer later (record w { world = written messages w.world })
  unfolding work
  work-written server [] [] later w h no_messages = refl
  work-written server [] (m ∷ messages) later w h known = elim known [ ]
  work-written server (msg ∷ received) (m ∷ messages) later w (typed, h) (read reads known) =
      let next = record w { world = (writer m w.world).0 } in
      rw ((syslog_to_log_message_iff msg m).1 reads, work)
        (work-written server received messages later next h known)
  work-written server (msg ∷ received) messages later w (typed, h) (refused incomplete known) =
      rw (rejected msg typed incomplete, work)
        (work-written server received messages later w h known)
