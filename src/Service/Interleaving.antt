-- ===== src/Service/Interleaving.antt =====
-- The goroutines of the process on the components that they share: the syslog worker writes messages,
-- the loop of the store and readers act on the store, and the hub and its clients take turns.
pub mod Watched
use mathlib.Core.List.{append_assoc, append-nil}
use coriolis_logger.Common.{◌≡◌, refl, sym, ap, ◌∙◌, List, [], ◌∷◌, ◌++◌, ok, ◌>>=◌, subst}
use coriolis_logger.Clock.{Time}
use coriolis_logger.Logging.{LogMessage}
use coriolis_logger.Config.{Syslog}
use coriolis_logger.Influxdb.Client.{Library}
use coriolis_logger.Influxdb.Calls
use coriolis_logger.Influxdb.Calls.{Call, call}
use coriolis_logger.Websocket.Hub
use coriolis_logger.Websocket.Hub.{Hub, Turn}
use coriolis_logger.Service.{World}
use coriolis_logger.Service.Pipeline.{writer, writer-World, printed}

-- `logs` is a message that the syslog worker hands to its writers, `acts` any call of the store, and
-- `takes` any turn at the hub.
pub data Act : Type 0 where
  logs : LogMessage → Act
  acts : Call → Act
  takes : Turn → Act

abbrev pub messages_of : List Act → List LogMessage
messages_of [] = []
messages_of (logs m ∷ steps) = m ∷ messages_of steps
messages_of (acts c ∷ steps) = messages_of steps
messages_of (takes t ∷ steps) = messages_of steps

abbrev pub turns_of : List Act → List Turn
turns_of [] = []
turns_of (logs m ∷ steps) = Hub.writes m ∷ turns_of steps
turns_of (acts c ∷ steps) = turns_of steps
turns_of (takes t ∷ steps) = t ∷ turns_of steps

module _ (lib : Library) (now : LogMessage → Time) (cfg : Syslog) where
  -- One act of one goroutine.
  pub data Step : Act → World lib → World lib → Type 0 where
    logged : {m : LogMessage} {w : World lib} → Step (logs m) w (writer lib now cfg m w).0
    acted : {c : Call} {w : World lib} → Step (acts c) w (record w { store = call lib c w.store })
    took :
        {t : Turn} {w : World lib} {h : Hub}
        → Hub.step t w.hub ≡ ok h
        → Step (takes t) w (record w { hub = h })

  pub data Steps : List Act → World lib → World lib → Type 0 where
    stays : {w : World lib} → Steps [] w w
    goes :
        {a : Act} {steps : List Act} {w v u : World lib}
        → Step a w v
        → Steps steps v u
        → Steps (a ∷ steps) w u

  -- The calls of the store, those of `Write` among them.
  abbrev pub calls_of : List Act → List Call
  calls_of [] = []
  calls_of (logs m ∷ steps) = Calls.writes m (now m) ∷ calls_of steps
  calls_of (acts c ∷ steps) = c ∷ calls_of steps
  calls_of (takes t ∷ steps) = calls_of steps

  -- Each component goes as if only what is meant for it had happened.
  abbrev pub IsApart : List Act → World lib → World lib → Type 0
  IsApart steps w w' =
      (w'.store ≡ Calls.run lib (calls_of steps) w.store)
      × (Hub.run (turns_of steps) w.hub ≡ ok w'.hub)
      × (w'.stdout ≡ w.stdout ++ printed cfg.log_to_stdout (messages_of steps))

  pub Steps-IsApart : {steps : List Act} {w w' : World lib} → Steps steps w w' → IsApart steps w w'
  unfolding Calls.run Hub.run Hub.step
  Steps-IsApart {w} stays = (refl, refl, sym (append-nil w.stdout))
  Steps-IsApart {w} (goes acted rest) = Steps-IsApart rest
  Steps-IsApart {w} (goes {steps} (took {t} taken) rest) =
      let (store, hub, out) = Steps-IsApart rest in
      (store, ap (λ r. r >>= Hub.run (turns_of steps)) taken ∙ hub, out)
  Steps-IsApart {w} (goes {steps} {u} (logged {m}) rest) =
      let (store, hub, out) =
        subst (λ v. IsApart steps v u) (writer-World lib now cfg m w) (Steps-IsApart rest) in
      (store, hub, out ∙ append_assoc w.stdout _ _)
