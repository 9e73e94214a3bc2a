-- ===== src/Logs/Events.antt =====
-- sylar/config.cc with sylar/log.cc: configuration trees that are loaded after the launch, the
-- variables that the program declares meanwhile, and what it logs. The type of the variable "logs" has the number zero.
use sylar_server_study.Base.{
  ℕ, zero, suc, Bool, Text, codes, List, [], ◌∷◌, Option, some, ◌>>=◌, ◌≢◌, ◌≤◌,
}
use sylar_server_study.Level
use sylar_server_study.Formatter.Items.{Event, Outside}
use sylar_server_study.Logger.Log.{log}
use sylar_server_study.Manager.{get_logger}
use sylar_server_study.Define.{LogDefine}
use sylar_server_study.Define.Yaml.{DefineNode}
use sylar_server_study.Config.{Cast}
use sylar_server_study.Config.Registry.{Configs, lookup_default}
use sylar_server_study.Config.Members.{Node, Members}
use sylar_server_study.Config.Load.{load_from_yaml}
use sylar_server_study.Container.Yaml.{Yaml}
use sylar_server_study.Logs.{World, logs_cast, launched}

-- The types of the variables: that of "logs", and the others.
abbrev pub Element : (ℕ → Type 0) → ℕ → Type 0
Element Other zero = List LogDefine
Element Other (suc t) = Other t

-- What the program does: a tree is loaded at a time, a variable of another type is declared, or an
-- event is logged at a time through the logger of a name, which `getLogger` makes if it is missing.
pub data Action (Other : ℕ → Type 0) : Type 0 where
  load : ℕ → Node → Action Other
  declare : Text → (t : ℕ) → Other t → Text → Action Other
  log_to : ℕ → Text → Event → Action Other

-- No variable is declared under the name "logs", and what is logged has one of the five levels.
abbrev pub LeavesLogs : {Other : ℕ → Type 0} → List (Action Other) → Type 0
LeavesLogs [] = Unit
LeavesLogs (load now root ∷ es) = LeavesLogs es
LeavesLogs (declare name t default_value description ∷ es) = (name ≢ codes "logs") × LeavesLogs es
LeavesLogs (log_to now name e ∷ es) =
    (Level.debug ≤ e.level) × (e.level ≤ Level.fatal) × LeavesLogs es

module _ (Other : ℕ → Type 0) (other_casts : (t : ℕ) → Cast (Other t)) (openable : Text → Bool)
    (y : Yaml) (view : y.Doc → Option DefineNode) (build : DefineNode → y.Doc)
    (emit : Members → Text) where
  abbrev pub casts : (t : ℕ) → Cast (Element Other t)
  casts zero = logs_cast y view build
  casts (suc t) = other_casts t

  abbrev pub State : Type 0
  State = Configs (Element Other) World

  -- The variables before `main`: "logs" alone.
  unfoldable pub at_launch : ℕ → State
  at_launch now = record {
    vars = (record { tag = zero; var = (launched openable now).0 }) ∷ [];
    datas = (codes "logs", 0) ∷ [];
    notices = [];
    world = (launched openable now).1;
  }

module _ (Other : ℕ → Type 0) (other_casts : (t : ℕ) → Cast (Other t)) (openable : Text → Bool)
    (y : Yaml) (view : y.Doc → Option DefineNode) (build : DefineNode → y.Doc)
    (emit : Members → Text) (o : Outside) where
  abbrev Variables : Type 0
  Variables = State Other other_casts openable y view build emit

  -- `none` where logging is undefined. Two rounds of fuel are enough for a logger and its root.
  unfoldable pub after_action : Variables → Action Other → Option Variables
  after_action s (load now root) = some (
      load_from_yaml (casts Other other_casts openable y view build emit) emit
        (record s { world = record s.world { now = now } }) root)
  after_action s (declare name t default_value description) =
      some (lookup_default s name (suc t) default_value description).0
  after_action s (log_to now name e) =
      let (store, p) = get_logger s.world.store name in
      do
        store' ← log o openable now 2 store p (record e { logger = p })
        some (record s { world = record s.world { store = store'; now = now } })

  unfoldable pub after_actions : Variables → List (Action Other) → Option Variables
  after_actions s [] = some s
  after_actions s (e ∷ es) = do s' ← after_action s e; after_actions s' es
