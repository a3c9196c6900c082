-- ===== src/Executors.antt =====
-- app/executors.py: the handlers by task name. What a handler does is not this program's code, so the
-- type of handlers is a parameter.
pub mod Handlers
use auto_bot.Prelude.{ℕ, String, List, [], Option, none, some}
use auto_bot.Prelude.Dict.{Dict, get, put, keys}
use auto_bot.Prelude.Sort.{sort}
use auto_bot.Dag.Order.{string_le}

pub record TaskContext : Type 0 where
  pub task_id : ℕ
  pub run_id : ℕ
  pub task_name : String
  pub attempt : ℕ
  pub worker_id : String

module _ {Handler : Type 0} where
  -- The decorator that `register` gives, applied to a function. The registry is `_REGISTRY`.
  unfoldable pub register : String → Handler → Dict Handler → Dict Handler
  register task_name func registry = put registry task_name func

  abbrev pub handler_or : Handler → Option Handler → Handler
  handler_or default_handler none = default_handler
  handler_or default_handler (some handler) = handler

  unfoldable pub get_handler : Handler → Dict Handler → String → Handler
  get_handler default_handler registry task_name =
      handler_or default_handler (get registry task_name)

  unfoldable pub registered_names : Dict Handler → List String
  registered_names registry = sort string_le (keys registry)

  unfoldable pub clear_registry : Dict Handler → Dict Handler
  clear_registry registry = []
