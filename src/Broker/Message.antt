-- ===== src/Broker/Message.antt =====
-- What travels on the queue of app/broker.py.
use auto_bot.Prelude.{ℕ, String, Option}
use auto_bot.Models.{ErrorText}

-- `exhausted {max_retries} retries: {error}`
pub data Reason : Type 0 where
  exhausted : ℕ → Option ErrorText → Reason

pub record TaskMessage : Type 0 where
  pub task_id : ℕ
  pub run_id : ℕ
  pub task_name : String
  pub attempt : ℕ
  pub reason : Option Reason
