-- ===== src/Executors/Handlers.antt =====
-- examples/handlers.py: handlers that a worker can load. A handler is what it raises, by type and
-- message, or nothing; what it logs, and how long it sleeps, is left out. `decimal` writes a number.
use Prim.Native.String as NativeString
use auto_bot.Executors.{handler_or, get, Dict, get_handler, TaskContext, register}
use auto_bot.Prelude.{
  sym, ap, refl, ◌∙◌, ◌≡◌, ◌==◌, [], ltb, ◌++◌, ◌∷◌, some, if◌then◌else◌, none, String, List, ℕ,
  Option,
}
use auto_bot.Prelude.Dict.{get-put}

abbrev pub Handler : Type 0
Handler = TaskContext → Option (String × String)

module _ (decimal : ℕ → String) where
  unfoldable pub parse_resume : Handler
  parse_resume context = none

  unfoldable pub flaky_task : Handler
  flaky_task context =
      if ltb context.attempt 2
      then some (
        "RuntimeError",
        NativeString.◌++◌ "transient failure on attempt " (decimal context.attempt),
      )
      else none

  unfoldable pub doomed_task : Handler
  doomed_task context = some ("RuntimeError", "this task never works")

  unfoldable pub slow_task : Handler
  slow_task context = none

  unfoldable pub ingest_data : Handler
  ingest_data context = none

  unfoldable pub validate_data : Handler
  validate_data context = none

  unfoldable pub engineer_features : Handler
  engineer_features context = none

  unfoldable pub train_model : Handler
  train_model context = none

  unfoldable pub evaluate_model : Handler
  evaluate_model context = none

  unfoldable pub deploy_model : Handler
  deploy_model context = none

  unfoldable pub publish_report : Handler
  publish_report context = none

  unfoldable pub fetch_recipients : Handler
  fetch_recipients context = none

  unfoldable pub render_email : Handler
  render_email context = none

  unfoldable pub render_sms : Handler
  render_sms context = none

  unfoldable pub send_email : Handler
  send_email context = none

  unfoldable pub send_sms : Handler
  send_sms context =
      if ltb context.attempt 1 then some ("RuntimeError", "sms gateway timeout") else none

  unfoldable pub log_delivery : Handler
  log_delivery context = none

  -- The module's decorators, in their order.
  unfoldable pub registrations : List (String × Handler)
  unfolding parse_resume flaky_task doomed_task slow_task ingest_data validate_data
      engineer_features train_model evaluate_model deploy_model publish_report fetch_recipients
      render_email render_sms send_email send_sms log_delivery
  registrations =
      ("parse_resume", parse_resume)
      ∷ ("flaky_task", flaky_task)
      ∷ ("doomed_task", doomed_task)
      ∷ ("slow_task", slow_task)
      ∷ ("ingest_data", ingest_data)
      ∷ ("validate_data", validate_data)
      ∷ ("engineer_features", engineer_features)
      ∷ ("train_model", train_model)
      ∷ ("evaluate_model", evaluate_model)
      ∷ ("deploy_model", deploy_model)
      ∷ ("publish_report", publish_report)
      ∷ ("fetch_recipients", fetch_recipients)
      ∷ ("render_email", render_email)
      ∷ ("render_sms", render_sms)
      ∷ ("send_email", send_email)
      ∷ ("send_sms", send_sms)
      ∷ ("log_delivery", log_delivery)
      ∷ []

-- What an import of a module does to the registry: its decorators run.
abbrev pub register_all : {H : Type 0} → List (String × H) → Dict H → Dict H
unfolding register
register_all [] registry = registry
register_all ((name, func) ∷ rest) registry = register_all rest (register name func registry)

-- load_handler_modules; `decorators` are those of the module with the name.
unfoldable pub load_handler_modules :
    {H : Type 0} → (String → List (String × H)) → List String → Dict H → Dict H
unfolding register_all
load_handler_modules decorators [] registry = registry
load_handler_modules decorators (name ∷ names) registry =
    load_handler_modules decorators names (register_all (decorators name) registry)

-- The last of the decorators with the name, or else what was there.
abbrev pub last_of : {H : Type 0} → String → List (String × H) → Option H → Option H
last_of k [] found = found
last_of k ((name, func) ∷ rest) found = last_of k rest (if name == k then some func else found)

register_all_lem :
    {H : Type 0} (entries : List (String × H)) (registry : Dict H) (k : String)
    → get (register_all entries registry) k ≡ last_of k entries (get registry k)
unfolding register_all register
register_all_lem [] registry k = refl
register_all_lem ((name, func) ∷ rest) registry k =
    register_all_lem rest (register name func registry) k
    ∙ ap (last_of k rest) (get-put registry name k func)

abbrev pub concat_map : {A B : Type 0} → (A → List B) → List A → List B
concat_map f [] = []
concat_map f (x ∷ xs) = f x ++ concat_map f xs

last_of-append :
    {H : Type 0} (k : String) (xs ys : List (String × H)) (found : Option H)
    → last_of k (xs ++ ys) found ≡ last_of k ys (last_of k xs found)
last_of-append k [] ys found = refl
last_of-append k ((name, func) ∷ xs) ys found = last_of-append k xs ys _

-- The handler of a task is the last that the loaded modules register for its name, in the order of the
-- modules and of their decorators; where they register none it is the one that was registered before,
-- or the default handler.
pub load_handler_modules_lem :
    {H : Type 0} (decorators : String → List (String × H)) (names : List String) (registry : Dict H)
    (default_handler : H) (k : String)
    → get_handler default_handler (load_handler_modules decorators names registry) k
      ≡ handler_or default_handler (last_of k (concat_map decorators names) (get registry k))
unfolding load_handler_modules get_handler
load_handler_modules_lem decorators [] registry default_handler k = refl
load_handler_modules_lem decorators (name ∷ names) registry default_handler k =
    load_handler_modules_lem decorators names (register_all (decorators name) registry)
      default_handler k
    ∙ ap (λ o. handler_or default_handler (last_of k (concat_map decorators names) o))
        (register_all_lem (decorators name) registry k)
    ∙ ap (handler_or default_handler)
        (sym (last_of-append k (decorators name) (concat_map decorators names) (get registry k)))
