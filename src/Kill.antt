-- ===== src/Kill.antt =====
-- scripts/kill_relay.py, which stops a running relay for a failure experiment. The parsed
-- arguments are a record, and what is printed is left out.
pub mod Node
pub mod Outcome
use torr_bsds.Base.{
  ℕ, ◌/◌, String, Bool, true, false, not, Option, none, some, List, ◌∷◌, ltb, str_eq, if◌then◌else◌,
}
use torr_bsds.Runtime.Json.{
  Json, null, str, num, bool, arr, obj, field, end, Items, nil, cons, Exc, Result, ok, err,
  type_error, attribute_error, system_exit, index, get_or, truthy, as_str,
}
use torr_bsds.Runtime.Exec.{
  Exec, Trace, Event, Call, called, read_time, list_tasks, describe_tasks, stop_task, sleep,
  write_file, pure, raise, lift, try, emit, ◌>>=◌, ◌>>◌,
}

-- `boto3`'s ECS client, the clock (UTC, in microseconds), the file system and `json`.
pub record Aws : Type 0 where
  pub list_tasks : Trace → String → String → Result Json
  pub describe_tasks : Trace → String → String → Result Json
  pub stop_task : Trace → String → String → Result (Unit {0})
  -- `isinstance(exc, (BotoCoreError, ClientError))`
  pub is_aws_error : Exc → Bool
  pub now : Trace → ℕ
  pub isoformat : ℕ → String
  -- `json.dumps(event, indent=2) + "\n"`
  pub event_text : Json → List ℕ
  pub write_file : Trace → String → List ℕ → Result (Unit {0})

pub record Args : Type 0 where
  pub cluster : String
  pub service : String
  pub delay : ℕ
  pub output : String
  pub dry_run : Bool

-- `s.split("/")[-1]`: what follows the last slash, given what follows the last one so far.
unfoldable pub after_slash : String → String → String
after_slash last String.[] = last
after_slash last (String.◌∷◌ c s) =
    if str_eq (String.◌∷◌ c "") "/" then after_slash s s else after_slash last s

-- `v[0]` of a list
abbrev pub first : Json → Result Json
first (arr (cons v _)) = ok v
first _ = err type_error

-- Iterating over a list.
abbrev pub list_items : Json → Result Items
list_items (arr xs) = ok xs
list_items _ = err type_error

-- `env.get("name") == "NODE_ID"`
abbrev pub is_node_id : Json → Bool
is_node_id (str s) = str_eq s "NODE_ID"
is_node_id _ = false

-- The inner loop: the value of the first variable named `NODE_ID`.
unfoldable pub node_id_of_environment : Json → Items → Exec Json
node_id_of_environment node_id nil = pure node_id
node_id_of_environment node_id (cons variable rest) = do
  name ← lift (get_or variable "name" null)
  if is_node_id name
      then lift (get_or variable "value" (str ""))
      else node_id_of_environment node_id rest

-- The outer loop, which stops at the first container that has one.
unfoldable pub node_id_of_containers : Json → Items → Exec Json
node_id_of_containers node_id nil = pure node_id
node_id_of_containers node_id (cons container rest) = do
  environment ← lift (get_or container "environment" (arr nil))
  variables ← lift (list_items environment)
  node_id' ← node_id_of_environment node_id variables
  if truthy node_id' then pure node_id' else node_id_of_containers node_id' rest

-- `node_id or "unknown"`
abbrev pub or_unknown : Json → Json
or_unknown node_id = if truthy node_id then node_id else str "unknown"

module _ (aws : Aws) where
  -- The task's ID and its node ID; `none` is `(None, None)`.
  unfoldable pub find_running_task : String → String → Exec (Option (String × Json))
  find_running_task cluster service = do
    listed ← ask (list_tasks cluster service) aws.list_tasks cluster service
    task_arns ← lift (get_or listed "taskArns" (arr nil))
    if truthy task_arns
        then (do
          arn ← lift (first task_arns)
          arn_text ← lift (as_str arn type_error)
          described ← ask (describe_tasks cluster arn_text) aws.describe_tasks cluster arn_text
          tasks ← lift (get_or described "tasks" (arr nil))
          if truthy tasks
              then (do
                task ← lift (first tasks)
                task_arn ← lift (index task "taskArn")
                text ← lift (as_str task_arn attribute_error)
                listed_containers ← lift (get_or task "containers" (arr nil))
                containers ← lift (list_items listed_containers)
                node_id ← node_id_of_containers (str "") containers
                pure (some (after_slash text text, node_id)))
              else pure none)
        else pure none
    where
      ask : Call → (Trace → String → String → Result Json) → String → String → Exec Json
      ask call f a b t = (f t a b, called call ∷ t)

  unfoldable pub kill_task : String → String → Bool → Exec Bool
  kill_task cluster task_id true = pure true
  kill_task cluster task_id false =
      try
        (do
          λ t. (aws.stop_task t cluster task_id, called (stop_task cluster task_id) ∷ t)
          pure true)
        (λ exc. if aws.is_aws_error exc then pure false else raise exc)

  abbrev pub kill_event : Args → String → Json → ℕ → Bool → Json
  kill_event args task_id node_id kill_time success = obj (
      field "cluster" (str args.cluster) (
        field "service" (str args.service) (
          field "taskId" (str task_id) (
            field "nodeId" (or_unknown node_id) (
              field "killTimestamp" (str (aws.isoformat kill_time)) (
                field "killTimestampMs" (num (kill_time / 1000))
                  (field "success" (bool success) (field "dryRun" (bool args.dry_run) end))))))))

  unfoldable pub wait : ℕ → Exec (Unit {0})
  wait delay = if ltb 0 delay then emit (called (sleep delay)) else pure tt

  unfoldable pub read_now : Exec ℕ
  read_now t = (ok (aws.now t), read_time ∷ t)

  unfoldable pub save : String → List ℕ → Exec (Unit {0})
  save path text t = (aws.write_file t path text, called (write_file path text) ∷ t)

  -- `if args.output`
  unfoldable pub save_event : Args → Json → Exec (Unit {0})
  save_event args event =
      if str_eq args.output "" then pure tt else save args.output (aws.event_text event)

  -- `main` from the delay on.
  unfoldable pub kill_found : Args → String → Json → Exec (Unit {0})
  kill_found args task_id node_id = do
    wait args.delay
    kill_time ← read_now
    success ← kill_task args.cluster task_id args.dry_run
    save_event args (kill_event args task_id node_id kill_time success)
    if success then pure tt else raise (system_exit 1)

  -- `if not task_id`, which an empty ID passes as well, and what follows it.
  unfoldable pub kill_if_found : Args → Option (String × Json) → Exec (Unit {0})
  kill_if_found args none = raise (system_exit 1)
  kill_if_found args (some (task_id, node_id)) =
      if str_eq task_id "" then raise (system_exit 1) else kill_found args task_id node_id

  unfoldable pub main : Args → Exec (Unit {0})
  main args = find_running_task args.cluster args.service >>= kill_if_found args
