-- ===== src/Recovery/Checker.antt =====
-- `HealthChecker` of experiments/experiment3/locustfile.py. Node IDs are texts, as the directory
-- gives them. The methods under the lock are functions on the state that the lock protects.
pub mod Detection
pub mod Loop
pub mod Threads
use torr_bsds.Base.{
  ℕ, zero, suc, String, ◌<>◌, Bool, true, false, not, ◌&&◌, ◌||◌, Option, none, some, List, [], ◌∷◌,
  ◌++◌, str_eq,
}
use torr_bsds.Base.{if◌then◌else◌}
use torr_bsds.Runtime.Json.{
  Json, null, str, arr, obj, Items, nil, cons, end, Result, ok, err, type_error, attribute_error,
  get_or, as_str,
}
use torr_bsds.Runtime.Exec.{Exec, get, pure, lift, try, ◌>>=◌, ◌>>◌}
use torr_bsds.Runtime.Env.{Env, send}

pub record HealthChecker : Type 0 where
  pub current_node_ids : List String
  pub needs_rebuild : Bool

abbrev pub new_checker : HealthChecker
new_checker = record { current_node_ids = []; needs_rebuild = false }

unfoldable pub contains : String → List String → Bool
contains x [] = false
contains x (y ∷ ys) = str_eq x y || contains x ys

unfoldable pub is_subset : List String → List String → Bool
unfolding contains
is_subset [] ys = true
is_subset (x ∷ xs) ys = contains x ys && is_subset xs ys

abbrev pub is_empty : List String → Bool
is_empty [] = true
is_empty (_ ∷ _) = false

unfoldable pub set_circuit_nodes : List String → HealthChecker → HealthChecker
set_circuit_nodes node_ids hc = record { current_node_ids = node_ids; needs_rebuild = false }

unfoldable pub check_needs_rebuild : HealthChecker → Bool
check_needs_rebuild hc = hc.needs_rebuild

-- The block under the lock, once the healthy IDs are there.
unfoldable pub apply_poll : List String → HealthChecker → HealthChecker
unfolding is_subset
apply_poll healthy_ids hc =
    if not (is_empty hc.current_node_ids) && not (is_subset hc.current_node_ids healthy_ids)
    then record hc { needs_rebuild = true }
    else hc

-- What `for node in v` runs over; a dict or a text that is not empty yields texts, which have no
-- `get`.
unfoldable pub iterate : Json → Result Items
iterate (arr xs) = ok xs
iterate (obj end) = ok nil
iterate (obj _) = err attribute_error
iterate (str s) = if str_eq s "" then ok nil else err attribute_error
iterate _ = err type_error

unfoldable pub node_ids : Items → Exec (List String)
node_ids nil = pure []
node_ids (cons node nodes) = do
  id ← lift (get_or node "nodeId" (str ""))
  text ← lift (as_str id type_error)
  rest ← node_ids nodes
  pure (text ∷ rest)

-- The inner loop for one type of node.
unfoldable pub ids_of_type : Json → String → Exec (List String)
ids_of_type nodes node_type = do
  listed ← lift (get_or nodes node_type (arr nil))
  items ← lift (iterate listed)
  node_ids items

module _ (env : Env) (directory_url : String) where
  unfoldable pub healthy_nodes : Exec (List String)
  healthy_nodes = do
    resp ← send env (get (directory_url <> "/nodes") null 10)
    lift (env.raise_for_status resp)
    nodes ← lift resp.json
    guards ← ids_of_type nodes "guard"
    relays ← ids_of_type nodes "relay"
    exits ← ids_of_type nodes "exit"
    pure (guards ++ (relays ++ exits))

  -- One round of the loop: an exception is logged and changes nothing.
  unfoldable pub poll_once : HealthChecker → Exec HealthChecker
  poll_once hc = try (do healthy ← healthy_nodes; pure (apply_poll healthy hc)) (λ exc. pure hc)

  -- The loop, given what each wait for the stop flag answers, by its number; `none` if it is
  -- still running after so many waits.
  unfoldable pub poll_loop : (ℕ → Bool) → ℕ → ℕ → HealthChecker → Exec (Option HealthChecker)
  poll_loop stopped zero round hc = pure none
  poll_loop stopped (suc fuel) round hc =
      if stopped round
      then pure (some hc)
      else (do hc' ← poll_once hc; poll_loop stopped fuel (suc round) hc')
