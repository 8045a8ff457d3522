-- ===== src/Kill/Node.antt =====
-- The node ID that the failure injection reports, of a task described as ECS does it.
use torr_bsds.Base.{
  String, ◌≡◌, refl, inl, inr, List, [], ◌∷◌, str_eq, eq_iff, if◌then◌else◌, Bool-cases,
}
use torr_bsds.Runtime.Json.{str, arr, obj, field, end, Items, nil, cons, ok, get_or, lookup, truthy}
use torr_bsds.Runtime.Exec.{Trace}
use torr_bsds.Kill.{node_id_of_environment, node_id_of_containers}

-- The variables of a container, by name and value.
abbrev pub Environment : Type 0
Environment = List (String × String)

unfoldable pub variables_json : Environment → Items
variables_json [] = nil
variables_json ((name, value) ∷ rest) =
    cons (obj (field "name" (str name) (field "value" (str value) end))) (variables_json rest)

unfoldable pub containers_json : List Environment → Items
containers_json [] = nil
containers_json (environment ∷ rest) =
    cons (obj (field "environment" (arr (variables_json environment)) end)) (containers_json rest)

-- The first value of that name in a container, or an empty text.
unfoldable pub value_of_node_id : Environment → String
value_of_node_id [] = ""
value_of_node_id ((name, value) ∷ rest) =
    let later = value_of_node_id rest in if str_eq name "NODE_ID" then value else later

-- The first container's that is not empty.
unfoldable pub first_node_id : List Environment → String
first_node_id [] = ""
first_node_id (environment ∷ rest) =
    let later = first_node_id rest in
    if str_eq (value_of_node_id environment) "" then later else value_of_node_id environment

node_id_of_environment-value :
    (environment : Environment) (t : Trace)
    → node_id_of_environment (str "") (variables_json environment) t
      ≡ (ok (str (value_of_node_id environment)), t)
unfolding node_id_of_environment variables_json value_of_node_id get_or lookup
node_id_of_environment-value [] t = refl
node_id_of_environment-value ((name, value) ∷ rest) t = elim (Bool-cases (str_eq name "NODE_ID")) [
  | inl e ↦ rw e refl
  | inr e ↦ rw e (node_id_of_environment-value rest t)
]

-- Of containers whose environments are lists of variables with names and values, the node ID that
-- is found is, of the first container in which the first variable named NODE_ID has a value that
-- is not empty, that value; if there is none, it is empty. Finding it raises nothing.
pub node_id_of_containers-first :
    (containers : List Environment) (t : Trace)
    → node_id_of_containers (str "") (containers_json containers) t
      ≡ (ok (str (first_node_id containers)), t)
unfolding node_id_of_containers containers_json first_node_id get_or lookup truthy
node_id_of_containers-first [] t = refl
node_id_of_containers-first (environment ∷ rest) t =
    elim (Bool-cases (str_eq (value_of_node_id environment) "")) [
      | inl e ↦
          let empty : value_of_node_id environment ≡ "" = (eq_iff _ "").0 e in
          rw (node_id_of_environment-value environment, e)
            (rw empty (node_id_of_containers-first rest t))
      | inr e ↦ rw (node_id_of_environment-value environment, e) refl
    ]
