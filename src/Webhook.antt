-- ===== src/Webhook.antt =====
-- internal/webhook/v1/node_webhook.go: the defaults of a new Node object, and its validation.
use node_drain.Base.{String, Bool, true, false, ◌≡◌, refl, ◌⊎◌, inl, inr, ◌==◌, ◌<>◌, eq_iff}
use node_drain.Base.{if◌then◌else◌, if_intro, msg, wrap, is_not_found, Result, ok, err, Exec, Error}
use node_drain.Api.{Node, NodeState, state_string}

-- runtime.Object: a Node, or an object of another type
pub data Object : Type 0 where
  node_object : Node → Object
  other_object : String → Object

-- applyDefaults
unfoldable pub apply_defaults : Node → Node
apply_defaults node =
    if state_string node.state == "" then record node { state = NodeState.active } else node

-- `if !errors.IsNotFound(err) { return … }`
unfoldable pub check_lookup : String → Result Node → Result (Unit {0})
check_lookup name (ok old) = ok tt
check_lookup name (err e) =
    if is_not_found e then ok tt else err (wrap ("could not find node " <> name) e)

-- Default: the object is changed in place; `get` is the client's Get
unfoldable pub default : (String → Result Node) → Exec Object (Unit {0})
default get (other_object type) =
    (err (msg ("expected an Node object but got " <> type)), other_object type)
default get (node_object node) = elim (check_lookup node.name (get node.name)) [
  | err e ↦ (err e, node_object node)
  | ok _ ↦ (ok tt, node_object (apply_defaults node))
]

-- ValidateCreate, with the result's warnings, of which there are none
unfoldable pub validate_create : Object → Result (Unit {0})
validate_create (node_object node) = ok tt
validate_create (other_object type) = err (msg ("expected a Node object but got " <> type))

-- ValidateUpdate
unfoldable pub validate_update : Object → Object → Result (Unit {0})
validate_update old (node_object node) = ok tt
validate_update old (other_object type) =
    err (msg ("expected a Node object for the newObj but got " <> type))

-- ValidateDelete
unfoldable pub validate_delete : Object → Result (Unit {0})
validate_delete (node_object node) = ok tt
validate_delete (other_object type) = err (msg ("expected a Node object but got " <> type))

-- What SetupNodeWebhookWithManager registers: the validator's and the defaulter's logger, the
-- client, and the option DefaulterRemoveUnknownOrOmitableFields.
pub record NodeWebhook (L C : Type 0) : Type 0 where
  pub validator_logger : L
  pub defaulter_logger : L
  pub client : C
  pub removes_unknown_fields : Bool

-- SetupNodeWebhookWithManager; `complete` is the end of controller-runtime's builder
unfoldable pub setup_node_webhook :
    {L C : Type 0}
    → (String → Result L)
    → C
    → (NodeWebhook L C → Result (Unit {0}))
    → Result (Unit {0})
setup_node_webhook get_named_logger client complete = elim (get_named_logger "node-webhook") [
  | err e ↦ err (wrap "failed to get logger: " e)
  | ok l ↦ complete (record {
    validator_logger = l;
    defaulter_logger = l;
    client = client;
    removes_unknown_fields = true;
  })
]

-- The object after the defaults: nothing is changed where its state is not empty, and only the
-- state is set, to Active, where it is.
abbrev IsDefaulted : Node → Node → Type 0
IsDefaulted old new =
    ((state_string old.state ≡ "") × (new ≡ record old { state = NodeState.active }))
    ⊎ ((state_string old.state == "" ≡ false) × (new ≡ old))

apply_defaults-IsDefaulted : (node : Node) → IsDefaulted node (apply_defaults node)
unfolding apply_defaults
apply_defaults-IsDefaulted node =
    if_intro (IsDefaulted node) (state_string node.state == "") _ _
      (λ h. inl ((eq_iff _ _).0 h, refl)) (λ h. inr (h, refl))

-- The Node is admitted: it has a state, which is Active where it had none, and nothing else
-- changed.
abbrev pub IsAccepted : Node → Result (Unit {0}) × Object → Type 0
IsAccepted node out =
    (m : Node) × (out ≡ (ok tt, node_object m))
    × IsDefaulted node m
    × (state_string m.state == "" ≡ false)

-- What Default leaves, by the answer to the lookup of the Node.
abbrev pub Admitted : Node → Result Node → Result (Unit {0}) × Object → Type 0
Admitted node (ok old) out = IsAccepted node out
Admitted node (err e) out =
    (is_not_found e ≡ true) × IsAccepted node out
    ⊎ ((is_not_found e ≡ false)
        × (out ≡ (err (wrap ("could not find node " <> node.name) e), node_object node)))

has_state : (node : Node) → state_string (apply_defaults node).state == "" ≡ false
unfolding apply_defaults state_string
has_state node =
    if_intro (λ (n : Node). state_string n.state == "" ≡ false) (state_string node.state == "") _ _
      (λ h. refl) (λ h. h)

accepts : (node : Node) → IsAccepted node (ok tt, node_object (apply_defaults node))
accepts node = (apply_defaults node, refl, apply_defaults-IsDefaulted node, has_state node)

-- An error of the lookup, by what it is.
admit_error :
    (node : Node) (e : Error) (missing : Bool)
    → is_not_found e ≡ missing
    → (let r : Result (Unit {0}) =
          if missing then ok tt else err (wrap ("could not find node " <> node.name) e) in
        Admitted node (err e) (elim r [
          | err x ↦ (err x, node_object node)
          | ok _ ↦ (ok tt, node_object (apply_defaults node))
        ]))
admit_error node e true h = inl (h, accepts node)
admit_error node e false h = inr (h, refl)

admit :
    (node : Node) (r : Result Node)
    → Admitted node r (elim (check_lookup node.name r) [
      | err e ↦ (err e, node_object node)
      | ok _ ↦ (ok tt, node_object (apply_defaults node))
    ])
unfolding check_lookup
admit node (ok old) = accepts node
admit node (err e) = admit_error node e (is_not_found e) refl

-- Where the client finds the Node or says that there is none, Default returns no error, the Node
-- has a state afterwards, which is Active where it had none, and nothing else changes. Where the
-- client fails otherwise, Default returns its error, with the name of the Node, and leaves the Node
-- as it was.
pub default-Admitted :
    (get : String → Result Node) (node : Node)
    → Admitted node (get node.name) (default get (node_object node))
unfolding default
default-Admitted get node = admit node (get node.name)
