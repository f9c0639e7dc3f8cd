-- ===== src/ControlPlane/Registry/Handlers.antt =====
-- internal/controlplane/registry.go: the HTTP handlers of the registry, with the identity that a
-- client certificate gives (certs.go). The parts outside the program are parameters: the signing of a
-- request for a certificate, and the text that BoundedMessage makes. A body that is no JSON is `none`.
-- The store is that of the one record which a request may touch.
pub mod Access
use firework.Base.{
  ℕ, String, Bool, true, false, ◌&&◌, ◌||◌, not, ◌==◌, if◌then◌else◌, Option, none, some, List, [],
  ◌∷◌, eqb,
}
use firework.Base.Dict.{Dict, lookup, insert}
use firework.Base.Text.{trim_space, contains, trim_prefix}
use text.Mathlib.Text.{starts_with}
use firework.ControlPlane.StateStore.{CellStore}
use firework.ControlPlane.Upsert.{
  Mutation, Upserted, done, failed, store_error, too_many, Round, upsert,
}
use firework.ControlPlane.Registry.{
  NodeRecord, NodeRegisterRequest, NodeHeartbeatRequest, Refusal, stale_generation,
  missing_schema_version, status_of_other_node, new_record, register, heartbeat, set_state,
  node_state_ready, node_state_draining, node_state_down,
}

-- What the handlers read of a client's certificate.
pub record Certificate : Type 0 where
  pub uris : List String
  pub common_name : String
  pub dns_names : List String

abbrev spiffe_prefix : String
spiffe_prefix = "spiffe://firework/nodes/"

unfoldable pub spiffe_id : List String → Option String
spiffe_id [] = none
spiffe_id (uri ∷ uris) =
    if starts_with uri spiffe_prefix then some (trim_prefix uri spiffe_prefix) else spiffe_id uris

unfoldable pub first_or_empty : List String → String
first_or_empty [] = ""
first_or_empty (name ∷ names) = name

unfoldable pub node_id_from_certificate : Certificate → String
node_id_from_certificate cert = elim (spiffe_id cert.uris) [
  | some id ↦ id
  | none ↦ if cert.common_name == "" then first_or_empty cert.dns_names else cert.common_name
]

-- requireNodeIdentity: `none` where there is no certificate, or no identity in it.
unfoldable pub require_node_identity : Option Certificate → Option String
require_node_identity none = none
require_node_identity (some cert) =
    let id = node_id_from_certificate cert in if trim_space id == "" then none else some id

pub record NodeResponse : Type 0 where
  pub node_id : String
  pub generation : ℕ
  pub state : String
  pub last_seen_at : ℕ

pub data Response : Type 0 where
  error : (status : ℕ) → Response
  node : NodeResponse → Response
  certificate : (pem : String) (expires_at : ℕ) → Response

unfoldable pub node_response : NodeRecord → NodeResponse
node_response rec = record {
  node_id = rec.node_id;
  generation = rec.generation;
  state = rec.state;
  last_seen_at = rec.last_seen_at;
}

-- nodeRecordKey: whether the id can be part of a key.
unfoldable pub has_key : String → Bool
has_key node_id = not (trim_space node_id == "") && not (contains node_id "/")

-- The answer to an upsert of a record.
unfoldable pub answer : Upserted Refusal NodeRecord → Response
answer (done rec) = node (node_response rec)
answer (failed stale_generation) = error 409
answer (failed missing_schema_version) = error 500
answer (failed status_of_other_node) = error 500
answer store_error = error 500
answer too_many = error 500

module _ (S : CellStore NodeRecord) (rounds : ℕ → Round S) where
  open S use {Cell}

  -- upsertNodeRecord, with the answer to the client.
  unfoldable pub upsert_node_record :
      String → (ℕ → NodeRecord → Mutation Refusal NodeRecord) → Cell → Cell × Response
  upsert_node_record node_id mutator c =
      let (end, result) = upsert S (new_record node_id) mutator rounds c in
      if not (has_key node_id) then (c, error 500) else (end, answer result)

  unfoldable pub handle_register_request : String → NodeRegisterRequest → Cell → Cell × Response
  handle_register_request identity req c =
      let result = upsert_node_record req.node_id (register req) c in
      if req.node_id == "" || eqb req.generation 0
      then (c, error 400)
      else if not (req.node_id == identity)
      then (c, error 403)
      else result

  unfoldable pub handle_register_as :
      Option String → Option NodeRegisterRequest → Cell → Cell × Response
  handle_register_as none body c = (c, error 401)
  handle_register_as (some identity) none c = (c, error 400)
  handle_register_as (some identity) (some req) c = handle_register_request identity req c

  unfoldable pub handle_register :
      Option Certificate → Option NodeRegisterRequest → Cell → Cell × Response
  handle_register cert body c = handle_register_as (require_node_identity cert) body c

  module _ (bounded_message : String → String) where
    unfoldable pub handle_heartbeat_request : String → NodeHeartbeatRequest → Cell → Cell × Response
    handle_heartbeat_request identity req c =
        let result = upsert_node_record req.node_id (heartbeat bounded_message req) c in
        if req.node_id == "" || eqb req.generation 0
        then (c, error 400)
        else if not (req.node_id == identity)
        then (c, error 403)
        else result

    unfoldable pub handle_heartbeat_as :
        Option String → Option NodeHeartbeatRequest → Cell → Cell × Response
    handle_heartbeat_as none body c = (c, error 401)
    handle_heartbeat_as (some identity) none c = (c, error 400)
    handle_heartbeat_as (some identity) (some req) c = handle_heartbeat_request identity req c

    unfoldable pub handle_heartbeat :
        Option Certificate → Option NodeHeartbeatRequest → Cell → Cell × Response
    handle_heartbeat cert body c = handle_heartbeat_as (require_node_identity cert) body c

  -- `node_id` is the id in the request's path, `body` the state that it asks for.
  unfoldable pub handle_state_body : String → Option String → Cell → Cell × Response
  handle_state_body node_id none c = (c, error 400)
  handle_state_body node_id (some state) c =
      let result = upsert_node_record node_id (set_state node_id state) c in
      if not (state == node_state_ready)
        && not (state == node_state_draining)
        && not (state == node_state_down)
      then (c, error 400)
      else result

  unfoldable pub handle_state_as : Option String → String → Option String → Cell → Cell × Response
  handle_state_as none node_id body c = (c, error 401)
  handle_state_as (some identity) node_id body c =
      if node_id == ""
      then (c, error 400)
      else if not (node_id == identity)
      then (c, error 403)
      else handle_state_body node_id body c

  unfoldable pub handle_state : Option Certificate → String → Option String → Cell → Cell × Response
  handle_state cert node_id body c = handle_state_as (require_node_identity cert) node_id body c

pub record EnrollRequest : Type 0 where
  pub node_id : String
  pub bootstrap_token : String
  pub csr_pem : String

-- The signer: SignCSR for a node id and a request in PEM, `none` where it fails.
abbrev pub Signer : Type 0
Signer = String → String → Option (String × ℕ)

unfoldable pub certify : Option (String × ℕ) → Response
certify none = error 400
certify (some (pem, expires_at)) = certificate pem expires_at

-- NewRegistryServer: the nodes that the configured tokens are bound to, "" for any; a blank token
-- is skipped, and a later entry replaces an earlier one.
unfoldable pub add_tokens : Dict String → List (String × String) → Dict String
add_tokens m [] = m
add_tokens m ((token, node_id) ∷ tokens) =
    add_tokens (if trim_space token == "" then m else insert token (trim_space node_id) m) tokens

unfoldable pub token_map : List (String × String) → Dict String
token_map tokens = add_tokens [] tokens

module _ (sign : Signer) (token_to_node : Dict String) where
  unfoldable pub enroll : String → EnrollRequest → Response
  enroll node_id req =
      if node_id == "" || req.csr_pem == "" || req.bootstrap_token == ""
      then error 400
      else elim (lookup req.bootstrap_token token_to_node) [
        | none ↦ error 401
        | some bound_node ↦
            if not (bound_node == "") && not (bound_node == node_id)
            then error 401
            else certify (sign node_id req.csr_pem)
      ]

  unfoldable pub handle_enroll : Option EnrollRequest → Response
  handle_enroll none = error 400
  handle_enroll (some req) = enroll (trim_space req.node_id) req

unfoldable pub handle_renew : Signer → Option Certificate → Option String → Response
handle_renew sign cert body = elim (require_node_identity cert) [
  | none ↦ error 401
  | some identity ↦ elim body [
    | none ↦ error 400
    | some csr_pem ↦ if trim_space csr_pem == "" then error 400 else certify (sign identity csr_pem)
  ]
]
