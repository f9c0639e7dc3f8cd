-- ===== src/ControlPlane/Registry/Handlers/Access.antt =====
-- Who may change what through the registry.
use firework.Base.{
  ℕ, String, ◌≡◌, ◌⊎◌, inl, inr, refl, Bool, ◌==◌, Option, none, some, arith, eq_iff, eqb, if_ind,
  Option-cases, not, ◌||◌, if◌then◌else◌,
}
use firework.Base.Dict.{Dict, lookup}
use firework.Base.Text.{trim_space}
use firework.ControlPlane.StateStore.{CellStore}
use firework.ControlPlane.Upsert.{Mutation, Upserted, done, failed, store_error, too_many, Round}
use firework.ControlPlane.Upsert.Atomic.{IsApplied, Explains, upsert-Explains}
use firework.ControlPlane.Registry.{
  NodeRecord, NodeRegisterRequest, NodeHeartbeatRequest, Refusal, stale_generation,
  missing_schema_version, status_of_other_node, new_record, register, heartbeat,
}
use firework.ControlPlane.Registry.Handlers.{
  Certificate, require_node_identity, Response, NodeResponse, error, node, certificate,
  node_response, answer, has_key, upsert_node_record, handle_register, handle_register_request,
  handle_register_as, handle_heartbeat, handle_heartbeat_as, handle_heartbeat_request,
  EnrollRequest, Signer, certify, enroll, handle_enroll,
}

-- A bootstrap token yields a certificate only if it is configured, and then only for the node that it
-- is bound to, if any; what the client gets is what the signer made for that node and its request.
pub handle_enroll-certificate :
    (sign : Signer) (tokens : Dict String) (req : EnrollRequest) (pem : String) (expires_at : ℕ)
    → handle_enroll sign tokens (some req) ≡ certificate pem expires_at
    → (sign (trim_space req.node_id) req.csr_pem ≡ some (pem, expires_at))
      × ((bound : String) × (lookup req.bootstrap_token tokens ≡ some bound)
          × ((bound ≡ "") ⊎ (bound ≡ trim_space req.node_id)))
unfolding handle_enroll enroll certify
handle_enroll-certificate sign tokens req pem expires_at e =
    elim (Option-cases (lookup req.bootstrap_token tokens)) [
      | inl unknown ↦ absurd (ground (arith, unknown))
      | inr (bound, known) ↦ (
        ground (arith, known),
        (
          bound,
          known,
          ground (arith, known, eq_iff bound "", eq_iff bound (trim_space req.node_id)),
        ),
      )
    ]

module _ (S : CellStore NodeRecord) (rounds : ℕ → Round S) where
  -- The client is the node `node_id`, and the answer `r` shows the record that the mutator made of
  -- what stood in the store when it was written.
  pub record IsAdmitted (cert : Option Certificate) (node_id : String)
      (mutator : ℕ → NodeRecord → Mutation Refusal NodeRecord) (c end : S.Cell) (r : NodeResponse)
      : Type 0 where
    pub identity : require_node_identity cert ≡ some node_id
    pub rec : NodeRecord
    pub shown : r ≡ node_response rec
    pub applied : IsApplied S rounds (new_record node_id) mutator c end rec

  module _ (node_id : String) (mutator : ℕ → NodeRecord → Mutation Refusal NodeRecord) (c : S.Cell)
      (r : NodeResponse) where
    abbrev Shows : S.Cell × Response → Type 0
    Shows (end, response) =
        response ≡ node r
        → (v : NodeRecord) × (r ≡ node_response v)
          × IsApplied S rounds (new_record node_id) mutator c end v

    answer-Shows :
        (p : S.Cell × Upserted Refusal NodeRecord)
        → Explains S rounds (new_record node_id) mutator c p
        → Shows (p.0, answer p.1)
    unfolding answer
    answer-Shows (end, done v) applied e = (v, cc, applied)
    answer-Shows (end, failed stale_generation) _ e = cc
    answer-Shows (end, failed missing_schema_version) _ e = cc
    answer-Shows (end, failed status_of_other_node) _ e = cc
    answer-Shows (end, store_error) _ e = cc
    answer-Shows (end, too_many) _ e = cc

    upsert_node_record-Shows : Shows (upsert_node_record S rounds node_id mutator c)
    unfolding upsert_node_record
    upsert_node_record-Shows =
        if_ind Shows (not (has_key node_id)) (λ _ e. cc)
          (λ _. answer-Shows _ (upsert-Explains S rounds (new_record node_id) mutator c))

  -- What an answer with a record shows of a request that names the node `node_id`.
  abbrev Admits :
      Option Certificate
      → String
      → (ℕ → NodeRecord → Mutation Refusal NodeRecord)
      → S.Cell
      → NodeResponse
      → S.Cell × Response
      → Type 0
  Admits cert node_id mutator c r (end, response) =
      response ≡ node r → IsAdmitted cert node_id mutator c end r

  upsert_node_record-Admits :
      (cert : Option Certificate) (identity node_id : String)
      (mutator : ℕ → NodeRecord → Mutation Refusal NodeRecord) (c : S.Cell) (r : NodeResponse)
      → require_node_identity cert ≡ some identity
      → node_id ≡ identity
      → Admits cert node_id mutator c r (upsert_node_record S rounds node_id mutator c)
  upsert_node_record-Admits cert identity node_id mutator c r known same e =
      let (v, shown, applied) = upsert_node_record-Shows node_id mutator c r e in
      record { identity = cc; rec = v; shown = shown; applied = applied }

  -- The tests before the upsert: `bad` for a field that is missing.
  checks-Admits :
      (cert : Option Certificate) (identity node_id : String)
      (mutator : ℕ → NodeRecord → Mutation Refusal NodeRecord) (c : S.Cell) (r : NodeResponse)
      (bad : Bool) (rest : S.Cell × Response)
      → (node_id ≡ identity → Admits cert node_id mutator c r rest)
      → Admits cert node_id mutator c r (
          if bad
          then (c, error 400)
          else if not (node_id == identity)
          then (c, error 403)
          else rest)
  checks-Admits cert identity node_id mutator c r bad rest last =
      let Q : S.Cell × Response → Type 0 = Admits cert node_id mutator c r in
      if_ind Q bad (λ _ e. cc)
        (λ _.
          if_ind Q (not (node_id == identity)) (λ _ e. cc)
            (λ own. last (ground (arith, eq_iff node_id identity))))

  register_as-Admits :
      (cert : Option Certificate) (req : NodeRegisterRequest) (c : S.Cell) (r : NodeResponse)
      (identity : Option String)
      → require_node_identity cert ≡ identity
      → Admits cert req.node_id
          (register req)
          c
          r
          (handle_register_as S rounds identity (some req) c)
  unfolding handle_register_as handle_register_request
  register_as-Admits cert req c r none known e = cc
  register_as-Admits cert req c r (some identity) known e =
      checks-Admits cert identity req.node_id (register req) c r
        (req.node_id == "" || eqb req.generation 0) _
        (upsert_node_record-Admits cert identity req.node_id (register req) c r known) e

  -- A registration is answered with a record only to the node that it names, by its certificate; the
  -- record is then the outcome of one atomic change of what was stored.
  pub handle_register-IsAdmitted :
      (cert : Option Certificate) (req : NodeRegisterRequest) (c : S.Cell) (r : NodeResponse)
      → (handle_register S rounds cert (some req) c).1 ≡ node r
      → IsAdmitted cert req.node_id
          (register req)
          c
          (handle_register S rounds cert (some req) c).0
          r
  unfolding handle_register
  handle_register-IsAdmitted cert req c r =
      register_as-Admits cert req c r (require_node_identity cert) refl

  module _ (bounded_message : String → String) where
    heartbeat_as-Admits :
        (cert : Option Certificate) (req : NodeHeartbeatRequest) (c : S.Cell) (r : NodeResponse)
        (identity : Option String)
        → require_node_identity cert ≡ identity
        → Admits cert req.node_id
            (heartbeat bounded_message req)
            c
            r
            (handle_heartbeat_as S rounds bounded_message identity (some req) c)
    unfolding handle_heartbeat_as handle_heartbeat_request
    heartbeat_as-Admits cert req c r none known e = cc
    heartbeat_as-Admits cert req c r (some identity) known e =
        checks-Admits cert identity req.node_id (heartbeat bounded_message req) c r
          (req.node_id == "" || eqb req.generation 0) _
          (upsert_node_record-Admits cert identity req.node_id (heartbeat bounded_message req) c r
            known)
          e

    -- The same of a heartbeat.
    pub handle_heartbeat-IsAdmitted :
        (cert : Option Certificate) (req : NodeHeartbeatRequest) (c : S.Cell) (r : NodeResponse)
        → (handle_heartbeat S rounds bounded_message cert (some req) c).1 ≡ node r
        → IsAdmitted cert req.node_id
            (heartbeat bounded_message req)
            c
            (handle_heartbeat S rounds bounded_message cert (some req) c).0
            r
    unfolding handle_heartbeat
    handle_heartbeat-IsAdmitted cert req c r =
        heartbeat_as-Admits cert req c r (require_node_identity cert) refl
