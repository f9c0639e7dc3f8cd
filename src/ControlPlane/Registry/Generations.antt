-- ===== src/ControlPlane/Registry/Generations.antt =====
-- What the registry's changes keep of a node's record.
use firework.Base.{ℕ, String, ◌≡◌, ◌≢◌, false, ◌<◌, arith}
use firework.Base.Int64.{lt64, gt64, half_word}
use firework.ControlPlane.Upsert.{keep}
use firework.ControlPlane.Registry.{
  NodeRecord, NodeRegisterRequest, NodeHeartbeatRequest, register, heartbeat, beat, set_state,
}

-- A change by one of the three handlers.
pub data Change (bounded_message : String → String) (now : ℕ) (cur next : NodeRecord) : Type 0 where
  registered :
      (req : NodeRegisterRequest)
      → register req now cur ≡ keep next
      → Change bounded_message now cur next
  beaten :
      (req : NodeHeartbeatRequest)
      → heartbeat bounded_message req now cur ≡ keep next
      → Change bounded_message now cur next
  moved :
      (node_id state : String)
      → set_state node_id state now cur ≡ keep next
      → Change bounded_message now cur next

module _ (bounded_message : String → String) (now : ℕ) {cur next : NodeRecord} where
  -- While the clock reads a time after 1970 and before 2262, no change by a handler makes the
  -- generation of a node's record smaller.
  pub Change-generation :
      now < half_word
      → Change bounded_message now cur next
      → gt64 cur.generation next.generation ≡ false
  unfolding register heartbeat beat set_state lt64
  Change-generation time (registered req e) = ground arith
  Change-generation time (beaten req e) = ground arith
  Change-generation time (moved node_id state e) = ground arith

  -- A record keeps the time of its registration as long as its generation stays the same.
  pub Change-registered_at :
      Change bounded_message now cur next
      → next.generation ≡ cur.generation
      → cur.registered_at ≢ 0
      → next.registered_at ≡ cur.registered_at
  unfolding register heartbeat beat set_state lt64
  Change-registered_at (registered req e) same old = ground arith
  Change-registered_at (beaten req e) same old = ground arith
  Change-registered_at (moved node_id state e) same old = ground arith
