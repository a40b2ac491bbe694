-- ===== src/Hello.antt =====
-- hello-protocol.hpp and hello-protocol.cpp: the Hello Interests of the neighbours and, with
-- event-driven verification, the flow tokens that outdate old answers and the mobility sweep that
-- holds the adjacency LSA back. A Hello Interest is known by its neighbour: its name is the
-- neighbour's, /nlsr/INFO and this router's. The answers of the outside (Data validated or not,
-- Nack, timeout, timer) are calls of the handlers. An event handle is a Boolean or the event. The
-- sweep's targets and the results are a std::set and a std::map. `hello_log` is what goes out,
-- oldest first; statistics are left out, and so is the signing of Data.
pub mod Sweep
pub mod Answers
pub mod Held
pub mod Verify
pub mod Events
pub mod Silence
pub mod Flow
pub mod Settle
use nlsr.Prelude.{
  Eq, ◌==◌, ltb, nat_beq, if◌then◌else◌, ℕ, ◌*◌, Bool, true, false, not, ◌&&◌, Option, none, some,
  List, [], ◌∷◌, ◌++◌,
}
use nlsr.Sequencing.{increased}
use nlsr.Adjacency.{Status, unknown, inactive, active, find, Adjacent}
use nlsr.Lsdb.{Lsdb, Config}
use nlsr.Route.RoutingTable.{RoutingTable}

pub data VerifyResult : Type 0 where
  reachable unreachable indeterminate : VerifyResult

abbrev pub is_inactive : Status → Bool
is_inactive inactive = true
is_inactive active = false
is_inactive unknown = false

-- The neighbour, the lifetime in milliseconds, and what its callbacks capture.
pub record HelloInterest (N : Type 0) : Type 0 where
  pub neighbor : N
  pub lifetime : ℕ
  pub is_reciprocal : Bool
  pub flow_token : ℕ

pub record AdjHelloControl (N : Type 0) : Type 0 where
  pub periodic_event : Bool
  pub pending_interest : Option (HelloInterest N)
  -- The delay, and the Interest that then counts as timed out.
  pub nack_delay_event : Option (ℕ × HelloInterest N)
  pub current_token : ℕ
  pub interest_lifetime : ℕ

pub record MobilitySweep (N : Type 0) : Type 0 where
  pub serial : ℕ
  pub targets : List N
  pub results : List (N × VerifyResult)

pub record HelloConfig : Type 0 where
  pub info_interest_interval : ℕ
  pub event_driven_verification_timeout_ms : ℕ
  pub result_driven_adj_lsa_build : Bool

pub data HelloEffect (N : Type 0) : Type 0 where
  sent_interest : HelloInterest N → HelloEffect N
  sent_data : N → HelloEffect N
  -- Without event-driven verification: after a delay the Interest counts as timed out.
  timeout_scheduled : ℕ → HelloInterest N → HelloEffect N
  hello_scheduled : N → ℕ → HelloEffect N
  initial_data_validated : N → HelloEffect N

-- `conf.adjacency_list` is the list of neighbours that all components share.
pub record Hello (N F D : Type 0) : Type 0 where
  pub conf : Config N F D
  pub hello_conf : HelloConfig
  pub database : Lsdb N F D
  pub routing_table : RoutingTable N F D
  pub adj_hello : N → AdjHelloControl N
  pub sweep : Option (MobilitySweep N)
  pub next_sweep_serial : ℕ
  pub hello_log : List (HelloEffect N)

abbrev pub hello_interest : {N : Type 0} → N → ℕ → Bool → ℕ → HelloInterest N
hello_interest nb time reciprocal token = record {
  neighbor = nb;
  lifetime = time;
  is_reciprocal = reciprocal;
  flow_token = token;
}

module _ {N F D : Type 0} where
  abbrev pub is_event_driven_on : Hello N F D → Bool
  is_event_driven_on h = h.conf.event_driven_adjacency_verification

  abbrev pub note : HelloEffect N → Hello N F D → Hello N F D
  note e h = record h { hello_log = h.hello_log ++ e ∷ [] }

  abbrev pub neighbors : Hello N F D → List (Adjacent N F D)
  neighbors h = h.conf.adjacency_list

  abbrev pub with_neighbors : List (Adjacent N F D) → Hello N F D → Hello N F D
  with_neighbors l h = record h { conf = record h.conf { adjacency_list = l } }

  unfoldable pub vanilla_hello_lifetime : Hello N F D → ℕ
  vanilla_hello_lifetime h = h.conf.interest_resend_time * 1000

  unfoldable pub verify_now_lifetime : Hello N F D → ℕ
  unfolding vanilla_hello_lifetime
  verify_now_lifetime h =
      if ltb 0 h.hello_conf.event_driven_verification_timeout_ms
      then h.hello_conf.event_driven_verification_timeout_ms
      else vanilla_hello_lifetime h

  unfoldable pub express_interest_vanilla : N → ℕ → Bool → Hello N F D → Hello N F D
  express_interest_vanilla nb seconds reciprocal h =
      note (sent_interest (hello_interest nb (seconds * 1000) reciprocal 0)) h

  -- The Nack callback of `express_interest_vanilla`.
  unfoldable pub on_nack_vanilla : HelloInterest N → Hello N F D → Hello N F D
  on_nack_vanilla i h = note (timeout_scheduled (2 * i.lifetime) i) h

module _ {N F D : Type 0} ⦃n : Eq N⦄ where
  abbrev pub set_control : N → AdjHelloControl N → Hello N F D → Hello N F D
  set_control nb c h = record h { adj_hello = λ (k : N). if k == nb then c else h.adj_hello k }

  abbrev pub is_stale : N → ℕ → Hello N F D → Bool
  is_stale nb token h = not (nat_beq token (h.adj_hello nb).current_token)

  -- A new flow outdates the earlier ones: what was pending of them is cancelled.
  unfoldable pub supersede : N → ℕ → Hello N F D → Hello N F D
  supersede nb time h =
      set_control nb
        (record (h.adj_hello nb) {
          current_token = increased (h.adj_hello nb).current_token 1;
          interest_lifetime = time;
          nack_delay_event = none;
          pending_interest = none;
        })
        h

  unfoldable pub express_interest_owned : N → ℕ → Bool → ℕ → Hello N F D → Hello N F D
  express_interest_owned nb time reciprocal token h =
      let i = hello_interest nb time reciprocal token in
      note (sent_interest i) (
        set_control nb
          (record (h.adj_hello nb) { nack_delay_event = none; pending_interest = some i }) h)

  unfoldable pub express_interest : N → ℕ → Bool → Hello N F D → Hello N F D
  unfolding express_interest_vanilla express_interest_owned
  express_interest nb seconds reciprocal h =
      if is_event_driven_on h
      then express_interest_owned nb (seconds * 1000) reciprocal (h.adj_hello nb).current_token h
      else express_interest_vanilla nb seconds reciprocal h

  unfoldable pub on_nack_owned : HelloInterest N → Hello N F D → Hello N F D
  on_nack_owned i h =
      if is_stale i.neighbor i.flow_token h
      then h
      else set_control i.neighbor
          (record (h.adj_hello i.neighbor) {
            nack_delay_event = some (2 * (h.adj_hello i.neighbor).interest_lifetime, i);
          })
          h

  abbrev pub schedule_periodic : N → Hello N F D → Hello N F D
  schedule_periodic nb h = set_control nb (record (h.adj_hello nb) { periodic_event = true }) h

  unfoldable pub send_hello_interest_vanilla : N → Hello N F D → Hello N F D
  unfolding express_interest_vanilla find
  send_hello_interest_vanilla nb h = elim (find (neighbors h) nb) [
    | none ↦ h
    | some a ↦ note (hello_scheduled nb h.hello_conf.info_interest_interval) (
        if nat_beq a.face_id 0
        then h
        else express_interest_vanilla a.name h.conf.interest_resend_time false h)
  ]

  -- A periodic Interest of a new flow, where there is a face.
  unfoldable pub probe : N → ℕ → Adjacent N F D → Hello N F D → Hello N F D
  unfolding express_interest_owned
  probe nb time a h =
      if nat_beq a.face_id 0
      then h
      else express_interest_owned nb time false (h.adj_hello nb).current_token h

  unfoldable pub send_hello_interest_owned : N → Hello N F D → Hello N F D
  unfolding supersede probe vanilla_hello_lifetime find
  send_hello_interest_owned nb h = elim (find (neighbors h) nb) [
    | none ↦ h
    | some a ↦
        schedule_periodic nb
          (probe nb (vanilla_hello_lifetime h) a (supersede nb (vanilla_hello_lifetime h) h))
  ]

  unfoldable pub send_hello_interest : N → Hello N F D → Hello N F D
  unfolding send_hello_interest_vanilla send_hello_interest_owned
  send_hello_interest nb h =
      if is_event_driven_on h
      then send_hello_interest_owned nb h
      else send_hello_interest_vanilla nb h

  -- The reaction to a Hello Interest of a neighbour that is inactive and has a face.
  unfoldable pub reciprocate : N → Hello N F D → Hello N F D
  unfolding express_interest_vanilla express_interest_owned supersede vanilla_hello_lifetime
  reciprocate nb h =
      let fresh = supersede nb (vanilla_hello_lifetime h) h in
      if is_event_driven_on h
      then express_interest_owned nb (vanilla_hello_lifetime h) true
          (fresh.adj_hello nb).current_token fresh
      else express_interest_vanilla nb h.conf.interest_resend_time true h

  -- An Interest that came in, with the name of its sender; `none` is another name.
  unfoldable pub process_interest : Option N → Hello N F D → Hello N F D
  unfolding reciprocate find
  process_interest none h = h
  process_interest (some nb) h = elim (find (neighbors h) nb) [
    | none ↦ h
    | some a ↦
        if is_inactive a.status && not (nat_beq a.face_id 0)
        then reciprocate nb (note (sent_data nb) h)
        else note (sent_data nb) h
  ]
