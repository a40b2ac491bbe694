-- ===== src/Wire.antt =====
-- wireEncode and wireDecode of adjacent.cpp, lsa/, route/nexthop.cpp and
-- route/routing-table-entry.cpp. ndn-cxx's TLV blocks are an interface; the source prepends, so the
-- fields stand here in the order of the wire. Exceptions are the results `failed`. The cached wire
-- block is left out.
pub mod RoundTrip
use nlsr.Route.NexthopList.{add_all}
use nlsr.Route.RoutingTable.{RoutingTableEntry}
use nlsr.Adjacency.{unknown, Adjacent}
use nlsr.Lsa.{Body, adj_body, cor_body, name_body, Lsa}
use nlsr.Lsa.Update.{insert_each, add_adjacents}
use nlsr.Sequencing.{u64_mod}
use nlsr.Route.NextHop.{hop_lt, NextHop}
use nlsr.Prelude.{
  Eq, Ord, less, Double, nat_beq, if◌then◌else◌, ℕ, ◌<◌, ◌≡◌, false, Option, none, some, List, [],
  ◌∷◌, map,
}

-- Blocks, their types, and what they hold. A double and a URI are read as they were written; a time
-- point is written as a text, of the precision of `printed`.
pub record Tlv (B N F D : Type 0) : Type 0 where
  pub type_of : B → ℕ
  pub elements : B → Option (List B)
  pub nested : ℕ → List B → B
  pub name_block : N → B
  pub uri_block : ℕ → F → B
  pub double_block : ℕ → D → B
  pub number_block : ℕ → ℕ → B
  pub time_block : ℕ → ℕ → B
  pub read_name : B → Option N
  pub read_uri : B → Option F
  pub read_double : B → Option D
  pub read_number : B → Option ℕ
  pub read_time : B → Option ℕ
  pub printed : ℕ → ℕ
  pub name_type : ℕ
  pub type-nested : (t : ℕ) (bs : List B) → type_of (nested t bs) ≡ t
  pub type-name_block : (x : N) → type_of (name_block x) ≡ name_type
  pub type-uri_block : (t : ℕ) (x : F) → type_of (uri_block t x) ≡ t
  pub type-double_block : (t : ℕ) (x : D) → type_of (double_block t x) ≡ t
  pub type-number_block : (t : ℕ) (x : ℕ) → type_of (number_block t x) ≡ t
  pub type-time_block : (t : ℕ) (x : ℕ) → type_of (time_block t x) ≡ t
  pub elements-nested : (t : ℕ) (bs : List B) → elements (nested t bs) ≡ some bs
  pub read-name_block : (x : N) → read_name (name_block x) ≡ some x
  pub read-uri_block : (t : ℕ) (x : F) → read_uri (uri_block t x) ≡ some x
  pub read-double_block : (t : ℕ) (x : D) → read_double (double_block t x) ≡ some x
  pub read-number_block : (t : ℕ) (x : ℕ) → x < u64_mod → read_number (number_block t x) ≡ some x
  pub read-time_block : (t : ℕ) (x : ℕ) → read_time (time_block t x) ≡ some (printed x)

pub data WireError : Type 0 where
  -- The type that a block has, or that a required field should have had.
  wrong_type missing : ℕ → WireError
  malformed : WireError

pub data Decoded (A : Type 0) : Type 0 where
  ok : A → Decoded A
  failed : WireError → Decoded A

abbrev pub and_then : {A C : Type 0} → Decoded A → (A → Decoded C) → Decoded C
and_then (ok x) k = k x
and_then (failed e) k = failed e

abbrev pub or_malformed : {A : Type 0} → Option A → Decoded A
or_malformed none = failed malformed
or_malformed (some x) = ok x

-- `unset` is the face id of a neighbour that is made from a block, which nothing sets.
module _ {B N F D : Type 0} (tlv : Tlv B N F D) (unset : ℕ) where
  -- A required field at the front of the elements.
  unfoldable pub take_field : {A : Type 0} → ℕ → (B → Decoded A) → List B → Decoded (A × List B)
  take_field t read [] = failed (missing t)
  take_field t read (b ∷ bs) =
      if nat_beq (tlv.type_of b) t then and_then (read b) (λ x. ok (x, bs)) else failed (missing t)

  -- The remaining elements, all of one type; `other` is the error for another type.
  unfoldable pub take_all :
      {A : Type 0} → ℕ → (ℕ → WireError) → (B → Decoded A) → List B → Decoded (List A)
  take_all t other read [] = ok []
  take_all t other read (b ∷ bs) =
      let rest = take_all t other read bs in
      if nat_beq (tlv.type_of b) t
      then and_then (read b) (λ x. and_then rest (λ xs. ok (x ∷ xs)))
      else failed (other (tlv.type_of b))

  -- The elements of a block of the type.
  unfoldable pub open_block : ℕ → B → Decoded (List B)
  open_block t b =
      if nat_beq (tlv.type_of b) t
      then or_malformed (tlv.elements b)
      else failed (wrong_type (tlv.type_of b))

  abbrev pub decode_name : B → Decoded N
  decode_name b = or_malformed (tlv.read_name b)

  abbrev pub decode_double : B → Decoded D
  decode_double b = or_malformed (tlv.read_double b)

  unfoldable pub encode_adjacent : Adjacent N F D → B
  encode_adjacent a =
      tlv.nested 132 (
        tlv.name_block a.name
        ∷ tlv.uri_block 141 a.face_uri
        ∷ tlv.double_block 140 a.link_cost
        ∷ [])

  -- What the block does not hold is as in a neighbour that is made from a block.
  abbrev pub received_adjacent : N → F → D → Adjacent N F D
  received_adjacent name uri cost = record {
    name = name;
    face_uri = uri;
    link_cost = cost;
    status = unknown;
    interest_timed_out_no = 0;
    face_id = unset;
  }

  unfoldable pub decode_adjacent : B → Decoded (Adjacent N F D)
  unfolding open_block take_field
  decode_adjacent b = and_then (open_block 132 b) (λ bs.
      and_then (take_field tlv.name_type decode_name bs) (λ named.
        and_then (take_field 141 (λ x. or_malformed (tlv.read_uri x)) named.1) (λ placed.
          and_then (take_field 140 decode_double placed.1)
            (λ priced. ok (received_adjacent named.0 placed.0 priced.0)))))

  unfoldable pub encode_next_hop : NextHop F D → B
  encode_next_hop h =
      tlv.nested 143 (tlv.uri_block 141 h.uri ∷ tlv.double_block 134 h.route_cost ∷ [])

  unfoldable pub decode_next_hop : B → Decoded (NextHop F D)
  unfolding open_block take_field
  decode_next_hop b = and_then (open_block 143 b) (λ bs.
      and_then (take_field 141 (λ x. or_malformed (tlv.read_uri x)) bs) (λ placed.
        and_then (take_field 134 decode_double placed.1)
          (λ priced. ok (record { uri = placed.0; route_cost = priced.0; is_hyperbolic = false }))))

  unfoldable pub encode_entry : RoutingTableEntry N F D → B
  unfolding encode_next_hop
  encode_entry e =
      tlv.nested 145 (tlv.name_block e.destination ∷ map encode_next_hop e.nexthop_list)

  unfoldable pub decode_entry :
      ⦃f : Eq F⦄ ⦃o : Ord F⦄ ⦃d : Double D⦄ → B → Decoded (RoutingTableEntry N F D)
  unfolding open_block take_field take_all decode_next_hop
  decode_entry b = and_then (open_block 145 b) (λ bs.
      and_then (take_field tlv.name_type decode_name bs) (λ named.
        and_then (take_all 143 wrong_type decode_next_hop named.1)
          (λ hops. ok (record { destination = named.0; nexthop_list = add_all hop_lt hops [] }))))

  -- The part that all LSAs have.
  unfoldable pub encode_base : Lsa N F D → B
  encode_base l = tlv.nested 128 (
      tlv.name_block l.origin_router
      ∷ tlv.number_block 130 l.seq_no
      ∷ tlv.time_block 139 l.expiration_time_point
      ∷ [])

  -- The origin, the number and the expiration time.
  unfoldable pub decode_base : B → Decoded (N × ℕ × ℕ)
  unfolding take_field
  decode_base b = and_then (or_malformed (tlv.elements b)) (λ bs.
      and_then (take_field tlv.name_type decode_name bs) (λ named.
        and_then (take_field 130 (λ x. or_malformed (tlv.read_number x)) named.1) (λ numbered.
          and_then (take_field 139 (λ x. or_malformed (tlv.read_time x)) numbered.1)
            (λ timed. ok (named.0, numbered.0, timed.0)))))

  unfoldable pub encode_adj_lsa : Lsa N F D → List (Adjacent N F D) → B
  unfolding encode_base encode_adjacent
  encode_adj_lsa l adjacents = tlv.nested 131 (encode_base l ∷ map encode_adjacent adjacents)

  unfoldable pub encode_name_lsa : Lsa N F D → List N → B
  unfolding encode_base
  encode_name_lsa l names = tlv.nested 137 (encode_base l ∷ map tlv.name_block names)

  unfoldable pub encode_coordinate_lsa : Lsa N F D → D → List D → B
  unfolding encode_base
  encode_coordinate_lsa l r angles =
      tlv.nested 133 (encode_base l ∷ tlv.double_block 135 r ∷ map (tlv.double_block 136) angles)

  unfoldable pub encode_lsa : Lsa N F D → B
  unfolding encode_adj_lsa encode_name_lsa encode_coordinate_lsa
  encode_lsa l = encoded l.body
    where
      encoded : Body N F D → B
      encoded (adj_body adjacents) = encode_adj_lsa l adjacents
      encoded (name_body names) = encode_name_lsa l names
      encoded (cor_body r angles) = encode_coordinate_lsa l r angles

  abbrev pub received : N × ℕ × ℕ → Body N F D → Lsa N F D
  received (origin, number, time) body = record {
    origin_router = origin;
    seq_no = number;
    expiration_time_point = time;
    body = body;
  }

  module _ ⦃n : Eq N⦄ ⦃no : Ord N⦄ ⦃f : Eq F⦄ ⦃d : Double D⦄ where
    unfoldable pub decode_adj_lsa : B → Decoded (Lsa N F D)
    unfolding open_block take_field take_all decode_base decode_adjacent
    decode_adj_lsa b = and_then (open_block 131 b) (λ bs.
        and_then (take_field 128 decode_base bs) (λ base.
          and_then (take_all 132 wrong_type decode_adjacent base.1)
            (λ l. ok (received base.0 (adj_body (add_adjacents l []))))))

    unfoldable pub decode_name_lsa : B → Decoded (Lsa N F D)
    unfolding open_block take_field take_all decode_base
    decode_name_lsa b = and_then (open_block 137 b) (λ bs.
        and_then (take_field 128 decode_base bs) (λ base.
          and_then (take_all tlv.name_type wrong_type decode_name base.1)
            (λ l. ok (received base.0 (name_body (insert_each less l []))))))

  unfoldable pub decode_coordinate_lsa : B → Decoded (Lsa N F D)
  unfolding open_block take_field take_all decode_base
  decode_coordinate_lsa b = and_then (open_block 133 b) (λ bs.
      and_then (take_field 128 decode_base bs) (λ base.
        and_then (take_field 135 decode_double base.1) (λ radius.
          and_then (take_all 136 (λ t. missing 136) decode_double radius.1)
            (λ l. ok (received base.0 (cor_body radius.0 l))))))
