-- ===== src/Wire/RoundTrip.antt =====
-- What a decoder makes of an encoded value.
use nlsr.Lsa.Update.{insert_each, add_adjacents}
use nlsr.Wire.{
  WireError, wrong_type, missing, encode_adj_lsa, encode_name_lsa, encode_coordinate_lsa, malformed,
  failed, encode_lsa, decode_adj_lsa, decode_name_lsa, decode_coordinate_lsa, Tlv, Decoded, ok,
  or_malformed, take_field, take_all, open_block, decode_name, decode_double, encode_adjacent,
  received_adjacent, decode_adjacent, encode_next_hop, decode_next_hop, encode_base, decode_base,
}
use nlsr.Adjacency.{Adjacent}
use nlsr.Lsa.{
  LsaType, adjacency_lsa, coordinate_lsa, name_lsa, base_lsa, Body, adj_body, cor_body, name_body,
  type_of_body, get_type, Lsa,
}
use nlsr.Sequencing.{u64_mod}
use nlsr.Route.NextHop.{NextHop}
use nlsr.Prelude.{Eq, Ord, less, Double, ℕ, ◌<◌, ◌≡◌, refl, ap, false, List, [], ◌∷◌, map, arith}

map_itself : {A : Type 0} (xs : List A) → map (λ (x : A). x) xs ≡ xs
map_itself [] = refl
map_itself (x ∷ xs) = ap (λ l. x ∷ l) (map_itself xs)

module _ {B N F D : Type 0} (tlv : Tlv B N F D) (unset : ℕ) where
  open_block-nested : (t : ℕ) (bs : List B) → open_block tlv unset t (tlv.nested t bs) ≡ ok bs
  unfolding open_block
  open_block-nested t bs = ground (arith, tlv.type-nested t bs, tlv.elements-nested t bs)

  take_field-front :
      {A : Type 0} (t : ℕ) (read : B → Decoded A) (b : B) (bs : List B) (x : A)
      → tlv.type_of b ≡ t
      → read b ≡ ok x
      → take_field tlv unset t read (b ∷ bs) ≡ ok (x, bs)
  unfolding take_field
  take_field-front t read b bs x e r = ground arith

  take_all-map :
      {A C : Type 0} (t : ℕ) (other : ℕ → WireError) (read : B → Decoded A) (encode : C → B)
      (as_read : C → A) (cs : List C)
      → ((c : C) → tlv.type_of (encode c) ≡ t)
      → ((c : C) → read (encode c) ≡ ok (as_read c))
      → take_all tlv unset t other read (map encode cs) ≡ ok (map as_read cs)
  unfolding take_all
  take_all-map t other read encode as_read [] e r = refl
  take_all-map t other read encode as_read (c ∷ cs) e r =
      ground (arith, e c, r c, take_all-map t other read encode as_read cs e r)

  -- A neighbour as it is received.
  abbrev pub as_received : Adjacent N F D → Adjacent N F D
  as_received a = received_adjacent tlv unset a.name a.face_uri a.link_cost

  decode-encode_adjacent :
      (a : Adjacent N F D)
      → decode_adjacent tlv unset (encode_adjacent tlv unset a) ≡ ok (as_received a)
  unfolding decode_adjacent encode_adjacent
  decode-encode_adjacent a =
      let price = tlv.double_block 140 a.link_cost in
      let place = tlv.uri_block 141 a.face_uri in
      let name = tlv.name_block a.name in
      rw
        (
          open_block-nested 132 (name ∷ place ∷ price ∷ []),
          take_field-front tlv.name_type (decode_name tlv unset) name (place ∷ price ∷ []) a.name
              (tlv.type-name_block a.name) (ap or_malformed (tlv.read-name_block a.name)),
          take_field-front 141 (λ x. or_malformed (tlv.read_uri x)) place (price ∷ []) a.face_uri
              (tlv.type-uri_block 141 a.face_uri)
              (ap or_malformed (tlv.read-uri_block 141 a.face_uri)),
          take_field-front 140 (decode_double tlv unset) price [] a.link_cost
              (tlv.type-double_block 140 a.link_cost)
              (ap or_malformed (tlv.read-double_block 140 a.link_cost)),
        )
        refl

  -- A next hop is read as it was written, but for the mark of a hyperbolic route.
  pub decode-encode_next_hop :
      (h : NextHop F D)
      → decode_next_hop tlv unset (encode_next_hop tlv unset h)
        ≡ ok (record { uri = h.uri; route_cost = h.route_cost; is_hyperbolic = false })
  unfolding decode_next_hop encode_next_hop
  decode-encode_next_hop h =
      let price = tlv.double_block 134 h.route_cost in
      let place = tlv.uri_block 141 h.uri in
      rw
        (
          open_block-nested 143 (place ∷ price ∷ []),
          take_field-front 141 (λ x. or_malformed (tlv.read_uri x)) place (price ∷ []) h.uri
              (tlv.type-uri_block 141 h.uri) (ap or_malformed (tlv.read-uri_block 141 h.uri)),
          take_field-front 134 (decode_double tlv unset) price [] h.route_cost
              (tlv.type-double_block 134 h.route_cost)
              (ap or_malformed (tlv.read-double_block 134 h.route_cost)),
        )
        refl

  decode-encode_base :
      (l : Lsa N F D)
      → l.seq_no < u64_mod
      → decode_base tlv unset (encode_base tlv unset l)
        ≡ ok (l.origin_router, l.seq_no, tlv.printed l.expiration_time_point)
  unfolding decode_base encode_base
  decode-encode_base l small =
      let name = tlv.name_block l.origin_router in
      let number = tlv.number_block 130 l.seq_no in
      let time = tlv.time_block 139 l.expiration_time_point in
      rw
        (
          tlv.elements-nested 128 (name ∷ number ∷ time ∷ []),
          take_field-front tlv.name_type (decode_name tlv unset) name (number ∷ time ∷ [])
              l.origin_router (tlv.type-name_block l.origin_router)
              (ap or_malformed (tlv.read-name_block l.origin_router)),
          take_field-front 130 (λ x. or_malformed (tlv.read_number x)) number (time ∷ []) l.seq_no
              (tlv.type-number_block 130 l.seq_no)
              (ap or_malformed (tlv.read-number_block 130 l.seq_no small)),
          take_field-front 139 (λ x. or_malformed (tlv.read_time x)) time []
              (tlv.printed l.expiration_time_point)
              (tlv.type-time_block 139 l.expiration_time_point)
              (ap or_malformed (tlv.read-time_block 139 l.expiration_time_point)),
        )
        refl

module _ {B N F D : Type 0} (tlv : Tlv B N F D) (unset : ℕ) ⦃n : Eq N⦄ ⦃no : Ord N⦄ ⦃f : Eq F⦄
    ⦃d : Double D⦄ where
  -- The decoder for an LSA of the type; no LSA has the base type.
  abbrev pub decode_as : LsaType → B → Decoded (Lsa N F D)
  decode_as adjacency_lsa b = decode_adj_lsa tlv unset b
  decode_as coordinate_lsa b = decode_coordinate_lsa tlv unset b
  decode_as name_lsa b = decode_name_lsa tlv unset b
  decode_as base_lsa b = failed malformed

  -- The neighbours without their states, each name once; the names as a set; the coordinates.
  abbrev pub received_body : Body N F D → Body N F D
  received_body (adj_body l) = adj_body (add_adjacents (map (as_received tlv unset) l) [])
  received_body (name_body names) = name_body (insert_each less names [])
  received_body (cor_body r angles) = cor_body r angles

  abbrev pub received_lsa : Lsa N F D → Lsa N F D
  received_lsa l = record l {
    expiration_time_point = tlv.printed l.expiration_time_point;
    body = received_body l.body;
  }

  abbrev base_of : Lsa N F D → N × ℕ × ℕ
  base_of l = (l.origin_router, l.seq_no, tlv.printed l.expiration_time_point)

  take_base :
      (l : Lsa N F D) (bs : List B)
      → l.seq_no < u64_mod
      → take_field tlv unset 128 (decode_base tlv unset) (encode_base tlv unset l ∷ bs)
        ≡ ok (base_of l, bs)
  unfolding encode_base
  take_base l bs small =
      take_field-front tlv unset 128 (decode_base tlv unset) (encode_base tlv unset l) bs
        (base_of l) (tlv.type-nested 128 _) (decode-encode_base tlv unset l small)

  type-encode_adjacent : (a : Adjacent N F D) → tlv.type_of (encode_adjacent tlv unset a) ≡ 132
  unfolding encode_adjacent
  type-encode_adjacent a = tlv.type-nested 132 _

  decode-encode_body :
      (l : Lsa N F D) (b : Body N F D)
      → l.seq_no < u64_mod
      → decode_as (type_of_body b) (encode_lsa tlv unset (record l { body = b }))
        ≡ ok (received_lsa (record l { body = b }))
  unfolding decode_adj_lsa decode_name_lsa decode_coordinate_lsa encode_lsa encode_adj_lsa
      encode_name_lsa encode_coordinate_lsa
  decode-encode_body l (adj_body as_sent) small =
      let whole : Lsa N F D = record l { body = adj_body as_sent } in
      let bs = map (encode_adjacent tlv unset) as_sent in
      rw
        (
          open_block-nested tlv unset 131 (encode_base tlv unset whole ∷ bs),
          take_base whole bs small,
          take_all-map tlv unset 132 wrong_type (decode_adjacent tlv unset)
              (encode_adjacent tlv unset) (as_received tlv unset) as_sent type-encode_adjacent
              (decode-encode_adjacent tlv unset),
        )
        refl
  decode-encode_body l (name_body names) small =
      let whole : Lsa N F D = record l { body = name_body names } in
      let bs = map tlv.name_block names in
      let same : map (λ (x : N). x) names ≡ names = map_itself names in
      rw
        (
          open_block-nested tlv unset 137 (encode_base tlv unset whole ∷ bs),
          take_base whole bs small,
          take_all-map tlv unset tlv.name_type wrong_type (decode_name tlv unset) tlv.name_block
              (λ x. x) names tlv.type-name_block (λ x. ap or_malformed (tlv.read-name_block x)),
          same,
        )
        refl
  decode-encode_body l (cor_body r angles) small =
      let whole : Lsa N F D = record l { body = cor_body r angles } in
      let bs = map (tlv.double_block 136) angles in
      let same : map (λ (x : D). x) angles ≡ angles = map_itself angles in
      rw
        (
          open_block-nested tlv unset 133
              (encode_base tlv unset whole ∷ tlv.double_block 135 r ∷ bs),
          take_base whole (tlv.double_block 135 r ∷ bs) small,
          take_field-front tlv unset 135 (decode_double tlv unset) (tlv.double_block 135 r) bs r
              (tlv.type-double_block 135 r) (ap or_malformed (tlv.read-double_block 135 r)),
          take_all-map tlv unset 136 (λ t. missing 136) (decode_double tlv unset)
              (tlv.double_block 136) (λ x. x) angles (tlv.type-double_block 136)
              (λ x. ap or_malformed (tlv.read-double_block 136 x)),
          same,
        )
        refl

  -- Decoding an encoded LSA of each kind gives it back: the origin, the number and the coordinates as
  -- they were, the names as a set, each neighbour's name once with its face and cost, and the
  -- expiration time as it was printed. The number is a uint64_t.
  pub decode-encode_lsa :
      (l : Lsa N F D)
      → l.seq_no < u64_mod
      → decode_as (get_type l) (encode_lsa tlv unset l) ≡ ok (received_lsa l)
  decode-encode_lsa l small = decode-encode_body l l.body small
