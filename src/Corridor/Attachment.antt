-- ===== src/Corridor/Attachment.antt =====
-- corridor.cpp: what this router advertises without being asked: its neighbours that serve a
-- prefix, and its own prefixes.
use nlsr.Lsa.{adjacency_lsa, name_lsa, Lsa, get_type, type_eq, adl, npl}
use nlsr.Corridor.{AdvertisementKey, Corridor, key_eq, key_ord}
use nlsr.Prelude.Sets.{set_insert}
use nlsr.Corridor.Advertise.{advertise}
use nlsr.Lsdb.{Config, Lsdb, find_lsa}
use nlsr.Adjacency.{is_active, Adjacent, is_neighbor}
use nlsr.Corridor.Events.{query_service_branches}
use nlsr.Prelude.{
  Eq, ◌==◌, Ord, nat_eq, ltb, nat_beq, if◌then◌else◌, ℕ, Bool, not, ◌&&◌, Option, none, some, List,
  [], ◌∷◌,
}

module _ {N F D : Type 0} where
  unfoldable pub get_active_adjacency_faces : List (Adjacent N F D) → List ℕ
  unfolding set_insert
  get_active_adjacency_faces [] = []
  get_active_adjacency_faces (a ∷ l) =
      let rest = get_active_adjacency_faces l in
      if is_active a.status && not (nat_beq a.face_id 0)
      then set_insert ltb a.face_id rest
      else rest

module _ {N F D : Type 0} ⦃n : Eq N⦄ (conf : Config N F D) where
  -- Both adjacency LSAs, this router's first, name the other router.
  unfoldable pub is_attached : N → Lsa N F D → Lsa N F D → Bool
  unfolding is_neighbor
  is_attached origin self_adj remote_adj =
      is_neighbor (adl remote_adj.body) conf.this_router_prefix
      && is_neighbor (adl self_adj.body) origin

module _ {N F D C : Type 0} ⦃n : Eq N⦄ ⦃no : Ord N⦄ (conf : Config N F D) where
  -- The loop over the names of an attached producer, with the numbers of both adjacency LSAs.
  unfoldable pub advertise_attachment : N → ℕ → ℕ → List ℕ → List N → Corridor N C → Corridor N C
  unfolding advertise
  advertise_attachment origin remote_seq self_seq faces [] c = c
  advertise_attachment origin remote_seq self_seq faces (prefix ∷ prefixes) c =
      let remote : AdvertisementKey N = record {
        origin = origin;
        type = adjacency_lsa;
        prefix = prefix;
      } in
      let own : AdvertisementKey N = record {
        origin = conf.this_router_prefix;
        type = adjacency_lsa;
        prefix = prefix;
      } in
      advertise_attachment origin remote_seq self_seq faces prefixes (
        query_service_branches prefix
          (advertise own self_seq faces (advertise remote remote_seq faces c)))

  unfoldable pub attach_origin :
      Lsa N F D → Lsa N F D → Option (Lsa N F D) → Corridor N C → Corridor N C
  unfolding advertise_attachment get_active_adjacency_faces
  attach_origin self_adj l none c = c
  attach_origin self_adj l (some remote_adj) c =
      if is_attached conf l.origin_router self_adj remote_adj
      then advertise_attachment l.origin_router remote_adj.seq_no self_adj.seq_no
          (get_active_adjacency_faces conf.adjacency_list) (npl l.body) c
      else c

module _ {N F D C : Type 0} ⦃n : Eq N⦄ ⦃no : Ord N⦄ (conf : Config N F D) (db : Lsdb N F D) where
  -- The loop over the name LSAs of the database, given this router's adjacency LSA.
  unfoldable pub attach_all : Lsa N F D → List (Lsa N F D) → Corridor N C → Corridor N C
  unfolding attach_origin find_lsa
  attach_all self_adj [] c = c
  attach_all self_adj (l ∷ lsas) c =
      let skipped = attach_all self_adj lsas c in
      let attached =
        attach_all self_adj lsas
          (attach_origin conf self_adj l (find_lsa db l.origin_router adjacency_lsa) c) in
      if type_eq (get_type l) name_lsa && not (l.origin_router == conf.this_router_prefix)
      then attached
      else skipped

  unfoldable pub attach_self : Option (Lsa N F D) → Corridor N C → Corridor N C
  unfolding attach_all
  attach_self none c = c
  attach_self (some self_adj) c = attach_all self_adj db.lsdb c

  unfoldable pub maybe_advertise_service_attachment : Corridor N C → Corridor N C
  unfolding attach_self find_lsa
  maybe_advertise_service_attachment c =
      attach_self (find_lsa db conf.this_router_prefix adjacency_lsa) c

  -- For every prefix of this router's name LSA.
  unfoldable pub advertise_own_names : ℕ → List ℕ → List N → Corridor N C → Corridor N C
  unfolding advertise
  advertise_own_names seq faces [] c = c
  advertise_own_names seq faces (prefix ∷ prefixes) c =
      let own : AdvertisementKey N = record {
        origin = conf.this_router_prefix;
        type = adjacency_lsa;
        prefix = prefix;
      } in
      advertise_own_names seq faces prefixes (advertise own seq faces c)

  unfoldable pub own_first_hop :
      Option (Lsa N F D) → Option (Lsa N F D) → Corridor N C → Corridor N C
  unfolding advertise_own_names get_active_adjacency_faces
  own_first_hop none _ c = c
  own_first_hop (some own_adj) none c = c
  own_first_hop (some own_adj) (some own_name) c =
      advertise_own_names own_adj.seq_no (get_active_adjacency_faces conf.adjacency_list)
        (npl own_name.body) c

  unfoldable pub advertise_own_adj_first_hop : Corridor N C → Corridor N C
  unfolding own_first_hop find_lsa
  advertise_own_adj_first_hop c =
      own_first_hop (find_lsa db conf.this_router_prefix adjacency_lsa)
        (find_lsa db conf.this_router_prefix name_lsa) c
