-- ===== src/Examples/DaemonRun.antt =====
-- The daemon of router 10, with a route calculation that is running, during the sweep.
use nlsr.Hello.{with_neighbors}
use nlsr.Hello.Held.{Moves}
use nlsr.Examples.HelloRun.{sweeping}
use nlsr.Examples.LinkStateRun.{neighbor, own_neighbors, empty_table}
use nlsr.Examples.Values.{nat_ord, Tenths, tenths_double}
use nlsr.Daemon.{DaemonConfig, Daemon, with_hello, on_face_destroyed, process_face_dataset}
use nlsr.Daemon.Faces.{on_face_destroyed-Moves, process_face_dataset-assigned}
use nlsr.Daemon.Certs.{CertNames}
use nlsr.Route.Fib.{register_prefix, set_strategy}
use nlsr.Route.Fib.Retries.{refused, refused-at_most_four}
use nlsr.Prelude.{
  Eq, nat_eq, length, ap2, nat_beq, ℕ, ◌≤◌, ◌≡◌, refl, subst, ◌↔◌, Bool, true, false, ◌&&◌, List,
  [], ◌∷◌, arith,
}

abbrev daemon_config : DaemonConfig ℕ
daemon_config = record {
  lsa_prefix = 1;
  sync_prefix = 2;
  face_dataset_fetch_tries = 2;
  face_dataset_fetch_interval = 3600;
  no_expiration = 1000000;
  route_flag_capture = 2;
}

abbrev running : Daemon ℕ ℕ Tenths
running = record {
  conf = daemon_config;
  hello = record sweeping { routing_table = record empty_table { is_calculating = true } };
  awaiting_new_path_calc = record { origin = 30; barrier = 4 } ∷ [];
  routing_calc_serial = 4;
  log = [];
}

on_face_destroyed-Moves_example : Moves running.hello (on_face_destroyed 50 2 running).hello
on_face_destroyed-Moves_example =
    on_face_destroyed-Moves 50 2 running (record { flag = refl; waits = refl })

abbrev without_faces : Daemon ℕ ℕ Tenths
without_faces =
    with_hello
      (with_neighbors (record (neighbor 20 2 11) { face_id = 0 } ∷ neighbor 30 3 91 ∷ [])
        running.hello)
      running

process_face_dataset-assigned_example :
    (process_face_dataset
      (record { face_id = 7; remote_uri = 2 } ∷ record { face_id = 8; remote_uri = 3 } ∷ [])
      without_faces).hello.conf.adjacency_list
    ≡ record (neighbor 20 2 11) { face_id = 7 } ∷ neighbor 30 3 91 ∷ []
process_face_dataset-assigned_example =
    process_face_dataset-assigned
      (record { face_id = 7; remote_uri = 2 } ∷ record { face_id = 8; remote_uri = 3 } ∷ [])
      without_faces

refused-at_most_four_example :
    (length (refused (λ k. own_neighbors) 2 9 (register_prefix own_neighbors 7 2 11 1000 2 0)) ≤ 4)
    × (length (refused (λ k. own_neighbors) 2 9 (set_strategy 7 5 0)) ≤ 4)
refused-at_most_four_example =
    refused-at_most_four (λ k. own_neighbors) 2 9 own_neighbors 7 5 11 1000 2

abbrev list_beq : List ℕ → List ℕ → Bool
list_beq [] [] = true
list_beq (x ∷ xs) (y ∷ ys) = nat_beq x y && list_beq xs ys
list_beq [] (y ∷ ys) = false
list_beq (x ∷ xs) [] = false

list_beq_sound : (xs ys : List ℕ) → list_beq xs ys ≡ true → xs ≡ ys
list_beq_sound [] [] h = refl
list_beq_sound [] (y ∷ ys) h = cc h
list_beq_sound (x ∷ xs) [] h = cc h
list_beq_sound (x ∷ xs) (y ∷ ys) h =
    let first : x ≡ y = ground arith in
    let rest : list_beq xs ys ≡ true = ground arith in
    ap2 (λ (a : ℕ) (l : List ℕ). a ∷ l) first (list_beq_sound xs ys rest)

list_beq_refl : (xs : List ℕ) → list_beq xs xs ≡ true
list_beq_refl [] = refl
list_beq_refl (x ∷ xs) = ground (arith, list_beq_refl xs)

list_beq_iff : (xs ys : List ℕ) → (list_beq xs ys ≡ true) ↔ (xs ≡ ys)
list_beq_iff xs ys =
    (list_beq_sound xs ys, λ e. subst (λ (l : List ℕ). list_beq xs l ≡ true) e (list_beq_refl xs))

instance abbrev list_has_eq : Eq (List ℕ)
list_has_eq = record { equal = list_beq; equal_iff = list_beq_iff }

abbrev cert_names : CertNames ℕ
cert_names = record {
  key_component = 100;
  nlsr_component = 101;
  operator_component = 102;
  is_router = nat_beq 50;
  best_route_strategy = 103 ∷ [];
}

abbrev told : List (List ℕ)
told = (1 ∷ 50 ∷ 7 ∷ []) ∷ (1 ∷ 50 ∷ 8 ∷ []) ∷ (1 ∷ 50 ∷ 7 ∷ []) ∷ []
