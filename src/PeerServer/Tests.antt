-- ===== src/PeerServer/Tests.antt =====
-- simple_apps/p2p_server.c with two users.
use linux_dev_framework.Base.{ℕ, ◌≡◌, refl, List, [], ◌∷◌, arith}
use linux_dev_framework.PeerServer.{
  Message, Reply, req_equal, req_match, hash_index, find_req, find_match_req, add_req, delete_req,
  release_oldest_req, release_req, main_step, main_loop, no_requests,
}
use linux_dev_framework.PeerServer.Table.{no_requests-IsTable}
use linux_dev_framework.PeerServer.Steps.{Sound, Fresh, spec_loop, main_loop-Agrees}

abbrev asks : (src dst now buffer : ℕ) → Message
asks src dst now buffer = record {
  conn_req = record { usr_src = src ∷ 1 ∷ []; usr_dst = dst ∷ 1 ∷ []; pass_word = 112 ∷ [] };
  sockaddr = (src ∷ [], 80);
  now = now;
  buffer = buffer;
}

abbrev two_users : List Message
two_users = asks 97 98 10 1 ∷ asks 98 97 30 2 ∷ asks 97 98 95 3 ∷ []

no_requests-Sound : Sound no_requests
no_requests-Sound = record { table = no_requests-IsTable; bounded = omega arith }

-- The second finds the first; a minute later the second request is too old.
replies :
    (main_loop two_users no_requests).1
    ≡ Reply.dst_offline ∷ Reply.ok (97 ∷ [], 80) ∷ Reply.dst_offline ∷ []
unfolding main_loop main_step find_req find_match_req req_equal req_match hash_index add_req
    delete_req release_oldest_req release_req
replies = refl

two_users-Fresh : Fresh two_users no_requests
unfolding main_step find_req find_match_req req_equal req_match hash_index add_req delete_req
    release_oldest_req release_req
two_users-Fresh = (λ e. tt, (λ e. (refl, tt), (λ e. (refl, (refl, tt)), tt)))

main_loop-Agrees_example :
    Sound (main_loop two_users no_requests).0
    × ((main_loop two_users no_requests).0.all_reqs ≡ (spec_loop two_users []).0)
    × ((main_loop two_users no_requests).1 ≡ (spec_loop two_users []).1)
main_loop-Agrees_example = main_loop-Agrees two_users no_requests no_requests-Sound two_users-Fresh
