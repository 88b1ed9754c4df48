-- ===== src/PeerServer.antt =====
-- The server that brings two users together, simple_apps/p2p_server.c: its table of requests and its
-- answer to each of them.
pub mod Lists
pub mod Table
pub mod Steps
mod Tests
use linux_dev_framework.Base.{
  ltb, leb, ◌==◌, if◌then◌else◌, ltb→lt, lt→ltb, leb→le, ==_iff, ==_refl, Bool-cases, Option-cases,
  ◌>>=◌, some_inj, tests, length, get_elem?, get_or, set, take, drop, replicate, all, length-append,
  length-set, get_elem?-set_self, get_elem?-set_ne, get_elem?-lt, take-append-drop, take-length,
  length-take, length-drop, length-replicate, get_elem?-none, get_elem?-append_left,
  get_elem?-append_right, get_elem?-replicate, chars, token, strtok, Free, token-word, token-last,
  strtok-last, strtok-word, strchr, strrchr, strchr-first, strchr-none, Free-append, strrchr-end,
  digits, decimal, digit?, digit_of, number_from, magnitude, strtol, strtoul16, signed, blank?,
  atoi, number_from-digits, digits-first, strtol-decimal, digits-append, digits-Free, ℕ, zero, suc,
  ◌+◌, ◌-◌, ◌*◌, ◌/◌, ◌%◌, ◌^◌, ◌≤◌, ◌<◌, min, max, ◌≡◌, refl, sym, ap, ap₂, ◌∙◌, subst, fun_ext,
  ◌≢◌, ◌↔◌, ◌⊎◌, inl, inr, Bool, true, false, not, ◌&&◌, ◌||◌, Option, none, some, List, [], ◌∷◌,
  ◌++◌, map, append_assoc, append-nil, arith,
}
use linux_dev_framework.StringUtils.{streq}

-- `t_P2P_CONN_REQ`, with the texts in its arrays.
pub record Request : Type 0 where
  pub usr_src : List ℕ
  pub usr_dst : List ℕ
  pub pass_word : List ℕ

-- An address and a port.
abbrev pub Sockaddr : Type 0
Sockaddr = List ℕ × ℕ

-- A request in the table, with the buffer that it stands in.
pub record ConnReq : Type 0 where
  pub buffer : ℕ
  pub timestamp : ℕ
  pub req : Request
  pub sockaddr_src : Sockaddr

-- The lists of the server, in the order of their links, and the number of requests.
pub record Server : Type 0 where
  pub req_num : ℕ
  pub all_reqs : List ConnReq
  pub hash_reqs : ℕ → List ConnReq

abbrev pub max_req_num : ℕ
max_req_num = 256

abbrev pub gap : ℕ
gap = 60

unfoldable pub req_equal : Request → Request → Bool
req_equal a b = streq a.usr_src b.usr_src && streq a.usr_dst b.usr_dst

unfoldable pub req_match : Request → Request → Bool
req_match a b =
    streq a.usr_src b.usr_dst && streq a.usr_dst b.usr_src && streq a.pass_word b.pass_word

-- A signed character as a word of 32 bits.
abbrev pub signed_char : ℕ → ℕ
signed_char c = if ltb c 128 then c else c + 2 ^ 32 - 256

unfoldable pub hash_index : (usr_name : List ℕ) → ℕ
hash_index name = signed_char (get_or name 0 0) * signed_char (get_or name 1 0) % 256

-- The first entry of a list that passes a test.
abbrev pub first_of : (ConnReq → Bool) → List ConnReq → Option ConnReq
first_of p [] = none
first_of p (c ∷ l) = if p c then some c else first_of p l

unfoldable pub find_req : Request → Server → Option ConnReq
find_req r s = first_of (λ c. req_equal c.req r) (s.hash_reqs (hash_index r.usr_src))

unfoldable pub find_match_req : Request → Server → Option ConnReq
find_match_req r s = first_of (λ c. req_match c.req r) (s.hash_reqs (hash_index r.usr_dst))

abbrev pub keep : (ConnReq → Bool) → List ConnReq → List ConnReq
keep p [] = []
keep p (c ∷ l) = if p c then c ∷ keep p l else keep p l

-- `list_del` of the entry in a buffer, in the list that it is linked in.
abbrev pub unlink : (buffer : ℕ) → List ConnReq → List ConnReq
unlink b l = keep (λ c. not (c.buffer == b)) l

unfoldable pub delete_req : ConnReq → Server → Server
delete_req c s = record {
  req_num = s.req_num - 1;
  all_reqs = unlink c.buffer s.all_reqs;
  hash_reqs = λ i. unlink c.buffer (s.hash_reqs i);
}

-- `release_req`; the buffer goes back to the pool.
unfoldable pub release_req : ConnReq → Server → Server
release_req c s = delete_req c s

unfoldable pub add_req : ConnReq → Server → Server
add_req c s = record {
  req_num = s.req_num + 1;
  all_reqs = s.all_reqs ++ c ∷ [];
  hash_reqs = λ i. if i == hash_index c.req.usr_src then s.hash_reqs i ++ c ∷ [] else s.hash_reqs i;
}

abbrev pub release_first : List ConnReq → Server → Server
release_first [] s = s
release_first (c ∷ l) s = release_req c s

unfoldable pub release_oldest_req : Server → Server
release_oldest_req s = release_first s.all_reqs s

-- A message, when it comes and from where, and the buffer that `alloc_buffer` would give.
pub record Message : Type 0 where
  pub conn_req : Request
  pub sockaddr : Sockaddr
  pub now : ℕ
  pub buffer : ℕ

-- The reply that is sent back: the other user is not there, or its address.
pub data Reply : Type 0 where
  dst_offline : Reply
  ok : Sockaddr → Reply

-- The entry that the request is put in, taken out of the lists.
abbrev pub make_room : Message → Option ConnReq → Server → ℕ × Server
make_room m none s = (m.buffer, if leb max_req_num s.req_num then release_oldest_req s else s)
make_room m (some c) s = (c.buffer, delete_req c s)

abbrev pub conn_of : Message → (buffer : ℕ) → ConnReq
conn_of m b = record { buffer = b; timestamp = m.now; req = m.conn_req; sockaddr_src = m.sockaddr }

-- A match that is too old is released.
abbrev pub answer : Message → Option ConnReq → Server → Server × Reply
answer m none s = (s, dst_offline)
answer m (some x) s =
    if ltb gap (m.now - x.timestamp) then (release_req x s, dst_offline) else (s, ok x.sockaddr_src)

-- One round of `main_loop`.
unfoldable pub main_step : Message → Server → Server × Reply
main_step m s =
    let (b, room) = make_room m (find_req m.conn_req s) s in
    let added = add_req (conn_of m b) room in answer m (find_match_req m.conn_req added) added

unfoldable pub main_loop : List Message → Server → Server × List Reply
main_loop [] s = (s, [])
main_loop (m ∷ ms) s =
    let (s', r) = main_step m s in let (s'', rs) = main_loop ms s' in (s'', r ∷ rs)

abbrev pub no_requests : Server
no_requests = record { req_num = 0; all_reqs = []; hash_reqs = λ i. [] }
