-- ===== src/PeerServer/Steps.antt =====
-- The rounds of simple_apps/p2p_server.c against a server that has one list of requests.
use linux_dev_framework.Base.{
  ltb, leb, ◌==◌, if◌then◌else◌, Bool-cases, length, all, length-append, ℕ, ◌-◌, ◌≤◌, ◌<◌, ◌≡◌,
  refl, sym, ap, ap₂, ◌∙◌, subst, inl, inr, Bool, not, Option, none, some, List, [], ◌∷◌, ◌++◌,
  arith,
}
use linux_dev_framework.PeerServer.{
  ConnReq, Server, req_equal, req_match, first_of, find_req, find_match_req, unlink, delete_req,
  release_req, add_req, release_first, release_oldest_req, Message, Reply, make_room, conn_of,
  answer, main_step, main_loop, hash_index,
}
use linux_dev_framework.PeerServer.Lists.{
  Free, Distinct, Within, first_of-Within, Free-keep, Free-unlink, length-unlink,
}
use linux_dev_framework.PeerServer.Table.{
  IsTable, find_req-first_of, find_match_req-first_of, delete_req-IsTable, add_req-IsTable,
}

-- The oldest of 256 requests leaves.
abbrev drop_oldest : List ConnReq → List ConnReq
drop_oldest [] = []
drop_oldest (c ∷ l) = unlink c.buffer (c ∷ l)

-- What is known to a server with one list, in the order in which the users last asked.
abbrev spec_room : Message → Option ConnReq → List ConnReq → ℕ × List ConnReq
spec_room m none l = (m.buffer, if leb 256 (length l) then drop_oldest l else l)
spec_room m (some c) l = (c.buffer, unlink c.buffer l)

abbrev spec_answer : Message → Option ConnReq → List ConnReq → List ConnReq × Reply
spec_answer m none l = (l, Reply.dst_offline)
spec_answer m (some x) l =
    if ltb 60 (m.now - x.timestamp)
    then (unlink x.buffer l, Reply.dst_offline)
    else (l, Reply.ok x.sockaddr_src)

abbrev pub spec_step : Message → List ConnReq → List ConnReq × Reply
spec_step m l =
    let (b, room) = spec_room m (first_of (λ c. req_equal c.req m.conn_req) l) l in
    let added = room ++ conn_of m b ∷ [] in
    spec_answer m (first_of (λ c. req_match c.req m.conn_req) added) added

-- A table of at most 256 requests.
pub record Sound (s : Server) : Type 0 where
  pub table : IsTable s
  pub bounded : length s.all_reqs ≤ 256

-- A step of the server is the step on the list, and the table is sound behind it.
abbrev pub Agrees : Server × Reply → List ConnReq × Reply → Type 0
Agrees (s, r) (l, q) = Sound s × (s.all_reqs ≡ l) × (r ≡ q)

answer-Agrees :
    (m : Message) (o : Option ConnReq) (s : Server)
    → Sound s
    → ((c : ConnReq) → o ≡ some c → Within c s.all_reqs)
    → Agrees (answer m o s) (spec_answer m o s.all_reqs)
unfolding release_req delete_req
answer-Agrees m none s h i = (h, refl, refl)
answer-Agrees m (some x) s h i = elim (Bool-cases (ltb 60 (m.now - x.timestamp))) [
  | inl old ↦ rw old (
    record {
      table = delete_req-IsTable x s h.table (i x refl);
      bounded = omega (arith, h.bounded, length-unlink x s.all_reqs h.table.distinct (i x refl));
    },
    refl,
    refl,
  )
  | inr young ↦ rw young (h, refl, refl)
]

-- Room has been made for one more, in the buffer.
abbrev Roomy : ℕ × Server → ℕ × List ConnReq → Type 0
Roomy (b, s) (d, l) = IsTable s × (s.all_reqs ≡ l) × (length l < 256) × Free b s.all_reqs × (b ≡ d)

oldest :
    (m : Message) (l : List ConnReq) (s : Server)
    → s.all_reqs ≡ l
    → IsTable s
    → 0 < length l
    → length l ≤ 256
    → Free m.buffer l
    → Roomy (m.buffer, release_first l s) (m.buffer, drop_oldest l)
unfolding release_req delete_req
oldest m [] s e t some_req few free = absurd (omega (arith, some_req))
oldest m (c ∷ l) s e t some_req few free = (
  delete_req-IsTable c s t (subst (Within c) (sym e) (inl refl)),
  ap (unlink c.buffer) e,
  omega (arith, few, length-unlink c (c ∷ l) (subst Distinct e t.distinct) (inl refl)),
  Free-keep m.buffer (λ x. not (x.buffer == c.buffer)) s.all_reqs
      (subst (Free m.buffer) (sym e) free),
  refl,
)

make_room-Roomy :
    (m : Message) (o : Option ConnReq) (s : Server)
    → Sound s
    → (o ≡ none → Free m.buffer s.all_reqs)
    → ((c : ConnReq) → o ≡ some c → Within c s.all_reqs)
    → Roomy (make_room m o s) (spec_room m o s.all_reqs)
unfolding delete_req release_oldest_req
make_room-Roomy m none s h free i =
    subst
      (λ k.
        Roomy (m.buffer, if leb 256 k then release_first s.all_reqs s else s)
          (m.buffer, if leb 256 (length s.all_reqs) then drop_oldest s.all_reqs else s.all_reqs))
      (sym h.table.counted)
      (elim (Bool-cases (leb 256 (length s.all_reqs))) [
        | inl full ↦
            let some_req : 0 < length s.all_reqs = ground (arith, full) in
            rw full (oldest m s.all_reqs s refl h.table some_req h.bounded (free refl))
        | inr room ↦
            let below : length s.all_reqs < 256 = ground (arith, room) in
            rw room (h.table, refl, below, free refl, refl)
      ])
make_room-Roomy m (some c) s h free i = (
  delete_req-IsTable c s h.table (i c refl),
  refl,
  omega (arith, h.bounded, length-unlink c s.all_reqs h.table.distinct (i c refl)),
  Free-unlink c.buffer s.all_reqs,
  refl,
)

-- What a message makes of the server when there is room.
added-Agrees :
    (m : Message) (b : ℕ × Server) (d : ℕ × List ConnReq)
    → Roomy b d
    → Agrees
        (answer m
          (find_match_req m.conn_req (add_req (conn_of m b.0) b.1))
          (add_req (conn_of m b.0) b.1))
        (spec_answer m
          (first_of (λ c. req_match c.req m.conn_req) (d.1 ++ conn_of m d.0 ∷ []))
          (d.1 ++ conn_of m d.0 ∷ []))
unfolding add_req
added-Agrees m (b, s) (d, l) (t, e, room, free, same) =
    let c = conn_of m b in
    let s' = add_req c s in
    let t' = add_req-IsTable c s t free in
    let o = first_of (λ x. req_match x.req m.conn_req) (s.all_reqs ++ c ∷ []) in
    let found : find_match_req m.conn_req s' ≡ o = find_match_req-first_of m.conn_req s' t' in
    let sound : Sound s' = record {
      table = t';
      bounded = omega (arith, room, ap length e, length-append s.all_reqs (c ∷ []));
    } in
    subst
      (λ x.
        Agrees (answer m (find_match_req m.conn_req s') s')
          (spec_answer m (first_of (λ y. req_match y.req m.conn_req) x) x))
      (ap₂ (λ x y. x ++ conn_of m y ∷ []) e same)
      (subst (λ x. Agrees (answer m x s') (spec_answer m o (s.all_reqs ++ c ∷ []))) (sym found)
        (answer-Agrees m o s' sound (λ x y.
          (first_of-Within (λ z. req_match z.req m.conn_req) (s.all_reqs ++ c ∷ []) x y).0)))

-- The buffer that a message would get is free when its request is new.
abbrev pub FreshFor : Message → Server → Type 0
FreshFor m s = find_req m.conn_req s ≡ none → Free m.buffer s.all_reqs

-- On a sound table a round of the main loop does what it does on one list of requests: it finds a
-- request of the same two users and puts it last, or drops the oldest of 256 for a new one; then it
-- answers with the address of the first request that matches, unless that is more than 60 s older,
-- which drops it, or there is none. The table stays sound: the lists by hash agree with the list of
-- all, the count is right, and there are at most 256 requests.
pub main_step-Agrees :
    (m : Message) (s : Server)
    → Sound s
    → FreshFor m s
    → Agrees (main_step m s) (spec_step m s.all_reqs)
unfolding main_step
main_step-Agrees m s h fresh =
    let p : ConnReq → Bool = λ c. req_equal c.req m.conn_req in
    let e : find_req m.conn_req s ≡ first_of p s.all_reqs =
      find_req-first_of m.conn_req s h.table in
    added-Agrees m (make_room m (find_req m.conn_req s) s)
      (spec_room m (first_of p s.all_reqs) s.all_reqs)
      (subst (λ o. Roomy (make_room m o s) (spec_room m (first_of p s.all_reqs) s.all_reqs)) (sym e)
        (make_room-Roomy m (first_of p s.all_reqs) s h (λ n. fresh (e ∙ n))
          (λ c y. (first_of-Within p s.all_reqs c y).0)))

-- The spec on all messages.
abbrev pub spec_loop : List Message → List ConnReq → List ConnReq × List Reply
spec_loop [] l = (l, [])
spec_loop (m ∷ ms) l =
    let rest = spec_loop ms (spec_step m l).0 in (rest.0, (spec_step m l).1 ∷ rest.1)

-- Each message of a run that needs a buffer gets a free one.
abbrev pub Fresh : List Message → Server → Type 0
Fresh [] s = Unit
Fresh (m ∷ ms) s = FreshFor m s × Fresh ms (main_step m s).0

-- For any sequence of messages, from a sound table and with free buffers for new requests, the server
-- gives the replies of a server that keeps one list of at most 256 requests, in the order in which the
-- users last asked, and looks through all of it. Its own lists stay sound and hold the same requests.
pub main_loop-Agrees :
    (ms : List Message) (s : Server)
    → Sound s
    → Fresh ms s
    → Sound (main_loop ms s).0
      × ((main_loop ms s).0.all_reqs ≡ (spec_loop ms s.all_reqs).0)
      × ((main_loop ms s).1 ≡ (spec_loop ms s.all_reqs).1)
unfolding main_loop
main_loop-Agrees [] s h f = (h, refl, refl)
main_loop-Agrees (m ∷ ms) s h (f, fs) =
    let (sound, all, reply) = main_step-Agrees m s h f in
    let (sound', all', replies) = main_loop-Agrees ms (main_step m s).0 sound fs in
    (
      sound',
      all' ∙ ap (λ l. (spec_loop ms l).0) all,
      ap₂ (λ r rs. r ∷ rs) reply (replies ∙ ap (λ l. (spec_loop ms l).1) all),
    )

-- `hash_reqs` has an entry for every name.
pub hash_index_bound : (usr_name : List ℕ) → hash_index usr_name < 256
unfolding hash_index
hash_index_bound name = omega arith
