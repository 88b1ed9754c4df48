-- ===== src/PeerServer/Table.antt =====
-- The lists of simple_apps/p2p_server.c by the hash of a user against the list of all requests.
use linux_dev_framework.Base.{
  ◌==◌, if◌then◌else◌, ==_refl, length, length-append, ℕ, ◌≡◌, refl, sym, ap, ◌∙◌, Bool, true,
  false, not, ◌&&◌, List, [], ◌∷◌, ◌++◌, append-nil, arith,
}
use linux_dev_framework.StringUtils.{streq}
use linux_dev_framework.StringUtils.Text.{streq-eq}
use linux_dev_framework.PeerServer.{
  Request, ConnReq, Server, req_equal, req_match, hash_index, first_of, find_req, find_match_req,
  keep, unlink, delete_req, add_req, no_requests,
}
use linux_dev_framework.PeerServer.Lists.{
  Free, Distinct, Within, keep-append, keep-keep, first_of-keep, Distinct-keep, length-unlink,
  Distinct-append,
}

abbrev pub in_hash : ℕ → ConnReq → Bool
in_hash i c = i == hash_index c.req.usr_src

-- The lists of a server agree, and the buffers of the requests are different.
pub record IsTable (s : Server) : Type 0 where
  pub counted : s.req_num ≡ length s.all_reqs
  pub hashed : (i : ℕ) → s.hash_reqs i ≡ keep (in_hash i) s.all_reqs
  pub distinct : Distinct s.all_reqs

pub no_requests-IsTable : IsTable no_requests
no_requests-IsTable = record { counted = refl; hashed = λ i. refl; distinct = tt }

equal_user : (a b : List ℕ) → streq a b ≡ true → hash_index b ≡ hash_index a
equal_user a b h = ap hash_index (sym (streq-eq a b h))

and_left : (a b : Bool) → (a && b) ≡ true → a ≡ true
and_left true b h = refl
and_left false b h = cc

-- The list of its hash is enough to find a request.
pub find_req-first_of :
    (r : Request) (s : Server)
    → IsTable s
    → find_req r s ≡ first_of (λ c. req_equal c.req r) s.all_reqs
unfolding find_req req_equal
find_req-first_of r s t =
    ap (first_of (λ c. req_equal c.req r)) (t.hashed (hash_index r.usr_src))
    ∙ first_of-keep (λ c. req_equal c.req r) (in_hash (hash_index r.usr_src)) s.all_reqs
        (λ c h.
          let e =
            equal_user c.req.usr_src r.usr_src
              (and_left (streq c.req.usr_src r.usr_src) (streq c.req.usr_dst r.usr_dst) h) in
          rw e (==_refl _))

pub find_match_req-first_of :
    (r : Request) (s : Server)
    → IsTable s
    → find_match_req r s ≡ first_of (λ c. req_match c.req r) s.all_reqs
unfolding find_match_req req_match
find_match_req-first_of r s t =
    ap (first_of (λ c. req_match c.req r)) (t.hashed (hash_index r.usr_dst))
    ∙ first_of-keep (λ c. req_match c.req r) (in_hash (hash_index r.usr_dst)) s.all_reqs
        (λ c h.
          let e = equal_user c.req.usr_src r.usr_dst (
            and_left (streq c.req.usr_src r.usr_dst) _
              (and_left (streq c.req.usr_src r.usr_dst && streq c.req.usr_dst r.usr_src) _ h)) in
          rw e (==_refl _))

pub delete_req-IsTable :
    (c : ConnReq) (s : Server) → IsTable s → Within c s.all_reqs → IsTable (delete_req c s)
unfolding delete_req
delete_req-IsTable c s t i = record {
  counted = omega (arith, t.counted, length-unlink c s.all_reqs t.distinct i);
  hashed = λ n.
      ap (unlink c.buffer) (t.hashed n)
      ∙ keep-keep (λ x. not (x.buffer == c.buffer)) (in_hash n) s.all_reqs;
  distinct = Distinct-keep (λ x. not (x.buffer == c.buffer)) s.all_reqs t.distinct;
}

hashed_again :
    (n : ℕ) (b : Bool) (c : ConnReq) (s : Server)
    → in_hash n c ≡ b
    → s.hash_reqs n ≡ keep (in_hash n) s.all_reqs
    → (if b then s.hash_reqs n ++ c ∷ [] else s.hash_reqs n)
      ≡ keep (in_hash n) (s.all_reqs ++ c ∷ [])
hashed_again n true c s e h =
    ap (λ l. l ++ c ∷ []) h
    ∙ ap (λ x. keep (in_hash n) s.all_reqs ++ (if x then c ∷ [] else [])) (sym e)
    ∙ sym (keep-append (in_hash n) s.all_reqs (c ∷ []))
hashed_again n false c s e h =
    h
    ∙ sym (append-nil (keep (in_hash n) s.all_reqs))
    ∙ ap (λ x. keep (in_hash n) s.all_reqs ++ (if x then c ∷ [] else [])) (sym e)
    ∙ sym (keep-append (in_hash n) s.all_reqs (c ∷ []))

pub add_req-IsTable :
    (c : ConnReq) (s : Server) → IsTable s → Free c.buffer s.all_reqs → IsTable (add_req c s)
unfolding add_req
add_req-IsTable c s t f = record {
  counted = omega (arith, t.counted, length-append s.all_reqs (c ∷ []));
  hashed = λ n. hashed_again n (n == hash_index c.req.usr_src) c s refl (t.hashed n);
  distinct = Distinct-append s.all_reqs c t.distinct f;
}
