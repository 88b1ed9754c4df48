-- ===== src/Net/L4/Laws.antt =====
-- The transport checksums of libs/app_utils/src/net.c over IPv4.
use linux_dev_framework.Base.{
  ltb, ◌==◌, ==_iff, Bool-cases, tests, ℕ, ◌+◌, ◌*◌, ◌/◌, ◌%◌, ◌≤◌, ◌<◌, ◌≡◌, refl, sym, ap, ap₂,
  ◌∙◌, fun_ext, ◌≢◌, inl, inr, Bool, false, not, arith,
}
use linux_dev_framework.Net.Memory.{
  Mem, IsBytes, load16, store16, swap16, load16-store16, store16-IsBytes, store16_twice,
  store16_back,
}
use linux_dev_framework.Net.Checksum.{add_words, fold, complement}
use linux_dev_framework.Net.Checksum.Words.{sum_verifies, store16_other}
use linux_dev_framework.Net.Ip.{ip_hdr_len, ip_pkt_len, ip_data, ip_data_len, ip_protocol}
use linux_dev_framework.Net.L4.{
  ipproto_tcp, pseudo_hdr, check_offset, tcp_udp_checksum, tcp_update_check, udp_update_check,
  tcp_checksum_wrong, udp_checksum_wrong,
}

-- A packet's transport data passes a receiver's test, with the pseudo header and without.
abbrev pub SegmentVerifies : Mem → ℕ → Type 0
SegmentVerifies m iph =
    fold (add_words m (ip_data m iph) (ip_data_len m iph) (add_words (pseudo_hdr m iph) 0 12 0))
    ≡ 65535

abbrev pub MessageVerifies : Mem → ℕ → Type 0
MessageVerifies m iph = fold (add_words m (ip_data m iph) (ip_data_len m iph) 0) ≡ 65535

-- A write behind the fixed part of the header changes none of its fields.
module _ (m : Mem) (iph at v : ℕ) (far : iph + 20 ≤ at) where
  pub low : (y : ℕ) → y < iph + 20 → store16 m at v y ≡ m y
  low y h = store16_other m at v y (omega arith) (omega arith)

  pub hdr_len_same : ip_hdr_len (store16 m at v) iph ≡ ip_hdr_len m iph
  hdr_len_same = ap (λ b. b % 16 * 4) (low iph (omega arith))

  pub pkt_len_same : ip_pkt_len (store16 m at v) iph ≡ ip_pkt_len m iph
  pkt_len_same =
      ap₂ (λ a b. swap16 (a + 256 * b)) (low (iph + 2) (omega arith))
        (low (iph + 2 + 1) (omega arith))

  pub protocol_same : ip_protocol (store16 m at v) iph ≡ ip_protocol m iph
  protocol_same = low (iph + 9) (omega arith)

  pub pseudo_same : pseudo_hdr (store16 m at v) iph ≡ pseudo_hdr m iph
  pseudo_same = fun_ext (λ x. elim (Bool-cases (ltb x 8)) [
    | inl addr ↦ rw addr (low (iph + 12 + x) (omega (tests, addr)))
    | inr rest ↦ rw (rest, hdr_len_same, pkt_len_same, protocol_same)
  ])

-- Where the code puts the check of a packet with its header.
abbrev pub check_at : Mem → ℕ → ℕ
check_at m iph = ip_data m iph + check_offset (ip_protocol m iph)

abbrev pub segment_check : Mem → ℕ → ℕ
segment_check m iph = complement (
    fold (
      add_words (store16 m (check_at m iph) 0) (ip_data m iph) (ip_data_len m iph)
        (add_words (pseudo_hdr m iph) 0 12 0)))

module _ (m : Mem) (iph : ℕ) (b : IsBytes m) (whole : 5 ≤ m iph % 16) where
  pub far_check : iph + 20 ≤ check_at m iph
  far_check = ground arith

  -- `tcp_udp_checksum` leaves the packet as it was.
  pub tcp_udp_checksum-eq : tcp_udp_checksum m iph ≡ (segment_check m iph, m)
  unfolding tcp_udp_checksum
  tcp_udp_checksum-eq =
      rw
        (
          hdr_len_same m iph (check_at m iph) 0 far_check,
          pkt_len_same m iph (check_at m iph) 0 far_check,
        )
        (ap (λ (n : Mem). (segment_check m iph, n)) (store16_back m (check_at m iph) 0 b))

  pub updated-SegmentVerifies :
      check_offset (ip_protocol m iph) + 2 ≤ ip_data_len m iph
      → SegmentVerifies (store16 m (check_at m iph) (segment_check m iph)) iph
  updated-SegmentVerifies fits =
      let at : ℕ = check_at m iph in
      let v : ℕ = segment_check m iph in
      let off : ℕ = check_offset (ip_protocol m iph) in
      let even : off / 2 * 2 ≡ off = ground arith in
      rw
        (
          hdr_len_same m iph at v far_check,
          pkt_len_same m iph at v far_check,
          pseudo_same m iph at v far_check,
        )
        (sum_verifies m (ip_data m iph) (ip_data_len m iph) (off / 2) at
          (add_words (pseudo_hdr m iph) 0 12 0) b (omega arith) (omega arith))

  -- The check field does not count for its own value.
  pub segment_check-updated :
      (v : ℕ)
      → (check_at (store16 m (check_at m iph) v) iph ≡ check_at m iph)
        × (segment_check (store16 m (check_at m iph) v) iph ≡ segment_check m iph)
  segment_check-updated v =
      let at : ℕ = check_at m iph in
      rw
        (
          hdr_len_same m iph at v far_check,
          pkt_len_same m iph at v far_check,
          pseudo_same m iph at v far_check,
          protocol_same m iph at v far_check,
          store16_twice m at v 0,
        )
        (refl, refl)

  pub tcp_update_check-eq :
      ip_protocol m iph ≡ ipproto_tcp
      → tcp_update_check m iph ≡ store16 m (check_at m iph) (segment_check m iph)
  unfolding tcp_update_check
  tcp_update_check-eq tcp =
      ap (λ (r : ℕ × Mem). store16 r.1 (ip_data m iph + 16) r.0) tcp_udp_checksum-eq
      ∙ ap (λ o. store16 m (ip_data m iph + o) (segment_check m iph)) (sym (ap check_offset tcp))

  pub udp_update_check-eq :
      ip_protocol m iph ≢ ipproto_tcp
      → udp_update_check m iph ≡ store16 m (check_at m iph) (segment_check m iph)
  unfolding udp_update_check
  udp_update_check-eq other =
      ap (λ (r : ℕ × Mem). store16 r.1 (ip_data m iph + 6) r.0) tcp_udp_checksum-eq
      ∙ ap (λ o. store16 m (ip_data m iph + o) (segment_check m iph)) (ground arith)

-- After `tcp_update_check` a TCP packet with a full IP header and 18 bytes of data or more passes a
-- receiver's test.
pub tcp_update_check-SegmentVerifies :
    (m : Mem) (iph : ℕ)
    → IsBytes m
    → 5 ≤ m iph % 16
    → ip_protocol m iph ≡ 6
    → 18 ≤ ip_data_len m iph
    → SegmentVerifies (tcp_update_check m iph) iph
tcp_update_check-SegmentVerifies m iph b whole tcp fits =
    rw (tcp_update_check-eq m iph b whole tcp) (updated-SegmentVerifies m iph b whole (rw tcp fits))

-- After `udp_update_check` a packet of another protocol with 8 bytes of data or more passes a
-- receiver's test.
pub udp_update_check-SegmentVerifies :
    (m : Mem) (iph : ℕ)
    → IsBytes m
    → 5 ≤ m iph % 16
    → ip_protocol m iph ≢ 6
    → 8 ≤ ip_data_len m iph
    → SegmentVerifies (udp_update_check m iph) iph
udp_update_check-SegmentVerifies m iph b whole other fits =
    rw (udp_update_check-eq m iph b whole other)
      (updated-SegmentVerifies m iph b whole (ground arith))

module _ (m : Mem) (iph : ℕ) (b : IsBytes m) (whole : 5 ≤ m iph % 16) where
  abbrev updated : Mem
  updated = store16 m (check_at m iph) (segment_check m iph)

  updated-whole : 5 ≤ updated iph % 16
  updated-whole =
      rw
        (low m iph (check_at m iph) (segment_check m iph) (far_check m iph b whole) iph
          (omega arith))
        whole

  -- A second computation gives the value that is there.
  updated_stable :
      (o : ℕ)
      → ip_data m iph + o ≡ check_at m iph
      → load16 updated (ip_data updated iph + o) ≡ segment_check updated iph
  updated_stable o e =
      ap (λ k. load16 updated (iph + k + o))
        (hdr_len_same m iph (check_at m iph) (segment_check m iph) (far_check m iph b whole))
      ∙ ap (load16 updated) e
      ∙ load16-store16 m (check_at m iph) (segment_check m iph) (omega arith)
      ∙ sym (segment_check-updated m iph b whole (segment_check m iph)).1

  not_wrong :
      (o : ℕ)
      → ip_data m iph + o ≡ check_at m iph
      → let (check, m') = tcp_udp_checksum updated iph in
        ◌≡◌ {A = Bool × Mem}
          (not (load16 m' (ip_data updated iph + o) == check), m')
          (false, updated)
  not_wrong o e =
      ap (λ (r : ℕ × Mem). (not (load16 r.1 (ip_data updated iph + o) == r.0), r.1))
        (tcp_udp_checksum-eq updated iph
          (store16-IsBytes m (check_at m iph) (segment_check m iph) b) updated-whole)
      ∙ ap (λ v. (not v, updated)) ((==_iff _ _).1 (updated_stable o e))

-- After the update of a TCP packet `tcp_checksum_wrong` says no and leaves the packet as it was.
pub tcp_checksum_wrong-update :
    (m : Mem) (iph : ℕ)
    → IsBytes m
    → 5 ≤ m iph % 16
    → ip_protocol m iph ≡ 6
    → tcp_checksum_wrong (tcp_update_check m iph) iph ≡ (false, tcp_update_check m iph)
unfolding tcp_checksum_wrong
tcp_checksum_wrong-update m iph b whole tcp =
    rw (tcp_update_check-eq m iph b whole tcp) (not_wrong m iph b whole 16 (ground arith))

-- After the update of a packet of another protocol, so does `udp_checksum_wrong`.
pub udp_checksum_wrong-update :
    (m : Mem) (iph : ℕ)
    → IsBytes m
    → 5 ≤ m iph % 16
    → ip_protocol m iph ≢ 6
    → udp_checksum_wrong (udp_update_check m iph) iph ≡ (false, udp_update_check m iph)
unfolding udp_checksum_wrong
udp_checksum_wrong-update m iph b whole other =
    rw (udp_update_check-eq m iph b whole other) (not_wrong m iph b whole 6 (ground arith))
