-- ===== src/Net/L4/Six.antt =====
-- The checksums of libs/app_utils/src/net.c over IPv6.
use linux_dev_framework.Base.{
  ltb, ◌==◌, ==_iff, Bool-cases, tests, ℕ, ◌+◌, ◌*◌, ◌/◌, ◌≤◌, ◌<◌, ◌≡◌, sym, ap, ap₂, ◌∙◌, subst,
  fun_ext, inl, inr, false, not, some, arith,
}
use linux_dev_framework.Net.Memory.{
  Mem, IsBytes, load16, store16, swap16, load16-store16, store16-IsBytes, store16_twice,
  store16_back,
}
use linux_dev_framework.Net.Checksum.{add_words, fold, complement}
use linux_dev_framework.Net.Checksum.Words.{sum_verifies, store16_other}
use linux_dev_framework.Net.Ip.{ip6_data, ip6_data_len, ip6_nexthdr}
use linux_dev_framework.Net.L4.{
  pseudo_hdr6, check_offset6, sum6, checksum6_at, tcp_udp_checksum6, update_check6, checksum_wrong6,
}

-- The packet passes a receiver's test.
abbrev pub Verifies6 : Mem → ℕ → Type 0
Verifies6 m ip6h = fold (sum6 m m ip6h) ≡ 65535

module _ (m : Mem) (ip6h at v : ℕ) (far : ip6h + 40 ≤ at) where
  low6 : (y : ℕ) → y < ip6h + 40 → store16 m at v y ≡ m y
  low6 y h = store16_other m at v y (omega arith) (omega arith)

  len6_same : ip6_data_len (store16 m at v) ip6h ≡ ip6_data_len m ip6h
  len6_same =
      ap₂ (λ a b. swap16 (a + 256 * b)) (low6 (ip6h + 4) (omega arith))
        (low6 (ip6h + 4 + 1) (omega arith))

  nexthdr_same : ip6_nexthdr (store16 m at v) ip6h ≡ ip6_nexthdr m ip6h
  nexthdr_same = low6 (ip6h + 6) (omega arith)

  pseudo6_same : pseudo_hdr6 (store16 m at v) ip6h ≡ pseudo_hdr6 m ip6h
  pseudo6_same = fun_ext (λ x. elim (Bool-cases (ltb x 32)) [
    | inl addr ↦ rw addr (low6 (ip6h + 8 + x) (omega (tests, addr)))
    | inr rest ↦ rw (rest, len6_same, nexthdr_same)
  ])

-- The check of a packet whose field is at `offset`.
abbrev pub check6 : Mem → (ip6h offset : ℕ) → ℕ
check6 m ip6h offset = complement (fold (sum6 m (store16 m (ip6_data ip6h + offset) 0) ip6h))

module _ (m : Mem) (ip6h offset : ℕ) (b : IsBytes m)
    (known : check_offset6 (ip6_nexthdr m ip6h) ≡ some offset) where
  abbrev at6 : ℕ
  at6 = ip6_data ip6h + offset

  far6 : ip6h + 40 ≤ at6
  far6 = omega arith

  checksum6-eq : tcp_udp_checksum6 m ip6h ≡ (check6 m ip6h offset, m)
  unfolding tcp_udp_checksum6
  checksum6-eq =
      ap (checksum6_at m ip6h) known
      ∙ ap (λ (n : Mem). (check6 m ip6h offset, n)) (store16_back m at6 0 b)

  update_check6-eq : update_check6 offset m ip6h ≡ store16 m at6 (check6 m ip6h offset)
  update_check6-eq = ap (λ (r : ℕ × Mem). store16 r.1 at6 r.0) checksum6-eq

  check6-updated : (v : ℕ) → check6 (store16 m at6 v) ip6h offset ≡ check6 m ip6h offset
  check6-updated v =
      ap₂
        (λ (n p : Mem).
          complement
            (fold (add_words n (ip6_data ip6h) (ip6_data_len n ip6h) (add_words p 0 36 0))))
        (store16_twice m at6 v 0) (pseudo6_same m ip6h at6 v far6)

-- After the update function of its protocol an IPv6 packet that holds its check field passes a
-- receiver's test. The offset is that of TCP, UDP or ICMPv6.
pub update_check6-Verifies6 :
    (m : Mem) (ip6h offset : ℕ)
    → IsBytes m
    → check_offset6 (ip6_nexthdr m ip6h) ≡ some offset
    → offset + 2 ≤ ip6_data_len m ip6h
    → Verifies6 (update_check6 offset m ip6h) ip6h
update_check6-Verifies6 m ip6h offset b known fits =
    let at : ℕ = ip6_data ip6h + offset in
    let len : ℕ = ip6_data_len m ip6h in
    let start : ℕ = add_words (pseudo_hdr6 m ip6h) 0 36 0 in
    let v : ℕ = complement (fold (add_words (store16 m at 0) (ip6_data ip6h) len start)) in
    let far : ip6h + 40 ≤ at = omega arith in
    let even : offset / 2 * 2 ≡ offset = ground arith in
    let value : check6 m ip6h offset ≡ v =
      ap (λ k. complement (fold (add_words (store16 m at 0) (ip6_data ip6h) k start)))
        (len6_same m ip6h at 0 far) in
    subst (λ n. Verifies6 n ip6h) (sym (update_check6-eq m ip6h offset b known))
      (subst (λ w. Verifies6 (store16 m at w) ip6h) (sym value)
        (rw (len6_same m ip6h at v far, pseudo6_same m ip6h at v far)
          (sum_verifies m (ip6_data ip6h) len (offset / 2) at start b (omega arith) (omega arith))))

-- After the update the function that tests the checksum says no and leaves the packet as it was.
pub checksum_wrong6-update :
    (m : Mem) (ip6h offset : ℕ)
    → IsBytes m
    → check_offset6 (ip6_nexthdr m ip6h) ≡ some offset
    → checksum_wrong6 offset (update_check6 offset m ip6h) ip6h
      ≡ (false, update_check6 offset m ip6h)
checksum_wrong6-update m ip6h offset b known =
    let at : ℕ = ip6_data ip6h + offset in
    let v : ℕ = check6 m ip6h offset in
    let far : ip6h + 40 ≤ at = omega arith in
    let n : Mem = store16 m at v in
    let known' : check_offset6 (ip6_nexthdr n ip6h) ≡ some offset =
      ap check_offset6 (nexthdr_same m ip6h at v far) ∙ known in
    let stable : load16 n at ≡ check6 n ip6h offset =
      load16-store16 m at v (omega arith) ∙ sym (check6-updated m ip6h offset b known v) in
    rw (update_check6-eq m ip6h offset b known) (
      ap (λ (r : ℕ × Mem). (not (load16 r.1 at == r.0), r.1))
        (checksum6-eq n ip6h offset (store16-IsBytes m at v b) known')
      ∙ ap (λ t. (not t, n)) ((==_iff _ _).1 stable))
