-- ===== src/Snmp/EncodePdu/Mapping.antt =====
-- The PDUs that TnmSnmpEncode of tnm/snmp/tnmSnmpSend.c sends on a SNMPv1 session.
use tkined_remix.Prelude.{
  ℕ, ◌^◌, ◌≤◌, ◌⊎◌, ltb, false, ◌≡◌, ◌≢◌, refl, ap, ◌∙◌, arith, ◌==◌, ◌||◌, Bool-cases, inl, inr,
}
use tkined_remix.Snmp.EncodePdu.{OutPdu, status_v1, without_bulk, with_trap1, pdu_v1}

-- At most genErr as a signed int; the bit patterns from 2 ^ 31 on are negative.
abbrev pub IsOld : ℕ → Type 0
IsOld s = (s ≤ 5) ⊎ (2 ^ 31 ≤ s)

-- No get-bulk, no inform and no SNMPv2 trap, and no error status above genErr.
pub record IsV1 (pdu : OutPdu) : Type 0 where
  pub no_bulk : pdu.kind ≢ 0xa5
  pub no_inform : pdu.kind ≢ 0xa6
  pub no_trap2 : pdu.kind ≢ 0xa7
  pub old_status : IsOld pdu.error_status

status_v1-IsOld : (s : ℕ) → IsOld (status_v1 s)
unfolding status_v1
status_v1-IsOld s = elim (Bool-cases (ltb s (2 ^ 31))) [
  | inl small ↦ inl (ground arith)
  | inr negative ↦ rw (negative) (inr (ground arith))
]

status_v1-same : (s : ℕ) → IsOld s → status_v1 s ≡ s
unfolding status_v1
status_v1-same s (inl h) = ground arith
status_v1-same s (inr h) = ground arith

without_bulk-kind :
    (pdu : OutPdu)
    → ((without_bulk pdu).kind ≢ 0xa5)
      × ((without_bulk pdu).request_id ≡ pdu.request_id)
      × ((without_bulk pdu).varbind ≡ pdu.varbind)
unfolding without_bulk
without_bulk-kind pdu = elim (Bool-cases (pdu.kind == 0xa5)) [
  | inl bulk ↦ rw bulk (λ q. absurd (omega arith), refl, refl)
  | inr other ↦ rw other (λ q. absurd (ground arith), refl, refl)
]

with_trap1-kind :
    (pdu : OutPdu)
    → pdu.kind ≢ 0xa5
    → ((with_trap1 pdu).kind ≢ 0xa5)
      × ((with_trap1 pdu).kind ≢ 0xa6)
      × ((with_trap1 pdu).kind ≢ 0xa7)
      × ((with_trap1 pdu).request_id ≡ pdu.request_id)
      × ((with_trap1 pdu).varbind ≡ pdu.varbind)
unfolding with_trap1
with_trap1-kind pdu h = elim (Bool-cases (pdu.kind == 0xa6 || pdu.kind == 0xa7)) [
  | inl trap ↦
      rw trap (
        λ q. absurd (omega arith),
        λ q. absurd (omega arith),
        λ q. absurd (omega arith),
        refl,
        refl,
      )
  | inr plain ↦ rw plain (h, λ q. absurd (ground arith), λ q. absurd (ground arith), refl, refl)
]

same : (pdu : OutPdu) → IsV1 pdu → with_trap1 (without_bulk pdu) ≡ pdu
unfolding with_trap1 without_bulk
same pdu h =
    let bulk : (pdu.kind == 0xa5) ≡ false = ground (arith, h.no_bulk) in
    let trap : (pdu.kind == 0xa6 || pdu.kind == 0xa7) ≡ false =
      ground (arith, h.no_inform, h.no_trap2) in
    rw bulk (rw trap refl)

with_status : OutPdu → OutPdu
with_status pdu = record pdu { error_status = status_v1 pdu.error_status }

-- For a SNMPv1 session every PDU becomes one that is no get-bulk, inform or SNMPv2 trap and has an
-- error status of at most genErr, as a signed int, with the same request identifier and varbinds; a PDU that is such
-- a one already stays as it is.
pub pdu_v1-IsV1 :
    (pdu : OutPdu)
    → IsV1 (pdu_v1 pdu)
      × ((pdu_v1 pdu).request_id ≡ pdu.request_id)
      × ((pdu_v1 pdu).varbind ≡ pdu.varbind)
      × (IsV1 pdu → pdu_v1 pdu ≡ pdu)
unfolding pdu_v1 with_status
pdu_v1-IsV1 pdu =
    let (k, i, v) = without_bulk-kind pdu in
    let (b, c, d, j, w) = with_trap1-kind (without_bulk pdu) k in
    (
      record {
        no_bulk = b;
        no_inform = c;
        no_trap2 = d;
        old_status = status_v1-IsOld (with_trap1 (without_bulk pdu)).error_status;
      },
      j ∙ i,
      w ∙ v,
      λ h.
          ap with_status (same pdu h)
          ∙ ap (λ s. record pdu { error_status = s })
              (status_v1-same pdu.error_status h.old_status),
    )
