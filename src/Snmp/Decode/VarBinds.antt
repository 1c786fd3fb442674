-- ===== src/Snmp/Decode/VarBinds.antt =====
-- What DecodePDU of tnm/snmp/tnmSnmpRecv.c reads of a varbind that is encoded by the rules of BER.
use tkined_remix.Prelude.{
  ℕ, zero, suc, ◌+◌, ◌-◌, ◌*◌, ◌^◌, ◌<◌, ◌≤◌, List, [], ◌∷◌, ◌++◌, ◌≡◌, ◌⊎◌, refl, sym, ap, ◌∙◌,
  arith, length, length-append, append_assoc, append-nil, le→leb, gt→leb, take, take-append_length,
  split_at, All, eq→==,
}
use tkined_remix.Ber.Stream.{dec_done, M, Message, ok, dec_peek, ◌>>=◌}
use tkined_remix.Ber.At.{at, dec_peek-at}
use tkined_remix.Ber.Integer.Encode.{int_encoding, int_size}
use tkined_remix.Ber.Integer.RoundTrip.{int_seen}
use tkined_remix.Ber.Octets.{dec_null}
use tkined_remix.Ber.Octets.RoundTrip.{octets_encoding, dec_null-enc_null}
use tkined_remix.Ber.Oid.{dec_oid, max_size}
use tkined_remix.Ber.Oid.Encode.{packed_encoding, IsSubid}
use tkined_remix.Ber.Oid.RoundTrip.{dec_oid-packed}
use tkined_remix.Ber.Frames.{
  framed, Reads, ReadsAnywhere, anywhere, pure-Reads, >>=-Reads, >>=-last, closing, dec_int-Reads,
  dec_integer-Reads, dec_octet_string-Reads, sequence-Reads,
}
use tkined_remix.Snmp.Decode.{
  Value, unsigned, integer, empty, address, octets, VarBind, is_exception, decode_value,
  decode_binding, decode_varbind, decode_varbinds,
}

-- A value as a sender has it.
pub data Wire : Type 0 where
  wire_null : Wire
  wire_integer : ℕ → Wire
  wire_gauge : ℕ → Wire
  wire_octets : List ℕ → Wire
  wire_address : List ℕ → Wire

-- The values that fit their encodings.
abbrev pub IsWire : Wire → Type 0
IsWire wire_null = Unit {0}
IsWire (wire_integer v) = v < 2 ^ 32
IsWire (wire_gauge v) = v < 2 ^ 32 - 2 ^ 23
IsWire (wire_octets w) = length w < 0x1_0000
IsWire (wire_address w) = length w ≡ 4

abbrev pub wire_tag : Wire → ℕ
wire_tag wire_null = 5
wire_tag (wire_integer v) = 2
wire_tag (wire_gauge v) = 0x42
wire_tag (wire_octets w) = 4
wire_tag (wire_address w) = 0x40

-- Behind the tag.
abbrev pub wire_encoding : Wire → List ℕ
wire_encoding wire_null = 5 ∷ 0 ∷ []
wire_encoding (wire_integer v) = int_encoding 2 v
wire_encoding (wire_gauge v) = int_encoding 0x42 v
wire_encoding (wire_octets w) = octets_encoding 4 w
wire_encoding (wire_address w) = octets_encoding 0x40 w

abbrev pub wire_value : Wire → Value
wire_value wire_null = empty
wire_value (wire_integer v) = integer v
wire_value (wire_gauge v) = unsigned v
wire_value (wire_octets w) = octets w
wire_value (wire_address w) = address w

null-Reads : (pre c : List ℕ) → Reads pre c (dec_null 5) (5 ∷ 0 ∷ []) 0
null-Reads pre c =
    anywhere (dec_null 5) (5 ∷ 0 ∷ []) 0 (λ p post e. (dec_null-enc_null 5 p post p post 0 0 e e).1)
      pre c

-- A gauge whose top nine bits are not all set comes back.
gauge-seen : (v : ℕ) → v < 2 ^ 32 - 2 ^ 23 → int_seen 0x42 v ≡ v
unfolding int_seen int_size
gauge-seen v h = ground arith

binding-Reads :
    (v : Wire) (oid pre c : List ℕ)
    → IsWire v
    → Reads pre c (decode_binding (wire_tag v) oid) (wire_encoding v) (wire_value v, oid)
unfolding decode_binding is_exception decode_value
binding-Reads wire_null oid pre c h = >>=-last _ (null-Reads pre c) (pure-Reads pre _ _)
binding-Reads (wire_integer v) oid pre c h =
    >>=-last _ (dec_integer-Reads v pre c h) (pure-Reads pre _ _)
binding-Reads (wire_gauge v) oid pre c h =
    >>=-last _ (dec_int-Reads 0x42 v pre c (omega arith)) (rw (gauge-seen v h) (pure-Reads pre _ _))
binding-Reads (wire_octets w) oid pre c h =
    >>=-last _ (dec_octet_string-Reads 4 w pre c h) (pure-Reads pre _ _)
binding-Reads (wire_address w) oid pre c h =
    >>=-last _ (dec_octet_string-Reads 0x40 w pre c (omega arith))
      (rw (eq→== (length w) 4 h) (pure-Reads pre _ _))

peek-Reads {ℓ} :
    {A : Type ℓ} (g : ℕ → M A) (tag : ℕ) (w pre c : List ℕ) (a : A)
    → Reads pre c (g tag) (tag ∷ w) a
    → Reads pre c (dec_peek >>= g) (tag ∷ w) a
peek-Reads g tag w pre c a h = record {
  run = λ post e. rw (dec_peek-at (pre ++ c) tag (w ++ post) e, ◌>>=◌) (h.run post e);
}

peek-wire {ℓ} :
    {A : Type ℓ} (g : ℕ → M A) (v : Wire) (pre c : List ℕ) (a : A)
    → Reads pre c (g (wire_tag v)) (wire_encoding v) a
    → Reads pre c (dec_peek >>= g) (wire_encoding v) a
peek-wire g wire_null pre c a h = peek-Reads g 5 _ pre c a h
peek-wire g (wire_integer v) pre c a h = peek-Reads g 2 _ pre c a h
peek-wire g (wire_gauge v) pre c a h = peek-Reads g 0x42 _ pre c a h
peek-wire g (wire_octets w) pre c a h = peek-Reads g 4 _ pre c a h
peek-wire g (wire_address w) pre c a h = peek-Reads g 0x40 _ pre c a h

-- A varbind as a sender has it: the identifier x.y.ops and the value.
pub record WireVarBind : Type 0 where
  pub x : ℕ
  pub y : ℕ
  pub ops : List ℕ
  pub value : Wire

abbrev pub varbind_content : WireVarBind → List ℕ
varbind_content b = packed_encoding ((b.y + b.x * 40) ∷ b.ops) ++ wire_encoding b.value

abbrev pub varbind_encoding : WireVarBind → List ℕ
varbind_encoding b = framed 0x30 (varbind_content b)

-- What the receiver makes of it.
abbrev pub varbind_of : WireVarBind → VarBind
varbind_of b = record {
  name = b.x ∷ b.y ∷ b.ops;
  tag = wire_tag b.value;
  value = wire_value b.value;
}

pub record IsVarBind (b : WireVarBind) : Type 0 where
  pub first : b.x ≤ 2
  pub second : (b.x ≡ 2) ⊎ (b.y < 40)
  pub subids : All IsSubid ((b.y + b.x * 40) ∷ b.ops)
  pub fits : length b.ops + 2 ≤ max_size
  pub good : IsWire b.value
  pub short : length (varbind_content b) < 0x1_0000

decode_varbind-Reads :
    (b : WireVarBind) (p q : ℕ) (slots rest : List ℕ)
    → IsVarBind b
    → length slots ≡ length b.ops
    → ReadsAnywhere
        (decode_varbind (p ∷ q ∷ (slots ++ rest)))
        (varbind_encoding b)
        (varbind_of b, b.x ∷ b.y ∷ (b.ops ++ rest))
unfolding decode_varbind
decode_varbind-Reads b p q slots rest h hs pre post e =
    sequence-Reads 0x30 _ (varbind_content b)
      (
        record {
          name = take (length b.ops + 2) oid;
          tag = wire_tag b.value;
          value = wire_value b.value;
        },
        oid,
      )
      h.short
      (λ pre.
        >>=-Reads _
          (anywhere (dec_oid (p ∷ q ∷ (slots ++ rest))) _ (oid, length b.ops + 2)
            (λ pre post e.
              dec_oid-packed b.x b.y b.ops p q slots rest pre post e h.first h.second h.subids hs
                h.fits)
            pre [])
          (peek-wire _ b.value pre _ _
            (>>=-last _ (binding-Reads b.value oid pre _ h.good) (closing pre _ _ _ refl))))
      pre post e
    ∙ ap
        (λ n.
          ok (record { name = n; tag = wire_tag b.value; value = wire_value b.value }, oid)
            (at (pre ++ varbind_encoding b) post e))
        same
  where
    oid : List ℕ
    oid = b.x ∷ b.y ∷ (b.ops ++ rest)

    same : take (length b.ops + 2) oid ≡ b.x ∷ b.y ∷ b.ops
    same =
        ap (λ n. take n oid)
          (let size : length b.ops + 2 ≡ length (b.x ∷ b.y ∷ b.ops) = omega arith in size)
        ∙ take-append_length (b.x ∷ b.y ∷ b.ops) rest

abbrev pub varbinds_encoding : List WireVarBind → List ℕ
varbinds_encoding [] = []
varbinds_encoding (b ∷ bs) = varbind_encoding b ++ varbinds_encoding bs

abbrev pub varbinds_of : List WireVarBind → List VarBind
varbinds_of [] = []
varbinds_of (b ∷ bs) = varbind_of b ∷ varbinds_of bs

-- A varbind read into any array of TNM_OID_MAX_SIZE elements.
read_one :
    (b : WireVarBind) (oid pre post : List ℕ) (e : Message)
    → IsVarBind b
    → length oid ≡ max_size
    → (oid' : List ℕ) × (length oid' ≡ max_size)
      × (decode_varbind oid (at pre (varbind_encoding b ++ post) e)
          ≡ ok (varbind_of b, oid') (at (pre ++ varbind_encoding b) post e))
read_one b [] pre post e h l = absurd (omega arith)
read_one b (p ∷ []) pre post e h l = absurd (omega arith)
read_one b (p ∷ q ∷ oid) pre post e h l =
    let (slots, rest, hs, eq) = split_at (length b.ops) oid (omega (arith, h.fits)) in
    (
      b.x ∷ b.y ∷ (b.ops ++ rest),
      omega (arith, length-append b.ops rest, length-append slots rest, ap (length {A = ℕ}) eq),
      ap (λ t. decode_varbind (p ∷ q ∷ t) (at pre (varbind_encoding b ++ post) e)) eq
          ∙ decode_varbind-Reads b p q slots rest h hs pre post e,
    )

-- A list of varbinds up to the end of the packet.
pub decode_varbinds-at :
    (bs : List WireVarBind) (fuel : ℕ) (oid pre : List ℕ) (e : Message)
    → All IsVarBind bs
    → length oid ≡ max_size
    → length bs ≤ fuel
    → decode_varbinds fuel oid (at pre (varbinds_encoding bs) e)
      ≡ ok (varbinds_of bs) (at (pre ++ varbinds_encoding bs) [] e)
unfolding decode_varbinds dec_done
decode_varbinds-at [] zero oid pre e h l hf =
    rw (le→leb (length (pre ++ [])) (length pre) (omega (arith, length-append pre [])))
      (ap (λ t. ok [] (at t [] e)) (sym (append-nil pre)))
decode_varbinds-at [] (suc fuel) oid pre e h l hf =
    let done = le→leb (length (pre ++ [])) (length pre) (omega (arith, length-append pre [])) in
    rw (done, decode_varbinds) (ap (λ t. ok [] (at t [] e)) (sym (append-nil pre)))
decode_varbinds-at (b ∷ bs) zero oid pre e h l hf = absurd (omega arith)
decode_varbinds-at (b ∷ bs) (suc fuel) oid pre e h l hf =
    let w = varbinds_encoding bs in
    let (oid', l', one) = read_one b oid pre w e h.0 l in
    let more = gt→leb (length (pre ++ (varbind_encoding b ++ w))) (length pre) (
      omega (
        arith,
        length-append pre (varbind_encoding b ++ w),
        length-append (varbind_encoding b) w,
      )) in
    rw (more, decode_varbinds)
      (rw (one, ◌>>=◌)
        (rw
          (
            decode_varbinds-at bs fuel oid' (pre ++ varbind_encoding b) e h.1 l' (omega arith),
            ◌>>=◌,
          )
          (ap (λ t. ok (varbinds_of (b ∷ bs)) (at t [] e))
            (append_assoc pre (varbind_encoding b) w))))

-- A varbind takes a byte at least.
pub varbinds-IsEnough : (bs : List WireVarBind) → length bs ≤ length (varbinds_encoding bs)
varbinds-IsEnough [] = omega arith
varbinds-IsEnough (b ∷ bs) =
    omega (arith, varbinds-IsEnough bs, length-append (varbind_encoding b) (varbinds_encoding bs))
