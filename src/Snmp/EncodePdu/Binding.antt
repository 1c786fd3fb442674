-- ===== src/Snmp/EncodePdu/Binding.antt =====
-- What EncodePDU of tnm/snmp/tnmSnmpSend.c writes for a list of varbinds.
use tkined_remix.Prelude.{
  ℕ, ◌+◌, ◌*◌, ◌≤◌, List, [], ◌∷◌, ◌++◌, true, false, some, ◌≡◌, ◌≢◌, sym, ap, ◌∙◌, arith, ◌==◌,
  length, length-append, append-nil, Bool-cases, inl, inr, All,
}
use tkined_remix.Ber.Stream.{Message, ok, pure}
use tkined_remix.Ber.At.{at}
use tkined_remix.Ber.Length.Encode.{length_octets, length-length_octets}
use tkined_remix.Ber.Octets.{enc_null}
use tkined_remix.Ber.Octets.RoundTrip.{dec_null-enc_null}
use tkined_remix.Ber.Oid.{enc_oid, max_size}
use tkined_remix.Ber.Oid.Encode.{packed_encoding, content_octets, enc_oid-at, IsSubid}
use tkined_remix.Ber.Oid.RoundTrip.{length-content_octets}
use tkined_remix.Ber.Frames.{
  Writes, >>-Writes, enc_int-Writes, enc_octet_string-Writes, sequence-Writes,
}
use tkined_remix.Snmp.Decode.VarBinds.{
  Wire, wire_null, wire_integer, wire_gauge, wire_octets, wire_address, IsWire, wire_tag,
  wire_encoding, WireVarBind, varbind_content, varbind_encoding, varbinds_encoding, IsVarBind,
}
use tkined_remix.Snmp.EncodePdu.{
  Env, Version, is_get, oid_of, guess_type, int_of, octets_of, encode_value, encode_guessed,
  encode_varbind_fields, encode_varbind, encode_varbinds,
}

abbrev done : Unit {0}
done = tt

pure-at :
    (pre gap post : List ℕ) (e : Message)
    → length gap ≡ 0
    → pure done (at pre (gap ++ post) e) ≡ ok done (at (pre ++ []) post e)
pure-at pre [] post e h = ap (λ t. ok done (at t post e)) (sym (append-nil pre))
pure-at pre (g ∷ gap) post e h = absurd (omega arith)

pub pure-Writes : Writes (pure tt) []
pure-Writes = record { run = λ pre gap post e hg hp. pure-at pre gap post e hg }

enc_null-at :
    (tag : ℕ) (pre gap post : List ℕ) (e : Message)
    → length gap ≡ 2
    → enc_null tag (at pre (gap ++ post) e) ≡ ok tt (at (pre ++ tag ∷ 0 ∷ []) post e)
enc_null-at tag pre [] post e h = absurd (omega arith)
enc_null-at tag pre (a ∷ []) post e h = absurd (omega arith)
enc_null-at tag pre (a ∷ b ∷ []) post e h = (dec_null-enc_null tag pre post pre post a b e e).0
enc_null-at tag pre (a ∷ b ∷ c ∷ gap) post e h = absurd (omega arith)

enc_null-Writes : (tag : ℕ) → Writes (enc_null tag) (tag ∷ 0 ∷ [])
enc_null-Writes tag = record { run = λ pre gap post e hg hp. enc_null-at tag pre gap post e hg }

enc_oid-Writes :
    (x y : ℕ) (ops : List ℕ)
    → x ≤ 2
    → All IsSubid ((y + x * 40) ∷ ops)
    → length ops + 2 ≤ max_size
    → Writes (enc_oid (x ∷ y ∷ ops)) (packed_encoding ((y + x * 40) ∷ ops))
enc_oid-Writes x y ops hx h hm = record {
  run = λ pre gap post e hg hp.
      enc_oid-at x y ops pre gap post e hx h
        (omega (arith, length-content_octets ((y + x * 40) ∷ ops)))
        (hg
          ∙ omega (
            arith,
            length-length_octets (length (content_octets ((y + x * 40) ∷ ops)))
                (omega (arith, length-content_octets ((y + x * 40) ∷ ops))),
            length-append (length_octets (length (content_octets ((y + x * 40) ∷ ops))))
                (content_octets ((y + x * 40) ∷ ops)),
          ))
        (λ z. hp);
}

-- The words of a varbind spell the varbind: its name by the identifier, its type by the tag, and
-- its value, which a request for values leaves out.
abbrev pub Spells : Env → List ℕ → List ℕ → Wire → Type 0
Spells env name value wire_null = Unit {0}
Spells env name value (wire_integer v) = int_of env name value ≡ some v
Spells env name value (wire_gauge v) = int_of env name value ≡ some v
Spells env name value (wire_octets w) = octets_of env name value ≡ some w
Spells env name value (wire_address w) = env.ip_address value ≡ some w

pub record IsSpelled (env : Env) (kind : ℕ) (name : List ℕ) (words : List (List ℕ))
    (b : WireVarBind) : Type 0 where
  pub named : oid_of env name ≡ some (b.x ∷ b.y ∷ b.ops)
  pub typed : (guess_type env kind name words).0 ≢ 0
  pub asked : is_get kind ≡ true → b.value ≡ wire_null
  pub told :
      is_get kind ≡ false
      → ((guess_type env kind name words).0 ≡ wire_tag b.value)
        × Spells env name (guess_type env kind name words).1 b.value

encode_value-Writes :
    (env : Env) (version : Version) (name value : List ℕ) (v : Wire)
    → IsWire v
    → Spells env name value v
    → Writes (encode_value env version name (wire_tag v) value) (wire_encoding v)
unfolding encode_value
encode_value-Writes env version name value wire_null h s = enc_null-Writes 5
encode_value-Writes env version name value (wire_integer v) h s = rw s (enc_int-Writes 2 v h)
encode_value-Writes env version name value (wire_gauge v) h s =
    rw s (enc_int-Writes 0x42 v (omega arith))
encode_value-Writes env version name value (wire_octets w) h s =
    rw s (enc_octet_string-Writes 4 w (omega arith))
encode_value-Writes env version name value (wire_address w) h s =
    rw s (enc_octet_string-Writes 0x40 w (omega arith))

fields-Writes :
    (env : Env) (version : Version) (kind : ℕ) (name : List ℕ) (words : List (List ℕ))
    (b : WireVarBind)
    → IsVarBind b
    → IsSpelled env kind name words b
    → Writes (encode_varbind_fields env version kind name words) (varbind_content b)
unfolding encode_varbind_fields encode_guessed
fields-Writes env version kind name words b h s =
    let typed : ((guess_type env kind name words).0 == 0) ≡ false = ground (arith, s.typed) in
    rw (s.named, typed)
      (>>-Writes (enc_oid-Writes b.x b.y b.ops h.first h.subids h.fits)
        (elim (Bool-cases (is_get kind)) [
          | inl get ↦ rw get (rw (s.asked get) (enc_null-Writes 5))
          | inr set ↦
              let (t, v) = s.told set in
              rw (set, t) (encode_value-Writes env version name _ b.value h.good v)
        ]))

-- A text and the varbind that its words spell.
pub record IsBinding (env : Env) (kind : ℕ) (vb : List ℕ) (b : WireVarBind) : Type 0 where
  pub name : List ℕ
  pub words : List (List ℕ)
  pub parts : env.split_list vb ≡ some (name ∷ words)
  pub spelled : IsSpelled env kind name words b
  pub good : IsVarBind b

abbrev pub AreBindings : Env → ℕ → List (List ℕ) → List WireVarBind → Type 0
AreBindings env kind [] [] = Unit {0}
AreBindings env kind [] (b ∷ bs) = ⊥
AreBindings env kind (vb ∷ vbs) [] = ⊥
AreBindings env kind (vb ∷ vbs) (b ∷ bs) = IsBinding env kind vb b × AreBindings env kind vbs bs

encode_varbind-Writes :
    (env : Env) (version : Version) (kind : ℕ) (name : List ℕ) (words : List (List ℕ))
    (b : WireVarBind)
    → IsVarBind b
    → IsSpelled env kind name words b
    → Writes (encode_varbind env version kind (name ∷ words)) (varbind_encoding b)
unfolding encode_varbind
encode_varbind-Writes env version kind name words b h s =
    sequence-Writes 0x30 (omega (arith, h.short)) (fields-Writes env version kind name words b h s)

pub encode_varbinds-Writes :
    (env : Env) (version : Version) (kind : ℕ) (vbs : List (List ℕ)) (bs : List WireVarBind)
    → AreBindings env kind vbs bs
    → Writes (encode_varbinds env version kind vbs) (varbinds_encoding bs)
unfolding encode_varbinds
encode_varbinds-Writes env version kind [] [] h = pure-Writes
encode_varbinds-Writes env version kind [] (b ∷ bs) h = absurd h
encode_varbinds-Writes env version kind (vb ∷ vbs) [] h = absurd h
encode_varbinds-Writes env version kind (vb ∷ vbs) (b ∷ bs) h =
    >>-Writes {w = varbind_encoding b}
      (rw (h.0.parts) (encode_varbind-Writes env version kind _ _ b h.0.good h.0.spelled))
      (encode_varbinds-Writes env version kind vbs bs h.1)

pub AreBindings-good :
    (env : Env) (kind : ℕ) (vbs : List (List ℕ)) (bs : List WireVarBind)
    → AreBindings env kind vbs bs
    → All IsVarBind bs
AreBindings-good env kind [] [] h = tt
AreBindings-good env kind [] (b ∷ bs) h = absurd h
AreBindings-good env kind (vb ∷ vbs) [] h = absurd h
AreBindings-good env kind (vb ∷ vbs) (b ∷ bs) h = (h.0.good, AreBindings-good env kind vbs bs h.1)
