-- ===== src/Ber/Stream.antt =====
-- The BER stream of tnm/snmp/tnmAsn1.c: `struct TnmBer`, its error message and the functions on
-- single bytes. `mem` holds the bytes from `ber->start` up to `ber->end`, and a pointer into the
-- packet is its distance from `ber->start`; so `current` is `ber->current - ber->start`.
use tkined_remix.Prelude.{ℕ, ◌+◌, List, Bool, String, leb, ◌==◌, if◌then◌else◌, length, get_or, set}

-- `ber->error`, as the format and its arguments. `text` is a message stored by TnmBerSetError.
pub data Message : Type 0 where
  no_message : Message
  text : String → Message
  wrong_value : (tag position : ℕ) → Message
  wrong_length : (len tag position : ℕ) → Message
  wrong_tag : (tag position expected : ℕ) → Message
  wrong_tag_only : (tag position : ℕ) → Message
  sequence_underflow : (position missing : ℕ) → Message
  sequence_overflow : (position missing : ℕ) → Message

pub record Ber : Type 0 where
  pub mem : List ℕ
  pub current : ℕ
  pub error : Message

-- What a call leaves: `ok` is a call that returns `ber`, `null` one that returns NULL (the caller
-- still holds the stream), `fault` is undefined behaviour (a write behind an array, a shift by the
-- width of an int), and `spent` is no outcome of the program: the model ran out of fuel.
pub data Outcome {ℓ} (A : Type ℓ) : Type ℓ where
  ok : A → Ber → Outcome A
  null : Ber → Outcome A
  fault : Outcome A
  spent : Outcome A

abbrev pub M {ℓ} : Type ℓ → Type ℓ
M A = Ber → Outcome A

-- Every function returns NULL at once when it is handed NULL, as `null` does here.
infixl 5 ◌>>=◌ ◌>>◌
abbrev pub ◌>>=◌ {ℓ κ} : {A : Type ℓ} {B : Type κ} → M A → (A → M B) → M B
◌>>=◌ m f s = elim (m s) [ ok a t ↦ f a t | null t ↦ null t | fault ↦ fault | spent ↦ spent ]

abbrev pub ◌>>◌ {ℓ κ} : {A : Type ℓ} {B : Type κ} → M A → M B → M B
◌>>◌ m k s = elim (m s) [ ok a t ↦ k t | null t ↦ null t | fault ↦ fault | spent ↦ spent ]

abbrev pub pure {ℓ} : {A : Type ℓ} → A → M A
pure a s = ok a s

-- `return NULL`, and the same after a message is stored.
abbrev pub fail {ℓ} : {A : Type ℓ} → M A
fail s = null s

abbrev pub fail_with {ℓ} : {A : Type ℓ} → Message → M A
fail_with msg s = null (record s { error = msg })

abbrev pub crash {ℓ} : {A : Type ℓ} → M A
crash s = fault

-- `ber->current`
abbrev pub position : M ℕ
position s = ok s.current s

-- TnmBerCreate: the pointers stay NULL when there is no packet.
unfoldable pub create : List ℕ → Ber
create packet = record { mem = packet; current = 0; error = no_message }

-- TnmBerWrongTag prints the expected tag only if it is not 0.
unfoldable pub wrong_tag_message : ℕ → ℕ → ℕ → Message
wrong_tag_message tag position expected =
    if expected == 0 then wrong_tag_only tag position else wrong_tag tag position expected

unfoldable pub dec_done : Ber → Bool
dec_done s = leb (length s.mem) s.current

unfoldable pub size : Ber → ℕ
size s = s.current

unfoldable pub dec_peek : M ℕ
dec_peek s =
    if leb (length s.mem) s.current
    then fail_with (text "incomplete BER encoding") s
    else ok (get_or s.mem s.current 0) s

unfoldable pub enc_byte : ℕ → M (Unit {0})
enc_byte byte s =
    if leb (length s.mem) s.current
    then fail_with (text "BER buffer size exceeded") s
    else ok tt (record s { mem = set s.mem s.current byte; current = s.current + 1 })

unfoldable pub dec_byte : M ℕ
dec_byte s =
    if leb (length s.mem) s.current
    then fail_with (text "BER buffer overflow") s
    else ok (get_or s.mem s.current 0) (record s { current = s.current + 1 })

-- TnmBerWrongTag, TnmBerWrongLength and TnmBerWrongValue, followed by `return NULL`.
unfoldable pub fail_wrong_tag {ℓ} : {A : Type ℓ} → ℕ → ℕ → M A
unfolding wrong_tag_message
fail_wrong_tag tag expected s = fail_with (wrong_tag_message tag s.current expected) s

unfoldable pub fail_wrong_length {ℓ} : {A : Type ℓ} → ℕ → ℕ → M A
fail_wrong_length tag len s = fail_with (wrong_length len tag s.current) s

unfoldable pub fail_wrong_value {ℓ} : {A : Type ℓ} → ℕ → M A
fail_wrong_value tag s = fail_with (wrong_value tag s.current) s

-- The first lines of every decoder: read a byte, and refuse it if it is not the tag.
unfoldable pub expect_tag : ℕ → M (Unit {0})
expect_tag tag = do byte ← dec_byte; if byte == tag then pure tt else fail_wrong_tag byte tag
