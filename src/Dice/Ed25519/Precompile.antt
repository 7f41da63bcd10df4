-- ===== src/Dice/Ed25519/Precompile.antt =====
-- What the signature program has verified of an instruction that resolve_bet.rs accepts.
use solana_instructions_intr.Dice.Ed25519.Layout.{documented, IsDocumented-eq}
use solana_instructions_intr.Prelude.{
  ◌>>=◌, ok_or-eq-ok, subst, ℕ, true, ◌+◌, ◌*◌, ◌≡◌, ap, ◌∙◌, arith, List, [], ◌∷◌, some, ok,
  require, ok_or, or_panic, ◌==◌, ◌&&◌, leb, length, slice, get_elem?, from_le_bytes, >>=-eq-ok,
  require-eq-ok, or_panic-eq-ok,
}
use solana_instructions_intr.Prelude.Slices.{get_elem?-slice}
use solana_instructions_intr.Solana.{custom}
use solana_instructions_intr.Dice.Types.{
  Rolled, ed25519_signature_offset, ed25519_signature_must_be_one, ed25519_header,
}
use solana_instructions_intr.Dice.Ed25519.{
  Ed25519Sizes, IsDocumented, Ed25519SignatureOffsets, Ed25519InstructionData,
  read_ed25519_instruction_data, u16_at, read_offsets, this_instruction,
  deserialize_ed25519_instruction_data,
}

-- A u16 in two little-endian bytes.
pub record HasU16 (bytes : List ℕ) (i n : ℕ) : Type 0 where
  pub low : ℕ
  pub high : ℕ
  pub low_at : get_elem? bytes i ≡ some low
  pub high_at : get_elem? bytes (i + 1) ≡ some high
  pub value : n ≡ low + 256 * high

-- One signature with its three parts in the same instruction, in the layout that the signature
-- program documents: the number of signatures, a byte of padding, and for the signature seven u16
-- with the places of the signature, the key and the message.
pub record IsOneSignature (bytes key sig message : List ℕ) : Type 0 where
  pub sig_offset : ℕ
  pub key_offset : ℕ
  pub message_offset : ℕ
  pub message_size : ℕ
  pub one : get_elem? bytes 0 ≡ some 1
  pub sig_offset_at : HasU16 bytes 2 sig_offset
  pub sig_here : HasU16 bytes 4 65_535
  pub key_offset_at : HasU16 bytes 6 key_offset
  pub key_here : HasU16 bytes 8 65_535
  pub message_offset_at : HasU16 bytes 10 message_offset
  pub message_size_at : HasU16 bytes 12 message_size
  pub message_here : HasU16 bytes 14 65_535
  pub key_at : slice bytes key_offset (key_offset + 32) ≡ some key
  pub sig_at : slice bytes sig_offset (sig_offset + 64) ≡ some sig
  pub message_at : slice bytes message_offset (message_offset + message_size) ≡ some message

two_bytes :
    (low high n : ℕ)
    → ◌≡◌ {A = Rolled ℕ} (ok (from_le_bytes (low ∷ high ∷ []))) (ok n)
    → n ≡ low + 256 * high
unfolding from_le_bytes
two_bytes low high n e = ground arith

u16_at-HasU16 : (bytes : List ℕ) (i n : ℕ) → u16_at bytes i ≡ ok n → HasU16 bytes i n
unfolding u16_at from_le_bytes
u16_at-HasU16 bytes i n e =
    let (low, e1, k1) = >>=-eq-ok (or_panic (get_elem? bytes i)) _ e in
    let (high, e2, k2) = >>=-eq-ok (or_panic (get_elem? bytes (i + 1))) _ k1 in
    record {
      low = low;
      high = high;
      low_at = or_panic-eq-ok (get_elem? bytes i) e1;
      high_at = or_panic-eq-ok (get_elem? bytes (i + 1)) e2;
      value = two_bytes low high n k2;
    }

-- The header of the slice, seen in the whole data.
header-HasU16 :
    (bytes part : List ℕ) (i n : ℕ)
    → slice bytes 2 16 ≡ some part
    → u16_at part i ≡ ok n
    → HasU16 bytes (2 + i) n
header-HasU16 bytes part i n at e =
    let h = u16_at-HasU16 part i n e in
    record {
      low = h.low;
      high = h.high;
      low_at = get_elem?-slice bytes 2 16 i at h.low_at;
      high_at =
          ap (get_elem? bytes) (omega arith) ∙ get_elem?-slice bytes 2 16 (i + 1) at h.high_at;
      value = h.value;
    }

read_part :
    (bytes : List ℕ) (i n : ℕ) (x : List ℕ)
    → read_ed25519_instruction_data bytes i n ≡ ok x
    → slice bytes i (i + n) ≡ some x
unfolding read_ed25519_instruction_data
read_part bytes i n x e = ground arith

record AreRead (part : List ℕ) (o : Ed25519SignatureOffsets) : Type 0 where
  sig_offset : u16_at part 0 ≡ ok o.signature_offset
  sig_index : u16_at part 2 ≡ ok o.signature_instruction_index
  key_offset : u16_at part 4 ≡ ok o.public_key_offset
  key_index : u16_at part 6 ≡ ok o.public_key_instruction_index
  message_offset : u16_at part 8 ≡ ok o.message_data_offset
  message_size : u16_at part 10 ≡ ok o.message_data_size
  message_index : u16_at part 12 ≡ ok o.message_instruction_index

ok_inj : {A : Type 0} (a b : A) → ◌≡◌ {A = Rolled A} (ok a) (ok b) → a ≡ b
ok_inj a b e = cc

all_here :
    (o : Ed25519SignatureOffsets)
    → (o.signature_instruction_index == this_instruction
        && o.public_key_instruction_index == this_instruction
        && o.message_instruction_index == this_instruction)
      ≡ true
    → (o.signature_instruction_index ≡ 65_535)
      × (o.public_key_instruction_index ≡ 65_535)
      × (o.message_instruction_index ≡ 65_535)
all_here o h = ground arith

read_offsets-AreRead :
    (part : List ℕ) (o : Ed25519SignatureOffsets) → read_offsets part ≡ ok o → AreRead part o
unfolding read_offsets
read_offsets-AreRead part o e =
    let (a, ea, k0) = >>=-eq-ok (u16_at part 0) _ e in
    let (b, eb, k1) = >>=-eq-ok (u16_at part 2) _ k0 in
    let (c, ec, k2) = >>=-eq-ok (u16_at part 4) _ k1 in
    let (d, ed, k3) = >>=-eq-ok (u16_at part 6) _ k2 in
    let (f, ef, k4) = >>=-eq-ok (u16_at part 8) _ k3 in
    let (g, eg, k5) = >>=-eq-ok (u16_at part 10) _ k4 in
    let (h, eh, k6) = >>=-eq-ok (u16_at part 12) _ k5 in
    subst (AreRead part) (ok_inj _ _ k6) (record {
      sig_offset = ea;
      sig_index = eb;
      key_offset = ec;
      key_index = ed;
      message_offset = ef;
      message_size = eg;
      message_index = eh;
    })

parts-IsOneSignature :
    (bytes part : List ℕ) (o : Ed25519SignatureOffsets) (f : Ed25519InstructionData)
    → get_elem? bytes 0 ≡ some 1
    → slice bytes 2 16 ≡ some part
    → AreRead part o
    → (o.signature_instruction_index == this_instruction
        && o.public_key_instruction_index == this_instruction
        && o.message_instruction_index == this_instruction)
      ≡ true
    → (do
      public_key ← read_ed25519_instruction_data bytes o.public_key_offset 32
      signature ← read_ed25519_instruction_data bytes o.signature_offset 64
      message ← read_ed25519_instruction_data bytes o.message_data_offset o.message_data_size
      ok (record { public_key = public_key; signature = signature; message = message }))
      ≡ ok f
    → IsOneSignature bytes f.public_key f.signature f.message
parts-IsOneSignature bytes part o f one header r here e =
    let (key, e1, k1) =
      >>=-eq-ok (read_ed25519_instruction_data bytes o.public_key_offset 32) _ e in
    let (sig, e2, k2) =
      >>=-eq-ok (read_ed25519_instruction_data bytes o.signature_offset 64) _ k1 in
    let (message, e3, k3) =
      >>=-eq-ok (read_ed25519_instruction_data bytes o.message_data_offset o.message_data_size) _
        k2 in
    let left : record { public_key = key; signature = sig; message = message } ≡ f =
      ok_inj _ _ k3 in
    let (sig_here, key_here, message_here) = all_here o here in
    subst (λ (x : Ed25519InstructionData). IsOneSignature bytes x.public_key x.signature x.message)
      left
      (record {
        sig_offset = o.signature_offset;
        key_offset = o.public_key_offset;
        message_offset = o.message_data_offset;
        message_size = o.message_data_size;
        one = one;
        sig_offset_at = header-HasU16 bytes part 0 o.signature_offset header r.sig_offset;
        sig_here = header-HasU16 bytes part 2 65_535 header (r.sig_index ∙ ap ok sig_here);
        key_offset_at = header-HasU16 bytes part 4 o.public_key_offset header r.key_offset;
        key_here = header-HasU16 bytes part 6 65_535 header (r.key_index ∙ ap ok key_here);
        message_offset_at =
            header-HasU16 bytes part 8 o.message_data_offset header r.message_offset;
        message_size_at = header-HasU16 bytes part 10 o.message_data_size header r.message_size;
        message_here =
            header-HasU16 bytes part 12 65_535 header (r.message_index ∙ ap ok message_here);
        key_at = read_part bytes o.public_key_offset 32 key e1;
        sig_at = read_part bytes o.signature_offset 64 sig e2;
        message_at = read_part bytes o.message_data_offset o.message_data_size message e3;
      })

accepted_header :
    (bytes : List ℕ) (f : Ed25519InstructionData)
    → deserialize_ed25519_instruction_data documented bytes ≡ ok f
    → IsOneSignature bytes f.public_key f.signature f.message
unfolding deserialize_ed25519_instruction_data
accepted_header bytes f e =
    let (_, _, k0) =
      >>=-eq-ok (require (leb 2 (length bytes)) (custom ed25519_signature_offset)) _ e in
    let (count, e1, k1) = >>=-eq-ok (or_panic (get_elem? bytes 0)) _ k0 in
    let (_, e2, k2) =
      >>=-eq-ok (require (count == 1) (custom ed25519_signature_must_be_one)) _ k1 in
    let (part, e4, k4) = >>=-eq-ok (ok_or (slice bytes 2 16) (custom ed25519_header)) _ k2 in
    let (o, e5, k5) = >>=-eq-ok (read_offsets part) _ k4 in
    let (_, e6, k6) =
      >>=-eq-ok
        (require
          (o.signature_instruction_index == this_instruction
            && o.public_key_instruction_index == this_instruction
            && o.message_instruction_index == this_instruction)
          (custom ed25519_header))
        _ k5 in
    let is_one : count ≡ 1 = ground (arith, require-eq-ok (count == 1) _ e2) in
    parts-IsOneSignature bytes part o f (or_panic-eq-ok (get_elem? bytes 0) e1 ∙ ap some is_one)
      (ok_or-eq-ok (slice bytes 2 16) (custom ed25519_header) e4) (read_offsets-AreRead part o e5)
      (require-eq-ok _ _ e6) k6

-- The three parts of accepted data are those of the documented layout.
pub deserialize-IsOneSignature :
    (k : Ed25519Sizes) (bytes : List ℕ) (f : Ed25519InstructionData)
    → IsDocumented k
    → deserialize_ed25519_instruction_data k bytes ≡ ok f
    → IsOneSignature bytes f.public_key f.signature f.message
deserialize-IsOneSignature k bytes f d e = accepted_header bytes f (
    subst (λ (x : Ed25519Sizes). deserialize_ed25519_instruction_data x bytes ≡ ok f)
      (IsDocumented-eq k d) e)
